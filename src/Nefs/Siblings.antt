-- ===== src/Nefs/Siblings.antt =====
-- The chain of forks that `CreateFork` of private/minkernel/src/FS/NeFS+FileSystemParser.cpp
-- extends, and the search of `ReadCatalog` along it.
pub mod Roundtrip
use nekrnl.Prelude.{
  ℕ, zero, suc, ◌+◌, ◌≤◌, ◌<◌, ◌≡◌, ◌⊎◌, refl, sym, subst, ap, ◌∙◌, Bool, true, false, not, ◌&&◌,
  ltb, leb, ◌==◌, if◌then◌else◌, Option, none, some, List, [], ◌∷◌, arith, Bool-cases, inl, inr,
  ==_iff, ℕ_discrete, true_not_false,
}
use nekrnl.Drive.{Drive, Device, success, disk, io_drv_input, io_drv_output}
use nekrnl.Drive.Layout.{Apart, load-save-Apart}
use nekrnl.Drive.Mount.{
  fs_ifs_write, address_of, io_drv_input_ready, io_drv_output_ready, clear_good,
}
use nekrnl.Nefs.{Name, Fork, Catalog, Disk, blank_fork, same_name, is_created, catalog_start}
use nekrnl.Nefs.Bits.{is_created-or}
use nekrnl.Nefs.Forks.{linked, is_fork, add_fork, append_fork, create_fork_from, read_from}

module _ {S : Type 0} (dev : Device) (fs : Disk S) where
  -- Every transfer succeeds, and the drive is good and can be written.
  pub record IsReady (d : Drive S) : Type 0 where
    pub reads_ok : (lba : ℕ) → dev.reads lba ≡ true
    pub writes_ok : (lba : ℕ) → dev.writes lba ≡ true
    pub good : d.good ≡ true
    pub unlocked : d.read_only ≡ false

  abbrev pub fork_at : (ℕ → S) → ℕ → Fork
  fork_at m lba = fs.fork.load m lba

  -- Along the forks from an address, in the sectors `m`, none of which has the two names, the
  -- first place that is not taken is `at`, `k` forks away.
  pub data Chain (m : ℕ → S) (fork_name catalog_name : Name) : ℕ → ℕ → ℕ → Type 0 where
    free :
        {at : ℕ}
        → catalog_start ≤ at
        → is_created (fork_at m at).flags ≡ false
        → Chain m fork_name catalog_name zero at at
    taken :
        {k lba at : ℕ}
        → catalog_start ≤ lba
        → is_created (fork_at m lba).flags ≡ true
        → is_fork fork_name catalog_name (fork_at m lba) ≡ false
        → Chain m fork_name catalog_name k (fork_at m lba).next_sibling at
        → Chain m fork_name catalog_name (suc k) lba at

  -- A fork is written whole, and the forks elsewhere stay.
  fork-save_ne :
      (f : Fork) (lba x : ℕ) (m : ℕ → S)
      → (x ≡ lba → ⊥)
      → fork_at (fs.fork.save f lba m) x ≡ fork_at m x
  fork-save_ne f lba x m ne =
      load-save-Apart fs.fork fs.fork f lba x m (rw fs.fork_width (apart lba x ne))
    where
      apart : (lba x : ℕ) → (x ≡ lba → ⊥) → Apart lba 1 x 1
      apart lba x ne = ground arith

  -- What `CreateFork` leaves in the sectors: the new fork at its place, and the others as they were.
  pub record IsLinked (m m' : ℕ → S) (at : ℕ) (f : Fork) : Type 0 where
    pub before : ℕ
    pub placed : fork_at m' at ≡ linked at before f
    pub kept : (x : ℕ) → is_created (fork_at m x).flags ≡ true → fork_at m' x ≡ fork_at m x

  abbrev added : ℕ → Fork → Drive S → Drive S
  added lba f d = record d {
    good = false;
    error = success;
    sectors = fs.fork.save f lba (fs.fork.save f lba d.sectors);
  }

  pub not_first : (lba : ℕ) → catalog_start ≤ lba → (lba == 0) ≡ false
  not_first lba h = ground arith

  pub IsReady-with :
      (d : Drive S) (m : ℕ → S) → IsReady d → IsReady (record d { error = success; sectors = m })
  IsReady-with d m w = record {
    reads_ok = w.reads_ok;
    writes_ok = w.writes_ok;
    good = w.good;
    unlocked = w.unlocked;
  }

  add_fork_ready :
      (lba before : ℕ) (f : Fork) (d : Drive S)
      → IsReady d
      → catalog_start ≤ lba
      → add_fork dev fs lba before f d ≡ (true, added lba (linked lba before f) d)
  unfolding add_fork fs_ifs_write address_of
  add_fork_ready lba before f d w low =
      let put = fs.fork.save (linked lba before f) lba in
      let once = record d { error = success; sectors = put d.sectors } in
      rw
        (
          io_drv_output_ready dev fs.fork lba put d (w.writes_ok lba) w.unlocked
              (not_first lba low),
          w.good,
          io_drv_output_ready dev fs.fork lba put (clear_good once) (w.writes_ok lba) w.unlocked
              (not_first lba low),
        )
        refl

  -- The fork before the new one.
  abbrev pub IsBefore : (ℕ → S) → ℕ → Fork → ℕ → Type 0
  IsBefore m before prev lba =
      (before ≡ lba) ⊎ ((fork_at m before ≡ prev) × (prev.next_sibling ≡ lba))

  abbrev pointed : ℕ → ℕ → Fork → Drive S → Drive S
  pointed lba before prev d = record d {
    error = success;
    sectors = fs.fork.save (record prev { next_sibling = lba }) before d.sectors;
  }

  append_fork_ready :
      (lba before : ℕ) (prev f : Fork) (d : Drive S)
      → IsReady d
      → catalog_start ≤ lba
      → catalog_start ≤ before
      → append_fork dev fs lba before prev f d
        ≡ (true, added lba (linked lba before f) (pointed lba before prev d))
  append_fork_ready lba before prev f d w low low' =
      rw
        (
          inside lba low,
          io_drv_output_ready dev fs.fork before
              (fs.fork.save (record prev { next_sibling = lba }) before) d (w.writes_ok before)
              w.unlocked (not_first before low'),
        )
        (add_fork_ready lba before f (pointed lba before prev d)
          (IsReady-with d (pointed lba before prev d).sectors w) low)
    where
      inside : (lba : ℕ) → catalog_start ≤ lba → leb catalog_start lba ≡ true
      inside lba h = ground arith

  apart_from :
      (m : ℕ → S) (at x : ℕ)
      → is_created (fork_at m at).flags ≡ false
      → is_created (fork_at m x).flags ≡ true
      → x ≡ at
      → ⊥
  apart_from m at x clear made e =
      true_not_false (sym made ∙ ap (λ x. is_created (fork_at m x).flags) e ∙ clear)

  -- The fork before the new one already points to its place.
  pointed_same :
      (m : ℕ → S) (lba before : ℕ) (prev : Fork)
      → (before ≡ lba → ⊥)
      → IsBefore m before prev lba
      → record prev { next_sibling = lba } ≡ fork_at m before
  pointed_same m lba before prev ne (inl e) = absurd (ne e)
  pointed_same m lba before prev ne (inr (same, next)) =
      ap (λ n. record prev { next_sibling = n }) (sym next) ∙ sym same

  appended-IsLinked :
      (lba before : ℕ) (prev f : Fork) (d : Drive S)
      → is_created (fork_at d.sectors lba).flags ≡ false
      → IsBefore d.sectors before prev lba
      → IsLinked d.sectors
          (added lba (linked lba before f) (pointed lba before prev d)).sectors
          lba
          f
  appended-IsLinked lba before prev f d clear b =
      let m₁ = fs.fork.save (record prev { next_sibling = lba }) before d.sectors in
      let f' = linked lba before f in
      record {
        before = before;
        placed = fs.fork.load-save f' lba (fs.fork.save f' lba m₁);
        kept = λ x made.
            let ne = apart_from d.sectors lba x clear made in
            fork-save_ne f' lba x (fs.fork.save f' lba m₁) ne
            ∙ fork-save_ne f' lba x m₁ ne
            ∙ elim (ℕ_discrete x before) [
              | yes e ↦
                  ap (fork_at m₁) e
                  ∙ fs.fork.load-save (record prev { next_sibling = lba }) before d.sectors
                  ∙ pointed_same d.sectors lba before prev (λ h. ne (e ∙ h)) b
                  ∙ ap (fork_at d.sectors) (sym e)
              | no n ↦ fork-save_ne (record prev { next_sibling = lba }) before x d.sectors n
            ];
      }

  not_bad : {A : Type 0} (good : Bool) (a b : A) → good ≡ true → (if not good then a else b) ≡ b
  not_bad good a b h = rw h refl

  -- The two ways a round of the loop goes.
  at_free :
      (fuel lba before : ℕ) (prev cur f : Fork) (d : Drive S)
      → IsReady d
      → catalog_start ≤ lba
      → is_created (fork_at d.sectors lba).flags ≡ false
      → catalog_start ≤ before
      → create_fork_from dev fs (suc fuel) lba before prev cur f d
        ≡ some (
          true,
          added lba (linked lba before f) (pointed lba before prev (record d { error = success })),
        )
  unfolding create_fork_from
  at_free fuel lba before prev cur f d w inside clear low =
      rw
        (
          io_drv_input_ready dev fs.fork lba cur d (w.reads_ok lba),
          clear,
          not_bad d.good _ _ w.good,
        )
        (ap some (
          append_fork_ready lba before prev f (record d { error = success })
            (IsReady-with d d.sectors w) inside low))

  at_taken :
      (fuel lba before : ℕ) (prev cur f : Fork) (d : Drive S)
      → IsReady d
      → is_created (fork_at d.sectors lba).flags ≡ true
      → is_fork f.fork_name f.catalog_name (fork_at d.sectors lba) ≡ false
      → create_fork_from dev fs (suc fuel) lba before prev cur f d
        ≡ create_fork_from dev fs fuel
            (fork_at d.sectors lba).next_sibling
            lba
            (fork_at d.sectors lba)
            (fork_at d.sectors lba)
            f
            (record d { error = success })
  unfolding create_fork_from
  at_taken fuel lba before prev cur f d w made other =
      rw
        (
          io_drv_input_ready dev fs.fork lba cur d (w.reads_ok lba),
          made,
          other,
          not_bad d.good _ _ w.good,
        )
        refl

  -- `CreateFork` puts the fork at the first place that is not taken.
  pub create_fork_from-IsLinked :
      (fuel k lba before at : ℕ) (prev cur f : Fork) (d : Drive S)
      → IsReady d
      → Chain d.sectors f.fork_name f.catalog_name k lba at
      → catalog_start ≤ before
      → IsBefore d.sectors before prev lba
      → k < fuel
      → (d' : Drive S) × (create_fork_from dev fs fuel lba before prev cur f d ≡ some (true, d'))
        × (d'.good ≡ false)
        × IsLinked d.sectors d'.sectors at f
  unfolding create_fork_from
  create_fork_from-IsLinked zero k lba before at prev cur f d w c low b enough =
      absurd (omega arith)
  create_fork_from-IsLinked (suc fuel) zero lba before at prev cur f d w (free inside clear) low b
        enough =
      (
        added lba (linked lba before f) (pointed lba before prev (record d { error = success })),
        at_free fuel lba before prev cur f d w inside clear low,
        refl,
        appended-IsLinked lba before prev f (record d { error = success }) clear b,
      )
  create_fork_from-IsLinked (suc fuel) (suc k) lba before at prev cur f d w
        (taken inside made other c) low b enough =
      let (d', ends, bad, linked) =
        create_fork_from-IsLinked fuel k (fork_at d.sectors lba).next_sibling lba at
          (fork_at d.sectors lba) (fork_at d.sectors lba) f (record d { error = success })
          (IsReady-with d d.sectors w) c inside (inr (refl, refl)) (omega arith) in
      (d', at_taken fuel lba before prev cur f d w made other ∙ ends, bad, linked)
