-- ===== src/Nefs/Place.antt =====
-- The place that `CreateCatalog` of private/minkernel/src/FS/NeFS+FileSystemParser.cpp takes for a
-- new catalog.
use nekrnl.Prelude.{
  ℕ, zero, suc, ◌+◌, ◌*◌, ◌≤◌, ◌<◌, ◌≡◌, refl, ap, ◌∙◌, Bool, true, false, some, arith, inl, inr,
  lt→ltb,
}
use nekrnl.Drive.{Drive, Device, success}
use nekrnl.Drive.Layout.{Apart, load-save-Apart}
use nekrnl.Drive.Mount.{io_drv_input_ready, io_drv_output_ready}
use nekrnl.Nefs.{
  Name, Catalog, Root, Disk, blank_catalog, root_start, catalog_start, same_name, is_created,
  is_valid_size,
}
use nekrnl.Nefs.Catalogs.{take_place, find_place, placed, count_catalog}
use nekrnl.Nefs.Forks.{write_in, fork_size}
use nekrnl.Nefs.Siblings.{IsReady, IsReady-with, not_first}

module _ {S : Type 0} (dev : Device) (fs : Disk S) where
  abbrev pub catalog_at : (ℕ → S) → ℕ → Catalog
  catalog_at m lba = fs.catalog.load m lba

  abbrev pub root_of : (ℕ → S) → Root
  root_of m = fs.root.load m root_start

  -- The partition block and the catalogs do not meet.
  pub root-save_catalog :
      (c : Catalog) (at : ℕ) (m : ℕ → S)
      → catalog_start ≤ at
      → root_of (fs.catalog.save c at m) ≡ root_of m
  root-save_catalog c at m low =
      load-save-Apart fs.catalog fs.root c at root_start m
        (rw (fs.catalog_width, fs.root_width) (inr (omega arith)))

  pub catalog-save_root :
      (r : Root) (at : ℕ) (m : ℕ → S)
      → catalog_start ≤ at
      → catalog_at (fs.root.save r root_start m) at ≡ catalog_at m at
  catalog-save_root r at m low =
      load-save-Apart fs.root fs.catalog r root_start at m
        (rw (fs.catalog_width, fs.root_width) (inl (omega arith)))

  pub catalog-save_catalog :
      (c : Catalog) (at x : ℕ) (m : ℕ → S)
      → Apart at 2 x 2
      → catalog_at (fs.catalog.save c at m) x ≡ catalog_at m x
  catalog-save_catalog c at x m apart =
      load-save-Apart fs.catalog fs.catalog c at x m (rw fs.catalog_width apart)

  -- What the sectors hold when a place is taken.
  pub record IsTaken (m m' : ℕ → S) (at sectors : ℕ) (part : Root) (child : Catalog) : Type 0 where
    pub stored : catalog_at m' at ≡ placed at sectors part child
    pub counted : root_of m' ≡ count_catalog sectors (root_of m)
    pub kept : (x : ℕ) → catalog_start ≤ x → Apart at 2 x 2 → catalog_at m' x ≡ catalog_at m x

  abbrev cleared_and_placed : ℕ → ℕ → Root → Catalog → (ℕ → S) → ℕ → S
  cleared_and_placed at sectors part child m =
      fs.catalog.save (placed at sectors part child) at (fs.catalog.save blank_catalog at m)

  abbrev taken : ℕ → ℕ → Root → Catalog → (ℕ → S) → ℕ → S
  taken at sectors part child m =
      fs.root.save (count_catalog sectors (root_of m)) root_start
        (cleared_and_placed at sectors part child m)

  root_kept :
      (at sectors : ℕ) (part : Root) (child : Catalog) (m : ℕ → S)
      → catalog_start ≤ at
      → root_of (cleared_and_placed at sectors part child m) ≡ root_of m
  root_kept at sectors part child m low =
      root-save_catalog (placed at sectors part child) at (fs.catalog.save blank_catalog at m) low
      ∙ root-save_catalog blank_catalog at m low

  take_place_ready :
      (at sectors : ℕ) (part : Root) (child : Catalog) (d : Drive S)
      → IsReady dev fs d
      → catalog_start ≤ at
      → take_place dev fs at sectors part child d
        ≡ record d { error = success; sectors = taken at sectors part child d.sectors }
  unfolding take_place
  take_place_ready at sectors part child d w low =
      let m₁ = fs.catalog.save blank_catalog at d.sectors in
      let d₁ = record d { error = success; sectors = m₁ } in
      let m₂ = cleared_and_placed at sectors part child d.sectors in
      let d₂ = record d { error = success; sectors = m₂ } in
      rw
        (
          io_drv_output_ready dev fs.catalog at (fs.catalog.save blank_catalog at) d
              (w.writes_ok at) w.unlocked (not_first dev fs at low),
          io_drv_output_ready dev fs.catalog at (fs.catalog.save (placed at sectors part child) at)
              d₁ (w.writes_ok at) w.unlocked (not_first dev fs at low),
          io_drv_input_ready dev fs.root root_start part d₂ (w.reads_ok root_start),
          root_kept at sectors part child d.sectors low,
          io_drv_output_ready dev fs.root root_start
              (fs.root.save (count_catalog sectors (root_of d.sectors)) root_start) d₂
              (w.writes_ok root_start) w.unlocked refl,
        )
        refl

  taken-IsTaken :
      (at sectors : ℕ) (part : Root) (child : Catalog) (m : ℕ → S)
      → catalog_start ≤ at
      → IsTaken m (taken at sectors part child m) at sectors part child
  taken-IsTaken at sectors part child m low =
      let m₁ = fs.catalog.save blank_catalog at m in
      let m₂ = cleared_and_placed at sectors part child m in
      let counted = count_catalog sectors (root_of m) in
      record {
        stored =
            catalog-save_root counted at m₂ low
            ∙ fs.catalog.load-save (placed at sectors part child) at m₁;
        counted = fs.root.load-save counted root_start m₂;
        kept = λ x low' apart.
            catalog-save_root counted x m₂ low'
            ∙ catalog-save_catalog (placed at sectors part child) at x m₁ apart
            ∙ catalog-save_catalog blank_catalog at x m apart;
      }

  -- From `cursor` on, in steps of `sectors` and below `stop`, the first place that holds no
  -- catalog is `at`, `k` places away; none before it holds the name `path`.
  pub data Places (m : ℕ → S) (path : Name) (sectors stop : ℕ) : ℕ → ℕ → ℕ → Type 0 where
    vacant :
        {at : ℕ}
        → at < stop
        → is_created (catalog_at m at).flags ≡ false
        → Places m path sectors stop zero at at
    full :
        {k cursor at : ℕ}
        → cursor < stop
        → is_created (catalog_at m cursor).flags ≡ true
        → same_name (catalog_at m cursor).name path ≡ false
        → Places m path sectors stop k (cursor + sectors) at
        → Places m path sectors stop (suc k) cursor at

  abbrev pub stop_of : ℕ → Root → ℕ
  stop_of sectors part = part.start_catalog + part.catalog_count * sectors

  -- The loop of `CreateCatalog` takes the first place that holds no catalog, on a drive whose
  -- transfers succeed and with more fuel than places before it: the child is stored there, the
  -- partition block counts it, the catalogs apart from it stay, and the answer is what the place
  -- held before. The packet stays good.
  pub find_place-IsTaken :
      (fuel k sectors cursor at : ℕ) (path : Name) (part : Root) (child tmp : Catalog) (d : Drive S)
      → IsReady dev fs d
      → catalog_start ≤ cursor
      → Places d.sectors path sectors (stop_of sectors part) k cursor at
      → k < fuel
      → (d' : Drive S) × (find_place dev fs fuel sectors path part child cursor tmp d
          ≡ some (some (catalog_at d.sectors at), d'))
        × (d'.good ≡ true)
        × IsTaken d.sectors d'.sectors at sectors part child
  unfolding find_place
  find_place-IsTaken zero k sectors cursor at path part child tmp d w low p enough =
      absurd (omega arith)
  find_place-IsTaken (suc fuel) zero sectors cursor at path part child tmp d w low
        (vacant inside clear) enough =
      let d₁ = record d { error = success } in
      (
        record d { error = success; sectors = taken cursor sectors part child d.sectors },
        rw
            (
              io_drv_input_ready dev fs.catalog cursor tmp d (w.reads_ok cursor),
              lt→ltb _ _ inside,
              clear,
            )
            (ap (λ e. some (some (catalog_at d.sectors cursor), e))
              (take_place_ready cursor sectors part child d₁ (IsReady-with dev fs d d.sectors w)
                low)),
        w.good,
        taken-IsTaken cursor sectors part child d.sectors low,
      )
  find_place-IsTaken (suc fuel) (suc k) sectors cursor at path part child tmp d w low
        (full inside made other p) enough =
      let d₁ = record d { error = success } in
      let (d', ends, good, t) =
        find_place-IsTaken fuel k sectors (cursor + sectors) at path part child
          (catalog_at d.sectors cursor) d₁ (IsReady-with dev fs d d.sectors w) (omega arith) p
          (omega arith) in
      (
        d',
        rw
            (
              io_drv_input_ready dev fs.catalog cursor tmp d (w.reads_ok cursor),
              lt→ltb _ _ inside,
              made,
              other,
            )
            ends,
        good,
        t,
      )

  never_valid : (size : ℕ) → is_valid_size size 0 ≡ false
  unfolding is_valid_size
  never_valid size = ground arith

  size_zero :
      (is_rsrc : Bool) (c : Catalog)
      → c.data_fork_size ≡ 0
      → c.resource_fork_size ≡ 0
      → fork_size is_rsrc c ≡ 0
  size_zero true c p q = q
  size_zero false c p q = p

  -- No byte can be written to a catalog that `CreateCatalog` has placed: the sizes of its forks
  -- are 0, no operation changes them, and `WriteCatalog` refuses every size above them.
  pub placed-write_in_fails :
      (fuel at sectors : ℕ) (part junk : Root) (child : Catalog) (m m' : ℕ → S) (is_rsrc : Bool)
      (buf : ℕ → ℕ) (size : ℕ) (fork_name catalog_name : Name) (d : Drive S)
      → IsTaken m m' at sectors part child
      → child.data_fork_size ≡ 0
      → child.resource_fork_size ≡ 0
      → write_in dev fs fuel is_rsrc buf size fork_name catalog_name junk
          (some (catalog_at m' at))
          d
        ≡ some (false, d)
  placed-write_in_fails fuel at sectors part junk child m m' is_rsrc buf size fork_name catalog_name
        d t no_data no_rsrc =
      let none_left = ap (fork_size is_rsrc) t.stored ∙ size_zero is_rsrc child no_data no_rsrc in
      rw (none_left, never_valid size) refl
