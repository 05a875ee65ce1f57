-- ===== src/Hefs/Folders/Vacant.antt =====
-- The loop of `hefsi_update_ind_status` of private/minkernel/src/FS/OpenHeFS+FileSystemParser.cpp,
-- up to the first blank node.
use nekrnl.Prelude.{
  ℕ, zero, suc, ◌+◌, ◌≤◌, ◌<◌, ◌≡◌, inl, inr, refl, ap, ◌∙◌, Bool, true, false, ◌||◌, ◌==◌, some,
  replicate, arith, ◌^◌, add64, Bool-cases,
}
use nekrnl.Drive.{Drive, Device, success}
use nekrnl.Drive.Mount.{io_drv_input_ready}
use nekrnl.Hefs.{Boot, Directory, Volume, node_sz}
use nekrnl.Hefs.Region.{directory_at, Directories, found, past}
use nekrnl.Hefs.Folders.{
  is_unused, new_directory, with_child, find_child, child_for, put_directory, take_node,
  update_ind_from,
}
use nekrnl.Hefs.Passes.{goes_on, same_step}

not_zero : (n : ℕ) → 0 < n → (n == 0) ≡ false
not_zero n h = ground arith

or_blank : (b : Bool) → (b || true) ≡ true
or_blank true = refl
or_blank false = refl

module _ {S : Type 0} (dev : Device) (vol : Volume S) where
  -- From `cursor` on, the first blank node is at `at`, `k` nodes away; the nodes before it are in
  -- use by directories of other hashes, and all lie below `end`.
  pub data Vacant (m : ℕ → S) (hash end : ℕ) : ℕ → ℕ → ℕ → Type 0 where
    blank :
        {at : ℕ}
        → at < end
        → ((directory_at dev vol m at).hash_path == 0) ≡ true
        → Vacant m hash end zero at at
    occupied :
        {k cursor at : ℕ}
        → cursor + node_sz < end
        → is_unused (directory_at dev vol m cursor) ≡ false
        → ((directory_at dev vol m cursor).hash_path == 0) ≡ false
        → (hash == (directory_at dev vol m cursor).hash_path) ≡ false
        → Vacant m hash end k (cursor + node_sz) at
        → Vacant m hash end (suc k) cursor at

  -- On a blank node the search for a child ends at once.
  find_child_blank :
      (fuel : ℕ) (boot : Boot) (x tmp : Directory) (child : ℕ) (d : Drive S)
      → dev.reads child ≡ true
      → (x.hash_path == 0) ≡ true
      → find_child dev vol (suc fuel) boot x child tmp d
        ≡ some (child, record d { error = success })
  unfolding find_child
  find_child_blank fuel boot x tmp child d ok empty =
      rw
        (
          io_drv_input_ready dev vol.directory child tmp d ok,
          empty,
          or_true (is_unused (directory_at dev vol d.sectors child)),
        )
        refl
    where
      or_true : (b : Bool) → (b || true) ≡ true
      or_true true = refl
      or_true false = refl

  abbrev pub read_ok : Drive S → Drive S
  read_ok d = record d { error = success }

  -- The node that is written: its hash and its slices are those of the new directory.
  child_for_blank :
      (fuel : ℕ) (boot : Boot) (x new tmp : Directory) (d : Drive S)
      → ((i : ℕ) → dev.reads i ≡ true)
      → (x.hash_path == 0) ≡ true
      → (n : Directory) × (child_for dev vol (suc fuel) boot x new tmp (read_ok d)
          ≡ some (n, read_ok d))
        × (n.hash_path ≡ new.hash_path)
        × (n.slices ≡ new.slices)
  child_for_blank fuel boot x new tmp d ok empty = elim (Bool-cases (x.child == 0)) [
    | inl e ↦ (
      with_child boot (add64 x.next node_sz) new,
      rw
          (
            e,
            find_child_blank fuel boot x tmp (add64 x.next node_sz) (read_ok d)
                (ok (add64 x.next node_sz)) empty,
          )
          refl,
      refl,
      refl,
    )
    | inr e ↦ (new, rw e refl, refl, refl)
  ]

  pub vacant_le :
      (m : ℕ → S) (hash end k cursor at : ℕ)
      → Vacant m hash end k cursor at
      → (cursor ≤ at) × (at < end)
  vacant_le m hash end zero cursor at (blank inside empty) = (omega arith, inside)
  vacant_le m hash end (suc k) cursor at (occupied inside live full other p) =
      let (behind, last) = vacant_le m hash end k (cursor + node_sz) at p in (omega arith, last)

  -- The nodes before the place stay, so the way to it does.
  pub vacant-Directories :
      (m m' : ℕ → S) (hash end k cursor at : ℕ)
      → Vacant m hash end k cursor at
      → (hash == (directory_at dev vol m' at).hash_path) ≡ true
      → ((y : ℕ) → cursor ≤ y → y < at → directory_at dev vol m' y ≡ directory_at dev vol m y)
      → Directories dev vol m' hash end k cursor at
  vacant-Directories m m' hash end zero cursor at (blank inside empty) hit kept = found inside hit
  vacant-Directories m m' hash end (suc k) cursor at (occupied inside live full other p) hit kept =
      let (behind, last) = vacant_le m hash end k (cursor + node_sz) at p in
      let same = kept cursor (omega arith) (omega arith) in
      past inside (ap (λ x. hash == x.hash_path) same ∙ other)
        (ap (λ x. x.hash_path == 0) same ∙ full)
        (vacant-Directories m m' hash end k (cursor + node_sz) at p hit
          (λ y a b. kept y (omega arith) b))

  at_blank :
      (fuel hash flags start prev : ℕ) (boot : Boot) (dir tmp : Directory) (d : Drive S)
      → dev.reads start ≡ true
      → (start == 0) ≡ false
      → ((directory_at dev vol d.sectors start).hash_path == 0) ≡ true
      → update_ind_from dev vol (suc fuel) false boot hash flags start prev dir tmp d
        ≡ take_node dev vol fuel false boot hash flags start
            (directory_at dev vol d.sectors start)
            tmp
            (read_ok d)
  unfolding update_ind_from
  at_blank fuel hash flags start prev boot dir tmp d ok nz empty =
      rw
        (
          nz,
          io_drv_input_ready dev vol.directory start dir d ok,
          empty,
          or_blank (is_unused (directory_at dev vol d.sectors start)),
        )
        refl

  at_occupied :
      (fuel hash flags start prev : ℕ) (boot : Boot) (dir tmp : Directory) (d : Drive S)
      → dev.reads start ≡ true
      → (start == 0) ≡ false
      → boot.end_ind < 2 ^ 64
      → start + node_sz < boot.end_ind
      → is_unused (directory_at dev vol d.sectors start) ≡ false
      → ((directory_at dev vol d.sectors start).hash_path == 0) ≡ false
      → update_ind_from dev vol (suc fuel) false boot hash flags start prev dir tmp d
        ≡ update_ind_from dev vol fuel false boot hash flags
            (start + node_sz)
            start
            (directory_at dev vol d.sectors start)
            tmp
            (read_ok d)
  unfolding update_ind_from
  at_occupied fuel hash flags start prev boot dir tmp d ok nz small inside live full =
      rw
        (
          nz,
          io_drv_input_ready dev vol.directory start dir d ok,
          live,
          full,
          same_step start boot.end_ind inside small,
          goes_on start boot.end_ind inside,
        )
        refl

  pub update_ind_from-put_directory :
      (fuel k hash flags start at prev : ℕ) (boot : Boot) (dir tmp : Directory) (d : Drive S)
      → ((i : ℕ) → dev.reads i ≡ true)
      → boot.end_ind < 2 ^ 64
      → 0 < start
      → Vacant d.sectors hash boot.end_ind k start at
      → k + 1 < fuel
      → (n : Directory) × (update_ind_from dev vol fuel false boot hash flags start prev dir tmp d
          ≡ some (put_directory dev vol false boot at n (read_ok d)))
        × (n.hash_path ≡ hash)
        × (n.slices ≡ replicate 16 0)
  update_ind_from-put_directory zero k hash flags start at prev boot dir tmp d ok small first p
        enough =
      absurd (omega arith)
  update_ind_from-put_directory (suc zero) zero hash flags start at prev boot dir tmp d ok small
        first (blank inside empty) enough =
      absurd (omega arith)
  update_ind_from-put_directory (suc (suc fuel)) zero hash flags start at prev boot dir tmp d ok
        small first (blank inside empty) enough =
      let x = directory_at dev vol d.sectors start in
      let (n, ends, same, free) =
        child_for_blank fuel boot x (new_directory false boot hash flags x) tmp d ok empty in
      (
        n,
        at_blank (suc fuel) hash flags start prev boot dir tmp d (ok start) (not_zero start first)
              empty
            ∙ rw ends refl,
        same,
        free,
      )
  update_ind_from-put_directory (suc fuel) (suc k) hash flags start at prev boot dir tmp d ok small
        first (occupied inside live full other p) enough =
      let x = directory_at dev vol d.sectors start in
      let (n, ends, same, free) =
        update_ind_from-put_directory fuel k hash flags (start + node_sz) at start boot x tmp
          (read_ok d) ok small (omega arith) p (omega arith) in
      (
        n,
        at_occupied fuel hash flags start prev boot dir tmp d (ok start) (not_zero start first)
              small inside live full
            ∙ ends,
        same,
        free,
      )
