-- ===== src/Nefs/Siblings/Roundtrip.antt =====
-- What `CreateFork` of private/minkernel/src/FS/NeFS+FileSystemParser.cpp adds, `ReadCatalog`
-- finds.
use nekrnl.Prelude.{
  ℕ, zero, suc, ◌≤◌, ◌<◌, ◌≡◌, refl, ◌∙◌, true, false, ltb, ◌==◌, some, [], ◌∷◌, arith, inl, ==_iff,
}
use nekrnl.Drive.{Drive, Device, success}
use nekrnl.Drive.Mount.{io_drv_input_ready}
use nekrnl.Nefs.{
  Name, Fork, Catalog, Disk, blank_fork, same_name, is_empty, catalog_start, get_catalog,
}
use nekrnl.Nefs.Forks.{linked, is_fork, create_fork, read_from}
use nekrnl.Nefs.Siblings.{IsReady, Chain, free, taken, IsLinked, fork_at, create_fork_from-IsLinked}

pub same_name_refl : (xs : Name) → same_name xs xs ≡ true
unfolding same_name
same_name_refl [] = refl
same_name_refl (x ∷ xs) = rw (same_name_refl xs, (==_iff x x).1 refl) refl

module _ {S : Type 0} (dev : Device) (fs : Disk S) where
  inside_of : (lba : ℕ) → catalog_start ≤ lba → ltb lba catalog_start ≡ false
  inside_of lba h = ground arith

  -- The two ways a round of the search goes.
  read_hit :
      (fuel lba : ℕ) (c : Catalog) (name : Name) (cur f : Fork) (d : Drive S)
      → dev.reads lba ≡ true
      → catalog_start ≤ lba
      → fork_at dev fs d.sectors lba ≡ f
      → is_fork name c.name f ≡ true
      → read_from dev fs (suc fuel) c name lba cur d ≡ some (some f, record d { error = success })
  unfolding read_from
  read_hit fuel lba c name cur f d ok low e hit =
      rw (io_drv_input_ready dev fs.fork lba cur d ok, inside_of lba low, e, hit) refl

  read_pass :
      (fuel lba : ℕ) (c : Catalog) (name : Name) (cur f : Fork) (d : Drive S)
      → dev.reads lba ≡ true
      → catalog_start ≤ lba
      → fork_at dev fs d.sectors lba ≡ f
      → is_fork name c.name f ≡ false
      → read_from dev fs (suc fuel) c name lba cur d
        ≡ read_from dev fs fuel c name f.next_sibling f (record d { error = success })
  unfolding read_from
  read_pass fuel lba c name cur f d ok low e miss =
      rw (io_drv_input_ready dev fs.fork lba cur d ok, inside_of lba low, e, miss) refl

  linked-is_fork :
      (lba before : ℕ) (c : Catalog) (f : Fork)
      → c.name ≡ f.catalog_name
      → is_fork f.fork_name c.name (linked lba before f) ≡ true
  linked-is_fork lba before c f e =
      rw (e, same_name_refl f.fork_name, same_name_refl f.catalog_name) refl

  read_linked :
      (fuel k lba at : ℕ) (c : Catalog) (cur f : Fork) (m : ℕ → S) (d : Drive S)
      → ((x : ℕ) → dev.reads x ≡ true)
      → c.name ≡ f.catalog_name
      → Chain dev fs m f.fork_name f.catalog_name k lba at
      → (l : IsLinked dev fs m d.sectors at f) → k < fuel
      → read_from dev fs fuel c f.fork_name lba cur d
        ≡ some (some (linked at l.before f), record d { error = success })
  read_linked zero k lba at c cur f m d ok e chain l enough = absurd (omega arith)
  read_linked (suc fuel) zero lba at c cur f m d ok e (free low clear) l enough =
      read_hit fuel lba c f.fork_name cur (linked lba l.before f) d (ok lba) low l.placed
        (linked-is_fork lba l.before c f e)
  read_linked (suc fuel) (suc k) lba at c cur f m d ok e (taken low made other chain) l enough =
      let x = fork_at dev fs m lba in
      read_pass fuel lba c f.fork_name cur x d (ok lba) low (l.kept lba made) (rw e other)
      ∙ read_linked fuel k x.next_sibling at c x f m (record d { error = success }) ok e chain
          (record { before = l.before; placed = l.placed; kept = l.kept }) (omega arith)

  pub create_fork-read_from :
      (fuel k at : ℕ) (c : Catalog) (cur f : Fork) (d d₁ : Drive S)
      → is_empty f.fork_name ≡ false
      → is_empty f.catalog_name ≡ false
      → (f.data_size == 0) ≡ false
      → get_catalog dev fs fuel f.catalog_name d ≡ some (some c, d₁)
      → c.name ≡ f.catalog_name
      → IsReady dev fs d₁
      → Chain dev fs d₁.sectors f.fork_name f.catalog_name k c.data_fork at
      → k < fuel
      → (d' : Drive S) × (before : ℕ) × (create_fork dev fs fuel f d ≡ some (true, d'))
        × (read_from dev fs fuel c f.fork_name c.data_fork cur d'
            ≡ some (some (linked at before f), record d' { error = success }))
  unfolding create_fork
  create_fork-read_from fuel k at c cur f d d₁ named in_catalog sized found e w chain enough =
      let low = chain_low k c.data_fork at chain in
      let (d', ends, bad, l) =
        create_fork_from-IsLinked dev fs fuel k c.data_fork c.data_fork at blank_fork blank_fork f
          d₁ w chain low (inl refl) enough in
      (
        d',
        l.before,
        rw (named, in_catalog, sized, found, inside_of c.data_fork low) ends,
        read_linked fuel k c.data_fork at c cur f d₁.sectors d' w.reads_ok e chain l enough,
      )
    where
      chain_low :
          (k lba at : ℕ)
          → Chain dev fs d₁.sectors f.fork_name f.catalog_name k lba at
          → catalog_start ≤ lba
      chain_low zero lba at (free low clear) = low
      chain_low (suc k) lba at (taken low made other chain) = low
