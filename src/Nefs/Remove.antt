-- ===== src/Nefs/Remove.antt =====
-- What `RemoveCatalog` of private/minkernel/src/FS/NeFS+FileSystemParser.cpp does to a catalog, and
-- what `FindCatalog` makes of it.
use nekrnl.Prelude.{
  ℕ, zero, suc, ◌≤◌, ◌<◌, ◌≡◌, ◌⊎◌, refl, sym, subst, ap, ◌∙◌, true, ◌==◌, some, arith, inl, inr,
  Bool-cases,
}
use nekrnl.Drive.{Drive, Device, success}
use nekrnl.Drive.Layout.{Apart}
use nekrnl.Drive.Mount.{io_drv_input_ready, io_drv_output_ready}
use nekrnl.Nefs.{
  Name, Catalog, Root, Disk, blank_root, root_start, catalog_start, matches, is_created,
  mark_deleted, accept, scan_from, status_locked,
}
use nekrnl.Nefs.Bits.{is_created-mark_deleted}
use nekrnl.Nefs.Catalogs.{delete_catalog, uncount_catalog}
use nekrnl.Nefs.Scan.{Reaches, here, beyond, scan_from-accept}
use nekrnl.Nefs.Siblings.{IsReady, not_first}
use nekrnl.Nefs.Place.{
  catalog_at, root_of, root-save_catalog, catalog-save_root, catalog-save_catalog,
}

module _ {S : Type 0} (dev : Device) (fs : Disk S) where
  abbrev pub deleted : Catalog → Catalog
  deleted c = record c { flags = mark_deleted 16 c.flags }

  abbrev removed : ℕ → Catalog → (ℕ → S) → ℕ → S
  removed lba c m =
      fs.root.save (uncount_catalog (root_of dev fs m)) root_start
        (fs.catalog.save (deleted c) lba m)

  delete_catalog_ready :
      (lba : ℕ) (c : Catalog) (d : Drive S)
      → IsReady dev fs d
      → catalog_start ≤ lba
      → delete_catalog dev fs lba c d
        ≡ record d { error = success; sectors = removed lba c d.sectors }
  unfolding delete_catalog
  delete_catalog_ready lba c d w low =
      let d₁ = record d { error = success; sectors = fs.catalog.save (deleted c) lba d.sectors } in
      rw
        (
          io_drv_output_ready dev fs.catalog lba (fs.catalog.save (deleted c) lba) d
              (w.writes_ok lba) w.unlocked (not_first dev fs lba low),
          io_drv_input_ready dev fs.root root_start blank_root d₁ (w.reads_ok root_start),
          root-save_catalog dev fs (deleted c) lba d.sectors low,
          io_drv_output_ready dev fs.root root_start
              (fs.root.save (uncount_catalog (root_of dev fs d.sectors)) root_start) d₁
              (w.writes_ok root_start) w.unlocked refl,
        )
        refl

  -- Each catalog along the way lies at `lba` or apart from it.
  unfoldable pub AllApart :
      (m : ℕ → S) (start : ℕ) (path : Name) (lba : ℕ) (k cursor at : ℕ)
      → Reaches dev fs m start path k cursor at
      → Type 0
  AllApart m start path lba zero cursor at (here low hit) = (cursor ≡ lba) ⊎ Apart lba 2 cursor 2
  AllApart m start path lba (suc k) cursor at (beyond low miss r) =
      ((cursor ≡ lba) ⊎ Apart lba 2 cursor 2)
      × AllApart m start path lba k (catalog_at dev fs m cursor).next_sibling at r

  abbrev IsSameLink : Catalog → Catalog → Type 0
  IsSameLink c c' = (c'.name ≡ c.name) × (c'.next_sibling ≡ c.next_sibling)

  removed-at :
      (lba : ℕ) (c : Catalog) (m : ℕ → S)
      → catalog_start ≤ lba
      → catalog_at dev fs (removed lba c m) lba ≡ deleted c
  removed-at lba c m low =
      catalog-save_root dev fs (uncount_catalog (root_of dev fs m)) lba
        (fs.catalog.save (deleted c) lba m) low
      ∙ fs.catalog.load-save (deleted c) lba m

  removed-IsSameLink :
      (lba x : ℕ) (m : ℕ → S)
      → catalog_start ≤ x
      → (x ≡ lba) ⊎ Apart lba 2 x 2
      → IsSameLink
          (catalog_at dev fs m x)
          (catalog_at dev fs (removed lba (catalog_at dev fs m lba) m) x)
  removed-IsSameLink lba x m low (inl e) =
      let c = catalog_at dev fs m lba in
      let there =
        ap (catalog_at dev fs (removed lba c m)) e
        ∙ removed-at lba c m (subst (λ x. catalog_start ≤ x) e low) in
      (
        ap (λ c. c.name) there ∙ ap (λ x. (catalog_at dev fs m x).name) (sym e),
        ap (λ c. c.next_sibling) there ∙ ap (λ x. (catalog_at dev fs m x).next_sibling) (sym e),
      )
  removed-IsSameLink lba x m low (inr apart) =
      let c = catalog_at dev fs m lba in
      let kept =
        catalog-save_root dev fs (uncount_catalog (root_of dev fs m)) x
          (fs.catalog.save (deleted c) lba m) low
        ∙ catalog-save_catalog dev fs (deleted c) lba x m apart in
      (ap (λ c. c.name) kept, ap (λ c. c.next_sibling) kept)

  removed-Reaches :
      (start k cursor lba : ℕ) (path : Name) (m : ℕ → S)
      → catalog_start ≤ start
      → (r : Reaches dev fs m start path k cursor lba) → AllApart m start path lba k cursor lba r
      → Reaches dev fs (removed lba (catalog_at dev fs m lba) m) start path k cursor lba
  unfolding AllApart
  removed-Reaches start zero cursor lba path m low (here low' hit) apart =
      let (name, next) = removed-IsSameLink lba cursor m (omega arith) apart in
      here low' (ap (matches path) name ∙ hit)
  removed-Reaches start (suc k) cursor lba path m low (beyond low' miss r) (apart, rest) =
      let (name, next) = removed-IsSameLink lba cursor m (omega arith) apart in
      beyond low' (ap (matches path) name ∙ miss) (
        subst (λ n. Reaches dev fs (removed lba (catalog_at dev fs m lba) m) start path k n lba)
          (sym next)
          (removed-Reaches start k (catalog_at dev fs m cursor).next_sibling lba path m low r rest))

  pub accept_hidden :
      (out lba : ℕ) (c : Catalog) (d : Drive S)
      → is_created c.flags ≡ true
      → accept true out lba c d ≡ record { found = some c; lba = lba; drive = d }
  accept_hidden out lba c d made = elim (Bool-cases (c.status == status_locked)) [
    | inl e ↦ rw (e, made) refl
    | inr e ↦ rw (e, made) refl
  ]

  -- A catalog that `RemoveCatalog` has marked as deleted is still found by its path, in a search
  -- for which hidden catalogs count, and counts as created, while the partition block counts one
  -- catalog less: the search leads to it before the removal, it and the first catalog lie at or
  -- above the start address of catalogs, the catalogs on the way do not overlap it, and every
  -- transfer succeeds. The fuel is more than the catalogs before it.
  pub delete_catalog-scan_from :
      (fuel k cursor lba out : ℕ) (path : Name) (part : Root) (tmp : Catalog) (d : Drive S)
      → IsReady dev fs d
      → catalog_start ≤ part.start_catalog
      → (r : Reaches dev fs d.sectors part.start_catalog path k cursor lba)
      → AllApart d.sectors part.start_catalog path lba k cursor lba r
      → catalog_start ≤ lba
      → k < fuel
      → (d' : Drive S) × (scan_from dev fs fuel true path part out cursor tmp
            (delete_catalog dev fs lba (catalog_at dev fs d.sectors lba) d)
          ≡ some (record {
            found = some (deleted (catalog_at dev fs d.sectors lba));
            lba = lba;
            drive = d';
          }))
        × (is_created (deleted (catalog_at dev fs d.sectors lba)).flags ≡ true)
        × (root_of dev fs d'.sectors ≡ uncount_catalog (root_of dev fs d.sectors))
  delete_catalog-scan_from fuel k cursor lba out path part tmp d w low r apart low' enough =
      let c = catalog_at dev fs d.sectors lba in
      let after = record d { error = success; sectors = removed lba c d.sectors } in
      let made = is_created-mark_deleted 16 c.flags in
      (
        after,
        ap (scan_from dev fs fuel true path part out cursor tmp)
              (delete_catalog_ready lba c d w low')
            ∙ scan_from-accept dev fs fuel k true path part out cursor lba tmp after
                (record { reads_ok = w.reads_ok; good = w.good })
                (removed-Reaches part.start_catalog k cursor lba path d.sectors low r apart) enough
            ∙ ap (λ c. some (accept true out lba c after)) (removed-at lba c d.sectors low')
            ∙ ap some (accept_hidden out lba (deleted c) after made),
        made,
        fs.root.load-save (uncount_catalog (root_of dev fs d.sectors)) root_start
            (fs.catalog.save (deleted c) lba d.sectors),
      )
