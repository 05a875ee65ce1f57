-- ===== src/Nefs/Scan.antt =====
-- The search of `FindCatalog` of private/minkernel/src/FS/NeFS+FileSystemParser.cpp.
use nekrnl.Prelude.{
  ℕ, zero, suc, ◌≤◌, ◌<◌, ◌≡◌, refl, sym, subst, ap, ◌∙◌, Bool, true, false, not, ◌&&◌, ltb, ◌==◌,
  if◌then◌else◌, none, some, arith, Bool-cases, inl, inr, some_injective, none_not_some,
}
use nekrnl.Drive.{Drive, Device, success, file_locked, file_not_found}
use nekrnl.Drive.Mount.{io_drv_input_ready}
use nekrnl.Nefs.{
  Name, Catalog, Root, Disk, Lookup, matches, accept, missed, scan_from, is_created, status_locked,
}

module _ {S : Type 0} (dev : Device) (fs : Disk S) where
  -- Every read succeeds, and the packet is good.
  pub record IsReadable (d : Drive S) : Type 0 where
    pub reads_ok : (lba : ℕ) → dev.reads lba ≡ true
    pub good : d.good ≡ true

  -- Along the siblings from `cursor`, in the sectors `m`, the first catalog of the path's name is
  -- at `at`, `k` steps away; `start` is the first address of a catalog.
  pub data Reaches (m : ℕ → S) (start : ℕ) (path : Name) : ℕ → ℕ → ℕ → Type 0 where
    here :
        {at : ℕ}
        → start ≤ at
        → matches path (fs.catalog.load m at).name ≡ true
        → Reaches m start path zero at at
    beyond :
        {k cursor at : ℕ}
        → start ≤ cursor
        → matches path (fs.catalog.load m cursor).name ≡ false
        → Reaches m start path k (fs.catalog.load m cursor).next_sibling at
        → Reaches m start path (suc k) cursor at

  abbrev read_ok : Drive S → Drive S
  read_ok d = record d { error = success }

  still-IsReadable : (d : Drive S) → IsReadable d → IsReadable (read_ok d)
  still-IsReadable d w = record { reads_ok = w.reads_ok; good = w.good }

  -- The three ways a round of the loop goes.
  scan_hit :
      (fuel : ℕ) (hidden : Bool) (path : Name) (part : Root) (out cursor : ℕ) (tmp : Catalog)
      (d : Drive S)
      → IsReadable d
      → ltb cursor part.start_catalog ≡ false
      → matches path (fs.catalog.load d.sectors cursor).name ≡ true
      → scan_from dev fs (suc fuel) hidden path part out cursor tmp d
        ≡ some (accept hidden out cursor (fs.catalog.load d.sectors cursor) (read_ok d))
  unfolding scan_from
  scan_hit fuel hidden path part out cursor tmp d w inside hit =
      rw (io_drv_input_ready dev fs.catalog cursor tmp d (w.reads_ok cursor), inside, w.good, hit)
        refl

  scan_pass :
      (fuel : ℕ) (hidden : Bool) (path : Name) (part : Root) (out cursor : ℕ) (tmp : Catalog)
      (d : Drive S)
      → IsReadable d
      → ltb cursor part.start_catalog ≡ false
      → matches path (fs.catalog.load d.sectors cursor).name ≡ false
      → scan_from dev fs (suc fuel) hidden path part out cursor tmp d
        ≡ scan_from dev fs fuel hidden path part out
            (fs.catalog.load d.sectors cursor).next_sibling
            (fs.catalog.load d.sectors cursor)
            (read_ok d)
  unfolding scan_from
  scan_pass fuel hidden path part out cursor tmp d w inside miss =
      rw (io_drv_input_ready dev fs.catalog cursor tmp d (w.reads_ok cursor), inside, w.good, miss)
        refl

  scan_end :
      (fuel : ℕ) (hidden : Bool) (path : Name) (part : Root) (out cursor : ℕ) (tmp : Catalog)
      (d : Drive S)
      → ltb cursor part.start_catalog ≡ true
      → scan_from dev fs (suc fuel) hidden path part out cursor tmp d ≡ some (missed out d)
  unfolding scan_from
  scan_end fuel hidden path part out cursor tmp d outside = rw outside refl

  inside_of : (start cursor : ℕ) → start ≤ cursor → ltb cursor start ≡ false
  inside_of start cursor h = ground arith

  -- With more fuel than steps, the search ends at the first catalog of the name.
  pub scan_from-accept :
      (fuel k : ℕ) (hidden : Bool) (path : Name) (part : Root) (out cursor at : ℕ) (tmp : Catalog)
      (d : Drive S)
      → IsReadable d
      → Reaches d.sectors part.start_catalog path k cursor at
      → k < fuel
      → scan_from dev fs fuel hidden path part out cursor tmp d
        ≡ some (accept hidden out at (fs.catalog.load d.sectors at) (read_ok d))
  scan_from-accept zero k hidden path part out cursor at tmp d w r enough = absurd (omega arith)
  scan_from-accept (suc fuel) zero hidden path part out cursor at tmp d w (here low hit) enough =
      scan_hit fuel hidden path part out cursor tmp d w (inside_of part.start_catalog cursor low)
        hit
  scan_from-accept (suc fuel) (suc k) hidden path part out cursor at tmp d w (beyond low miss r)
        enough =
      scan_pass fuel hidden path part out cursor tmp d w (inside_of part.start_catalog cursor low)
        miss
      ∙ scan_from-accept fuel k hidden path part out (fs.catalog.load d.sectors cursor).next_sibling
          at (fs.catalog.load d.sectors cursor) (read_ok d) (still-IsReadable d w) r (omega arith)

  -- What a search answers when the first catalog of the path's name is `c`, at `at`: one that is
  -- locked is refused unless hidden catalogs are asked for, one that is not created is not found,
  -- any other is the answer, with its address.
  pub data Answered (hidden : Bool) (out at : ℕ) (c : Catalog) (d : Drive S)
      : Lookup S → Type 0 where
    refused :
        (c.status == status_locked && not hidden) ≡ true
        → Answered hidden out at c d
            (record { found = none; lba = out; drive = record d { error = file_locked } })
    missing :
        (c.status == status_locked && not hidden) ≡ false
        → is_created c.flags ≡ false
        → Answered hidden out at c d
            (record { found = none; lba = out; drive = record d { error = file_not_found } })
    answered :
        (c.status == status_locked && not hidden) ≡ false
        → is_created c.flags ≡ true
        → Answered hidden out at c d
            (record { found = some c; lba = at; drive = record d { error = success } })

  accept-Answered :
      (hidden : Bool) (out at : ℕ) (c : Catalog) (d : Drive S)
      → Answered hidden out at c d (accept hidden out at c (read_ok d))
  accept-Answered hidden out at c d = elim (Bool-cases (c.status == status_locked && not hidden)) [
    | inl e ↦ rw e (refused e)
    | inr e ↦ elim (Bool-cases (is_created c.flags)) [
      | inl made ↦ rw (e, made) (answered e made)
      | inr gone ↦ rw (e, gone) (missing e gone)
    ]
  ]

  -- The search finds what there is: when every read succeeds, the packet is good and the fuel is
  -- more than the steps to the first catalog of the path's name along the siblings, the search
  -- answers with that catalog and its address if it is created and not locked, or hidden ones are
  -- asked for; otherwise it finds none, with the error of a locked or of a missing file.
  pub scan_from_complete :
      (fuel k : ℕ) (hidden : Bool) (path : Name) (part : Root) (out cursor at : ℕ) (tmp : Catalog)
      (d : Drive S)
      → IsReadable d
      → Reaches d.sectors part.start_catalog path k cursor at
      → k < fuel
      → (r : Lookup S) × (scan_from dev fs fuel hidden path part out cursor tmp d ≡ some r)
        × Answered hidden out at (fs.catalog.load d.sectors at) d r
  scan_from_complete fuel k hidden path part out cursor at tmp d w r enough = (
    accept hidden out at (fs.catalog.load d.sectors at) (read_ok d),
    scan_from-accept fuel k hidden path part out cursor at tmp d w r enough,
    accept-Answered hidden out at (fs.catalog.load d.sectors at) d,
  )

  -- What a search that found a catalog says of it.
  pub record IsFound (m : ℕ → S) (hidden : Bool) (path : Name) (start cursor : ℕ) (r : Lookup S)
      (c : Catalog) : Type 0 where
    pub steps : ℕ
    pub reached : Reaches m start path steps cursor r.lba
    pub stored : c ≡ fs.catalog.load m r.lba
    pub created : is_created c.flags ≡ true
    pub visible : (c.status == status_locked && not hidden) ≡ false

  accept-found :
      (locked made : Bool) (a : Lookup S) (b : Lookup S) (cursor : ℕ) (c c' : Catalog) (d : Drive S)
      → a.found ≡ none
      → b.found ≡ none
      → (if locked
          then a
          else if not made
          then b
          else record { found = some c; lba = cursor; drive = d }).found
        ≡ some c'
      → (locked ≡ false)
        × (made ≡ true)
        × (c ≡ c')
        × ((if locked
              then a
              else if not made
              then b
              else record { found = some c; lba = cursor; drive = d }).lba
            ≡ cursor)
  accept-found true made a b cursor c c' d x y f = absurd (none_not_some c' (sym x ∙ f))
  accept-found false false a b cursor c c' d x y f = absurd (none_not_some c' (sym y ∙ f))
  accept-found false true a b cursor c c' d x y f = (refl, refl, some_injective c c' f, refl)

  accept-IsFound :
      (hidden : Bool) (path : Name) (start out cursor : ℕ) (d : Drive S) (m : ℕ → S) (c : Catalog)
      → start ≤ cursor
      → matches path (fs.catalog.load m cursor).name ≡ true
      → (accept hidden out cursor (fs.catalog.load m cursor) d).found ≡ some c
      → IsFound m hidden path start cursor (accept hidden out cursor (fs.catalog.load m cursor) d) c
  accept-IsFound hidden path start out cursor d m c low hit f =
      let at = fs.catalog.load m cursor in
      let (visible, made, same, place) =
        accept-found (at.status == status_locked && not hidden) (is_created at.flags)
          (missed out (record d { error = file_locked }))
          (missed out (record d { error = file_not_found })) cursor at c d refl refl f in
      record {
        steps = zero;
        reached = subst (Reaches m start path zero cursor) (sym place) (here low hit);
        stored = sym same ∙ ap (fs.catalog.load m) (sym place);
        created = subst (λ x. is_created x.flags ≡ true) same made;
        visible = subst (λ x. (x.status == status_locked && not hidden) ≡ false) same visible;
      }

  -- The search finds nothing else: when every read succeeds and the packet is good, what it
  -- returns is the first catalog of the path's name along the siblings, with the address where it lies, is created, and is not locked unless hidden
  -- catalogs are asked for.
  pub scan_from-IsFound :
      (fuel : ℕ) (hidden : Bool) (path : Name) (part : Root) (out cursor : ℕ) (tmp : Catalog)
      (d : Drive S) (r : Lookup S) (c : Catalog)
      → IsReadable d
      → scan_from dev fs fuel hidden path part out cursor tmp d ≡ some r
      → r.found ≡ some c
      → IsFound d.sectors hidden path part.start_catalog cursor r c
  unfolding scan_from
  scan_from-IsFound zero hidden path part out cursor tmp d r c w e f = absurd (none_not_some r e)
  scan_from-IsFound (suc fuel) hidden path part out cursor tmp d r c w e f =
      elim (Bool-cases (ltb cursor part.start_catalog)) [
        | inl outside ↦
            let last =
              some_injective (missed out d) r
                (sym (scan_end fuel hidden path part out cursor tmp d outside) ∙ e) in
            absurd (none_not_some c (ap (λ r. r.found) last ∙ f))
        | inr inside ↦ elim (Bool-cases (matches path (fs.catalog.load d.sectors cursor).name)) [
          | inl hit ↦
              let last =
                some_injective
                  (accept hidden out cursor (fs.catalog.load d.sectors cursor) (read_ok d)) r
                  (sym (scan_hit fuel hidden path part out cursor tmp d w inside hit) ∙ e) in
              subst (λ r. IsFound d.sectors hidden path part.start_catalog cursor r c) last
                (accept-IsFound hidden path part.start_catalog out cursor (read_ok d) d.sectors c
                  (low_of inside) hit (ap (λ r. r.found) last ∙ f))
          | inr miss ↦
              let rest =
                scan_from-IsFound fuel hidden path part out
                  (fs.catalog.load d.sectors cursor).next_sibling (fs.catalog.load d.sectors cursor)
                  (read_ok d) r c (still-IsReadable d w)
                  (sym (scan_pass fuel hidden path part out cursor tmp d w inside miss) ∙ e) f in
              record {
                steps = suc rest.steps;
                reached = beyond (low_of inside) miss rest.reached;
                stored = rest.stored;
                created = rest.created;
                visible = rest.visible;
              }
        ]
      ]
    where
      low_of : ltb cursor part.start_catalog ≡ false → part.start_catalog ≤ cursor
      low_of h = ground arith
