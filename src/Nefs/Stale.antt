-- ===== src/Nefs/Stale.antt =====
-- The state of the packet that `CreateFork` and `FindFork` of
-- private/minkernel/src/FS/NeFS+FileSystemParser.cpp leave, and the searches that follow.
use nekrnl.Prelude.{
  ℕ, zero, suc, ◌≡◌, refl, sym, subst, ap, ◌∙◌, Bool, true, false, not, ◌&&◌, ◌||◌, ltb, leb, ◌==◌,
  if◌then◌else◌, Option, none, some, inl, inr, Bool-cases, some_injective, none_not_some,
  true_not_false,
}
use nekrnl.Drive.{Drive, Device, io_drv_input, io_drv_output}
use nekrnl.Drive.Mount.{
  fs_ifs_read, fs_ifs_write, fs_ifs_read_fails, address_of, io_drv_input-good, io_drv_output-good,
  clear_good,
}
use nekrnl.Nefs.Path.{parent_name}
use nekrnl.Nefs.{
  Name, Fork, Catalog, Root, Disk, Lookup, blank_fork, blank_root, same_name, is_empty, is_created,
  missed, catalog_start, root_start, root_name, get_catalog, find_catalog, find_plain, scan_from,
  and_then, blank_catalog, search_parent, behind_parent,
}
use nekrnl.Nefs.Forks.{
  linked, is_fork, add_fork, append_fork, create_fork, create_fork_in, create_fork_from, find_fork,
  find_fork_from, first_fork,
}

module _ {S : Type 0} (dev : Device) (fs : Disk S) where
  add_fork-good :
      (lba before : ℕ) (f : Fork) (d : Drive S) → (add_fork dev fs lba before f d).1.good ≡ false
  unfolding add_fork fs_ifs_write address_of
  add_fork-good lba before f d =
      let put = fs.fork.save (linked lba before f) lba in
      let once = io_drv_output dev lba put d in
      elim (Bool-cases once.good) [
        | inl e ↦ rw e (io_drv_output-good dev fs.fork lba put (clear_good once) refl)
        | inr e ↦ rw e refl
      ]

  append_fork-good :
      (lba before : ℕ) (prev f : Fork) (d : Drive S)
      → (append_fork dev fs lba before prev f d).1.good ≡ false
  append_fork-good lba before prev f d = elim (Bool-cases (leb catalog_start lba)) [
    | inl e ↦ rw e (
        add_fork-good lba before f
          (io_drv_output dev before (fs.fork.save (record prev { next_sibling = lba }) before) d))
    | inr e ↦ rw e (add_fork-good lba before f d)
  ]

  abbrev BadFork : Option (Bool × Drive S) → Type 0
  BadFork o = (r : Bool × Drive S) → o ≡ some r → r.0 ≡ true → r.1.good ≡ false

  ends_bad : (x : Bool × Drive S) → x.1.good ≡ false → BadFork (some x)
  ends_bad x bad r e h = subst (λ r. r.1.good ≡ false) (some_injective x r e) bad

  refused_bad : (d : Drive S) → BadFork (some (false, d))
  refused_bad d r e h =
      absurd (true_not_false (sym h ∙ sym (ap (λ r. r.0) (some_injective (false, d) r e))))

  choose_bad :
      (b : Bool) (x y : Option (Bool × Drive S))
      → BadFork x
      → BadFork y
      → BadFork (if b then x else y)
  choose_bad true x y p q = p
  choose_bad false x y p q = q

  create_fork_from-bad :
      (fuel lba before : ℕ) (prev cur f : Fork) (d : Drive S)
      → BadFork (create_fork_from dev fs fuel lba before prev cur f d)
  unfolding create_fork_from
  create_fork_from-bad zero lba before prev cur f d = λ r e h. absurd (none_not_some r e)
  create_fork_from-bad (suc fuel) lba before prev cur f d =
      let (c, d') = io_drv_input dev fs.fork lba cur d in
      choose_bad (not d'.good) _ _ (refused_bad d') (
        choose_bad (is_created c.flags) _ _
          (choose_bad (is_fork f.fork_name f.catalog_name c) _ _
            (ends_bad (add_fork dev fs lba before f d') (add_fork-good lba before f d'))
            (create_fork_from-bad fuel c.next_sibling lba c c f d'))
          (ends_bad (append_fork dev fs lba before prev f d')
            (append_fork-good lba before prev f d')))

  create_fork_in-bad :
      (fuel : ℕ) (f : Fork) (c : Option Catalog) (d : Drive S)
      → BadFork (create_fork_in dev fs fuel f c d)
  create_fork_in-bad fuel f none d = refused_bad d
  create_fork_in-bad fuel f (some c) d =
      choose_bad (ltb c.data_fork catalog_start) _ _ (refused_bad d)
        (create_fork_from-bad fuel c.data_fork c.data_fork blank_fork blank_fork f d)

  then_bad :
      (fuel : ℕ) (f : Fork) (o : Option (Option Catalog × Drive S))
      → BadFork (and_then o (λ (c, d). create_fork_in dev fs fuel f c d))
  then_bad fuel f none = λ r e h. absurd (none_not_some r e)
  then_bad fuel f (some (c, d)) = create_fork_in-bad fuel f c d

  create_fork-bad : (fuel : ℕ) (f : Fork) (d : Drive S) → BadFork (create_fork dev fs fuel f d)
  unfolding create_fork
  create_fork-bad fuel f d =
      choose_bad (is_empty f.fork_name || is_empty f.catalog_name || f.data_size == 0) _ _
        (refused_bad d) (then_bad fuel f (get_catalog dev fs fuel f.catalog_name d))

  -- A search with a bad packet reads nothing.
  scan_from-bad :
      (fuel : ℕ) (hidden : Bool) (path : Name) (part : Root) (out cursor : ℕ) (tmp : Catalog)
      (d : Drive S)
      → d.good ≡ false
      → scan_from dev fs (suc fuel) hidden path part out cursor tmp d ≡ some (missed out d)
  unfolding scan_from
  scan_from-bad fuel hidden path part out cursor tmp d bad =
      elim (Bool-cases (ltb cursor part.start_catalog)) [
        | inl e ↦ rw e refl
        | inr e ↦ rw (e, bad) refl
      ]

  -- The search ends, finds nothing, and leaves the packet bad.
  abbrev Misses : Option (Lookup S) → Type 0
  Misses s = (r : Lookup S) × (s ≡ some r) × (r.found ≡ none) × (r.drive.good ≡ false)

  scan_from-Misses :
      (fuel : ℕ) (hidden : Bool) (path : Name) (part : Root) (out cursor : ℕ) (tmp : Catalog)
      (d : Drive S)
      → d.good ≡ false
      → Misses (scan_from dev fs (suc fuel) hidden path part out cursor tmp d)
  scan_from-Misses fuel hidden path part out cursor tmp d bad =
      (missed out d, scan_from-bad fuel hidden path part out cursor tmp d bad, refl, bad)

  choose-Misses :
      (b : Bool) (x y : Option (Lookup S)) → Misses x → Misses y → Misses (if b then x else y)
  choose-Misses true x y p q = p
  choose-Misses false x y p q = q

  find_plain-Misses :
      (fuel : ℕ) (hidden : Bool) (path : Name) (out : ℕ) (d : Drive S)
      → d.good ≡ false
      → Misses (find_plain dev fs (suc fuel) hidden path out d)
  unfolding find_plain
  find_plain-Misses fuel hidden path out d bad =
      let (part, d') = io_drv_input dev fs.root root_start blank_root d in
      choose-Misses (is_empty path) _ _ (missed out d, refl, refl, bad)
        (scan_from-Misses fuel hidden path part out part.start_catalog blank_catalog d'
          (io_drv_input-good dev fs.root root_start blank_root d bad))

  behind_parent-Misses :
      (fuel : ℕ) (hidden : Bool) (path : Name) (part : Root) (o : Option (Lookup S))
      → Misses o
      → Misses (and_then o (λ r. behind_parent dev fs (suc fuel) hidden path part r.found r))
  behind_parent-Misses fuel hidden path part o (r, e, lost, bad) =
      rw (e, lost)
        (scan_from-Misses fuel hidden path part r.lba part.start_catalog blank_catalog r.drive bad)

  search_parent-Misses :
      (fuel : ℕ) (hidden : Bool) (path : Name) (part : Root) (parent : Option Name) (out : ℕ)
      (d : Drive S)
      → d.good ≡ false
      → Misses (search_parent dev fs (suc fuel) hidden path part parent out d)
  search_parent-Misses fuel hidden path part none out d bad = (missed out d, refl, refl, bad)
  search_parent-Misses fuel hidden path part (some parent) out d bad =
      behind_parent-Misses fuel hidden path part _ (find_plain-Misses fuel hidden parent out d bad)

  find_catalog-Misses :
      (fuel : ℕ) (hidden near : Bool) (path : Name) (out : ℕ) (d : Drive S)
      → d.good ≡ false
      → Misses (find_catalog dev fs (suc fuel) hidden near path out d)
  unfolding find_catalog
  find_catalog-Misses fuel hidden near path out d bad =
      let (part, d') = io_drv_input dev fs.root root_start blank_root d in
      let bad' = io_drv_input-good dev fs.root root_start blank_root d bad in
      choose-Misses (is_empty path) _ _ (missed out d, refl, refl, bad)
        (choose-Misses (near && not (same_name path root_name)) _ _
          (search_parent-Misses fuel hidden path part (parent_name path) out d' bad')
          (scan_from-Misses fuel hidden path part out part.start_catalog blank_catalog d' bad'))

  -- When `CreateFork` reports success, the packet is bad, and the next `GetCatalog` finds no
  -- catalog, whatever the path and the disk, and leaves the packet bad.
  pub create_fork-get_catalog_fails :
      (fuel more : ℕ) (f : Fork) (path : Name) (d d' : Drive S)
      → create_fork dev fs fuel f d ≡ some (true, d')
      → (d'' : Drive S) × (get_catalog dev fs (suc more) path d' ≡ some (none, d''))
        × (d''.good ≡ false)
  unfolding get_catalog
  create_fork-get_catalog_fails fuel more f path d d' e =
      let (r, found, lost, bad) =
        find_catalog-Misses more true true path 0 d' (create_fork-bad fuel f d (true, d') e refl) in
      (r.drive, rw (found, lost) refl, bad)

  find_fork_from-fails :
      (fuel index : ℕ) (c : Catalog) (name : Name) (lba : ℕ) (buf : Fork) (d : Drive S)
      → (d' : Drive S) × (find_fork_from dev fs (suc fuel) index c name lba buf d ≡ some (none, d'))
  unfolding find_fork_from
  find_fork_from-fails fuel index c name lba buf d = elim (Bool-cases (ltb lba catalog_start)) [
    | inl e ↦ (d, rw e refl)
    | inr e ↦ (
      (fs_ifs_read (some (λ letter. io_drv_input dev fs.fork lba buf)) index buf d).1.1,
      rw (e, (fs_ifs_read_fails dev fs.fork index lba buf d).0) refl,
    )
  ]

  -- `FindFork` finds no fork, whatever the disk holds.
  pub find_fork_fails :
      (fuel index : ℕ) (c : Option Catalog) (name : Name) (is_data : Bool) (d : Drive S)
      → (d' : Drive S) × (find_fork dev fs (suc fuel) index c name is_data d ≡ some (none, d'))
  unfolding find_fork
  find_fork_fails fuel index none name is_data d = (d, refl)
  find_fork_fails fuel index (some c) name is_data d =
      find_fork_from-fails fuel index c name (first_fork (not is_data) c) blank_fork d
