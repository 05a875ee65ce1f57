-- ===== src/Paging/Mapping.antt =====
-- Mapping, looking up and unmapping a page: private/minkernel/HALKit/AMD64/HalPagingMgr.cpp.
use nekrnl.Prelude.{
  ℕ, ◌+◌, ◌*◌, ◌/◌, ◌%◌, ◌<◌, ◌^◌, ◌≡◌, ◌≢◌, refl, ap, ◌∙◌, true, false, not, ◌==◌, store,
  store_self, page_size, arith,
}
use nekrnl.Pmm.{Frames}
use nekrnl.Paging.{
  bit, is_present, entry_at, leaf_base, read_page, get_page_addr, make_pte, map_page_in, unmap_page,
}
use nekrnl.Paging.Walk.{
  HasTables, walked, walk_page-HasTables, walked-HasTables, store-HasTables, walked-slot,
}

-- The lookup goes to the page's entry.
get_page_addr-HasTables :
    (root virt t3 t2 t1 : ℕ) (mem : ℕ → ℕ)
    → HasTables root virt t3 t2 t1 mem
    → get_page_addr mem root virt ≡ read_page mem t1 virt
unfolding get_page_addr
get_page_addr-HasTables root virt t3 t2 t1 mem has =
    rw
      (
        has.to_t3.present, has.to_t3.table_eq, has.to_t2.present, has.to_t2.small,
        has.to_t2.table_eq, has.to_t1.present, has.to_t1.small, has.to_t1.table_eq,
      )
      refl

pte-present : (phys flags : ℕ) → bit 1 flags ≡ 1 → is_present (make_pte phys flags) ≡ true
unfolding make_pte
pte-present phys flags p = present (make_low flags) (phys / 2 ^ 12 % 2 ^ 40) (bit 4 flags) p
  where
    make_low : ℕ → ℕ
    make_low f = f

    present :
        (f page nx : ℕ)
        → bit 1 f ≡ 1
        → is_present (
            bit 1 f
            + bit 2 f * 2
            + bit 3 f * 4
            + bit 6 f * 8
            + bit 5 f * 16
            + page * 2 ^ 12
            + nx * 2 ^ 63)
          ≡ true
    present f page nx h = ground arith

pte-base :
    (phys flags : ℕ)
    → phys % page_size ≡ 0
    → phys < 2 ^ 52
    → leaf_base 12 (make_pte phys flags) ≡ phys
unfolding make_pte
pte-base phys flags aligned small =
    base (bit 1 flags) (bit 2 flags) (bit 3 flags) (bit 6 flags) (bit 5 flags) (bit 4 flags)
      (omega arith) (omega arith) (omega arith) (omega arith) (omega arith)
  where
    base :
        (a b c d e n : ℕ)
        → a < 2
        → b < 2
        → c < 2
        → d < 2
        → e < 2
        → leaf_base 12
            (a + b * 2 + c * 4 + d * 8 + e * 16 + phys / 2 ^ 12 % 2 ^ 40 * 2 ^ 12 + n * 2 ^ 63)
          ≡ phys
    base a b c d e n ha hb hc hd he = omega arith

-- The memory after `mm_map_page_in`.
abbrev mapped : ℕ → ℕ → ℕ → ℕ → ℕ → ℕ → ℕ → (ℕ → ℕ) → ℕ → ℕ
mapped root virt phys flags t3 t2 t1 mem =
    store (walked root virt t3 t2 mem) (entry_at t1 virt 12) (make_pte phys flags)

map_page_in-HasTables :
    (root virt phys flags t3 t2 t1 : ℕ) (s : Frames)
    → HasTables root virt t3 t2 t1 s.mem
    → phys ≢ 0
    → phys % page_size ≡ 0
    → map_page_in root virt phys flags s
      ≡ (true, record s { mem = mapped root virt phys flags t3 t2 t1 s.mem })
unfolding map_page_in
map_page_in-HasTables root virt phys flags t3 t2 t1 s has pos aligned =
    rw
      (
        (tests phys pos aligned).0,
        (tests phys pos aligned).1,
        walk_page-HasTables true root virt t3 t2 t1 s has,
      )
      refl
  where
    tests :
        (p : ℕ)
        → p ≢ 0
        → p % page_size ≡ 0
        → ((p == 0) ≡ false) × (not (p % page_size == 0) ≡ false)
    tests p n a = (ground arith, ground arith)

mapped-HasTables :
    (root virt phys flags t3 t2 t1 : ℕ) (mem : ℕ → ℕ)
    → HasTables root virt t3 t2 t1 mem
    → HasTables root virt t3 t2 t1 (mapped root virt phys flags t3 t2 t1 mem)
mapped-HasTables root virt phys flags t3 t2 t1 mem has =
    store-HasTables root virt t3 t2 t1 (make_pte phys flags) (walked root virt t3 t2 mem)
      (walked-HasTables root virt t3 t2 t1 mem has)

-- When the three tables on the way to a page are there, in four entries that differ, mapping it to
-- a page-aligned address other than 0 and below 2 ^ 52 with the present flag succeeds, and the
-- lookup of the virtual address then gives that address plus the offset in the page.
pub map_page_in-get_page_addr :
    (root virt phys flags t3 t2 t1 : ℕ) (s : Frames)
    → HasTables root virt t3 t2 t1 s.mem
    → phys ≢ 0
    → phys % page_size ≡ 0
    → phys < 2 ^ 52
    → bit 1 flags ≡ 1
    → ((map_page_in root virt phys flags s).0 ≡ true)
      × (get_page_addr (map_page_in root virt phys flags s).1.mem root virt
          ≡ phys + virt % page_size)
map_page_in-get_page_addr root virt phys flags t3 t2 t1 s has pos aligned small shown =
    rw (map_page_in-HasTables root virt phys flags t3 t2 t1 s has pos aligned) (
      refl,
      get_page_addr-HasTables root virt t3 t2 t1 (mapped root virt phys flags t3 t2 t1 s.mem)
            (mapped-HasTables root virt phys flags t3 t2 t1 s.mem has)
          ∙ rw
              (
                store_self (walked root virt t3 t2 s.mem) (entry_at t1 virt 12)
                    (make_pte phys flags),
                pte-present phys flags shown,
                pte-base phys flags aligned small,
              )
              refl,
    )

unmap_page-HasTables :
    (root virt t3 t2 t1 : ℕ) (s : Frames)
    → HasTables root virt t3 t2 t1 s.mem
    → is_present (s.mem (entry_at t1 virt 12)) ≡ true
    → unmap_page root virt s ≡ (
      leaf_base 12 (s.mem (entry_at t1 virt 12)),
      record s { mem = store (walked root virt t3 t2 s.mem) (entry_at t1 virt 12) 0 },
    )
unfolding unmap_page
unmap_page-HasTables root virt t3 t2 t1 s has shown =
    rw (walk_page-HasTables false root virt t3 t2 t1 s has)
      (rw (walked-slot root virt t3 t2 t1 s.mem has, shown) refl)

-- A page that is mapped so and then unmapped: unmapping returns the address it was mapped to, and
-- the lookup then finds nothing.
pub map_page_in-unmap_page :
    (root virt phys flags t3 t2 t1 : ℕ) (s : Frames)
    → HasTables root virt t3 t2 t1 s.mem
    → phys ≢ 0
    → phys % page_size ≡ 0
    → phys < 2 ^ 52
    → bit 1 flags ≡ 1
    → ((unmap_page root virt (map_page_in root virt phys flags s).1).0 ≡ phys)
      × (get_page_addr (unmap_page root virt (map_page_in root virt phys flags s).1).1.mem root virt
          ≡ 0)
map_page_in-unmap_page root virt phys flags t3 t2 t1 s has pos aligned small shown =
    let there = mapped-HasTables root virt phys flags t3 t2 t1 s.mem has in
    let entry =
      store_self (walked root virt t3 t2 s.mem) (entry_at t1 virt 12) (make_pte phys flags) in
    rw
      (
        map_page_in-HasTables root virt phys flags t3 t2 t1 s has pos aligned,
        unmap_page-HasTables root virt t3 t2 t1
            (record s { mem = mapped root virt phys flags t3 t2 t1 s.mem }) there
            (ap is_present entry ∙ pte-present phys flags shown),
      )
      (
        ap (leaf_base 12) entry ∙ pte-base phys flags aligned small,
        get_page_addr-HasTables root virt t3 t2 t1
              (store (walked root virt t3 t2 (mapped root virt phys flags t3 t2 t1 s.mem))
                (entry_at t1 virt 12) 0)
              (store-HasTables root virt t3 t2 t1 0
                (walked root virt t3 t2 (mapped root virt phys flags t3 t2 t1 s.mem))
                (walked-HasTables root virt t3 t2 t1 (mapped root virt phys flags t3 t2 t1 s.mem)
                  there))
            ∙ rw
                (store_self (walked root virt t3 t2 (mapped root virt phys flags t3 t2 t1 s.mem))
                  (entry_at t1 virt 12) 0)
                refl,
      )
