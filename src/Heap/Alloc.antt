-- ===== src/Heap/Alloc.antt =====
-- `mm_alloc_ptr` of private/minkernel/src/HeapMgr.cpp, and what `mm_free_ptr` makes of its result.
use nekrnl.Prelude.{
  ℕ, ◌+◌, ◌<◌, ◌≤◌, ◌^◌, ◌≡◌, ◌≢◌, refl, ap, sym, ◌∙◌, subst, Bool, true, false, ◌||◌, ◌==◌, ltb,
  leb, add64, sub64, store, arith, some,
}
use nekrnl.Heap.BitMap.{
  BitMaps, bit_map_magic, bit_map_sz, bit_map_max_sz, used_at, size_at, align, is_bit_map, mark,
  find_bit_map, alloc_bit_map, next_base,
}
use nekrnl.Heap.Mgr.{
  Heap, heap_magic, info_sz, hdr_sz, set_info, not_present, is_valid_ptr, request, alloc_ptr,
  fill_info, free_ptr,
}
use nekrnl.Heap.Find.{Walks, IsFree, find_bit_map-mark}

-- A request that the walk meets at the entry `stop`: `pad` is none.
pub record IsMet (k fuel sz stop : ℕ) (h : Heap) : Type 0 where
  pub sz_pos : 0 < sz
  pub sz_fits : sz + hdr_sz ≤ bit_map_max_sz
  pub walks : Walks h.bit_maps.words (sz + hdr_sz) k (add64 h.bit_maps.start h.bit_maps.cursor) stop
  pub free : IsFree h.bit_maps.words stop
  pub fuel_left : k < fuel
  pub in_range : stop + sz + 4096 < 2 ^ 64

-- The pointer that an entry gives.
abbrev pub pointer_of : ℕ → ℕ
pointer_of stop = stop + bit_map_sz + hdr_sz

page_fails : (p : ℕ) (s : BitMaps) → s.words p ≢ bit_map_magic → is_bit_map p s ≡ false
unfolding is_bit_map
page_fails p s n = ground arith

module _ (k fuel sz stop : ℕ) (wr user : Bool) (h : Heap) (met : IsMet k fuel sz stop h) where
  abbrev marked : BitMaps
  marked = mark stop (sz + hdr_sz) h.bit_maps

  abbrev at : ℕ
  at = stop + bit_map_sz + info_sz

  abbrev pub after_alloc : Heap
  after_alloc =
      set_info at (fill_info at (sz + hdr_sz) wr user 0 (h.infos at))
        (record h { bit_maps = marked })

  fix_eq : (s : ℕ) → s + hdr_sz ≤ bit_map_max_sz → add64 s hdr_sz ≡ s + hdr_sz
  fix_eq s l = omega arith

  total_eq : (s : ℕ) → s + hdr_sz ≤ bit_map_max_sz → add64 (s + hdr_sz) 0 ≡ s + hdr_sz
  total_eq s l = omega arith

  found : request fuel (sz + hdr_sz) 0 h.bit_maps ≡ some (stop + bit_map_sz, marked)
  unfolding request alloc_bit_map
  found =
      find_bit_map-mark k fuel (sz + hdr_sz) 0 stop h.bit_maps (omega arith) met.sz_fits
        (subst (λ t. Walks h.bit_maps.words t k (add64 h.bit_maps.start h.bit_maps.cursor) stop)
          (sym (total_eq sz met.sz_fits)) met.walks)
        met.free met.fuel_left
      ∙ rw (total_eq sz met.sz_fits)
          (ap (λ a. some (a, marked)) (address stop (omega (arith, met.in_range))))
    where
      address : (s : ℕ) → s + 4096 < 2 ^ 64 → add64 s bit_map_sz ≡ s + bit_map_sz
      address s l = omega arith

  -- What `mm_alloc_ptr` returns for a request of at least a byte that the walk meets.
  pub alloc_ptr-met : alloc_ptr fuel sz wr user 0 h ≡ some (pointer_of stop, after_alloc)
  unfolding alloc_ptr
  alloc_ptr-met =
      rw (nonzero sz met.sz_pos, fix_eq sz met.sz_fits, found)
        (rw (at_eq stop (omega (arith, met.in_range)), ptr_eq stop (omega (arith, met.in_range)))
          refl)
    where
      nonzero : (s : ℕ) → 0 < s → (s == 0) ≡ false
      nonzero s p = ground arith

      at_eq :
          (s : ℕ) → s + 4096 < 2 ^ 64 → add64 (s + bit_map_sz) info_sz ≡ s + bit_map_sz + info_sz
      at_eq s l = omega arith

      ptr_eq :
          (s : ℕ)
          → s + 4096 < 2 ^ 64
          → add64 (s + bit_map_sz + info_sz) info_sz ≡ s + bit_map_sz + hdr_sz
      ptr_eq s l = omega arith

  page_kept :
      ((x : ℕ)
        → x ≢ stop
        → x ≢ add64 stop size_at
        → x ≢ add64 stop used_at
        → marked.words x ≡ h.bit_maps.words x)
  page_kept x a b c = ground arith

  -- When `mm_alloc_ptr` meets a request at an entry, of at least a byte, without padding, and with
  -- its headers within the bitmap allocator's largest size, the pointer it returns is
  -- not valid for `mm_is_valid_ptr`, and `mm_free_ptr` refuses it and changes nothing, unless the
  -- word behind the entry's header happened to be the magic of a bitmap already.
  pub alloc_ptr-free_refused :
      h.bit_maps.words (stop + bit_map_sz) ≢ bit_map_magic
      → (h' : Heap) × (alloc_ptr fuel sz wr user 0 h ≡ some (pointer_of stop, h'))
        × (is_valid_ptr (pointer_of stop) h' ≡ false)
        × (free_ptr (pointer_of stop) h' ≡ (not_present, h'))
  unfolding is_valid_ptr free_ptr
  alloc_ptr-free_refused other = (
    after_alloc,
    alloc_ptr-met,
    rw (tests.0, tests.1, refused) refl,
    rw (tests.0, tests.1, refused) refl,
  )
    where
      base_eq :
          (s : ℕ) → s + 4096 < 2 ^ 64 → sub64 (s + bit_map_sz + hdr_sz) hdr_sz ≡ s + bit_map_sz
      base_eq s l = omega arith

      tests : ((pointer_of stop == 0) ≡ false) × (leb (pointer_of stop) hdr_sz ≡ false)
      tests = low stop
        where
          low : (s : ℕ) → ((pointer_of s == 0) ≡ false) × (leb (pointer_of s) hdr_sz ≡ false)
          low s = (ground arith, ground arith)

      kept : marked.words (stop + bit_map_sz) ≡ h.bit_maps.words (stop + bit_map_sz)
      kept =
          page_kept (stop + bit_map_sz) (λ e. omega arith) (λ e. omega (arith, met.in_range))
            (λ e. omega (arith, met.in_range))

      refused : is_bit_map (sub64 (pointer_of stop) hdr_sz) marked ≡ false
      refused =
          subst (λ p. is_bit_map p marked ≡ false)
            (sym (base_eq stop (omega (arith, met.in_range))))
            (page_fails (stop + bit_map_sz) marked (λ e. other (sym kept ∙ e)))

  mark_magic : marked.words stop ≡ bit_map_magic
  mark_magic = lookup h.bit_maps.words stop (omega (arith, met.in_range))
    where
      lookup :
          (w : ℕ → ℕ) (b : ℕ)
          → b + 4096 < 2 ^ 64
          → store
              (store (store w b bit_map_magic) (add64 b size_at) (sz + hdr_sz))
              (add64 b used_at)
              1
              b
            ≡ bit_map_magic
      lookup w b l = ground arith

  mark_size : marked.words (add64 stop size_at) ≡ sz + hdr_sz
  mark_size = lookup h.bit_maps.words stop (omega (arith, met.in_range))
    where
      lookup :
          (w : ℕ → ℕ) (b : ℕ)
          → b + 4096 < 2 ^ 64
          → store
              (store (store w b bit_map_magic) (add64 b size_at) (sz + hdr_sz))
              (add64 b used_at)
              1
              (add64 b size_at)
            ≡ sz + hdr_sz
      lookup w b l = ground arith

  -- The next entry, to which the walk goes from the one that `mm_alloc_ptr` has used, begins 8
  -- bytes before the end of the `sz` bytes that were asked for: writing all of them overwrites that
  -- entry's magic.
  pub alloc_ptr-overlaps :
      (h' : Heap) × (alloc_ptr fuel sz wr user 0 h ≡ some (pointer_of stop, h'))
      × (next_base h'.bit_maps.words (sz + hdr_sz) stop + 8 ≡ pointer_of stop + sz)
  alloc_ptr-overlaps = (
    after_alloc,
    alloc_ptr-met,
    rw (mark_magic, mark_size) (offset stop sz met.in_range met.sz_fits),
  )
    where
      offset :
          (s z : ℕ)
          → s + z + 4096 < 2 ^ 64
          → z + hdr_sz ≤ bit_map_max_sz
          → add64 s (add64 (z + hdr_sz) align) + 8 ≡ pointer_of s + z
      offset s z l f = omega arith

-- A request of more than 8 GiB with the headers, and less than 2 ^ 63 bytes, is not answered by a
-- null pointer: `mm_alloc_ptr` returns the address 68 and writes a header at the address 34.
pub alloc_ptr_too_large :
    (fuel sz pad : ℕ) (wr user : Bool) (h : Heap)
    → bit_map_max_sz < sz + hdr_sz
    → sz < 2 ^ 63
    → (h' : Heap) × (alloc_ptr fuel sz wr user pad h ≡ some (hdr_sz, h'))
      × ((h'.infos info_sz).magic ≡ heap_magic)
unfolding alloc_ptr request alloc_bit_map find_bit_map
alloc_ptr_too_large fuel sz pad wr user h big small =
    let (a, b) = tests sz big small in
    (
      set_info info_sz (fill_info info_sz (add64 sz hdr_sz) wr user pad (h.infos info_sz)) h,
      rw (a, b) refl,
      refl,
    )
  where
    tests :
        (s : ℕ)
        → bit_map_max_sz < s + hdr_sz
        → s < 2 ^ 63
        → ((s == 0) ≡ false) × ((add64 s hdr_sz == 0 || ltb bit_map_max_sz (add64 s hdr_sz)) ≡ true)
    tests s l m = (ground arith, ground arith)
