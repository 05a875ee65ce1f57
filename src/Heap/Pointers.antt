-- ===== src/Heap/Pointers.antt =====
-- Heap pointers between `mm_alloc_ptr` and `mm_free_ptr` of private/minkernel/src/HeapMgr.cpp.
use nekrnl.Prelude.{
  ℕ, ◌+◌, ◌<◌, ◌^◌, ◌≡◌, ◌≢◌, refl, ap, ◌∙◌, Bool, true, false, ◌&&◌, ◌||◌, ◌==◌, leb,
  if◌then◌else◌, add64, sub64, store, arith, some,
}
use nekrnl.Heap.BitMap.{
  BitMaps, bit_map_magic, bit_map_sz, used_at, size_at, is_bit_map, mm_free_bit_map, free_bit_map,
}
use nekrnl.Heap.Mgr.{
  Heap, Info, heap_magic, info_sz, hdr_sz, set_info, success, stopped, free_ptr, clear_info,
  is_valid_ptr,
}

-- What `mm_free_ptr` asks of a pointer: the two marks that lie before it.
pub record IsLive (ptr : ℕ) (h : Heap) : Type 0 where
  pub above_headers : hdr_sz < ptr
  pub is_word : ptr < 2 ^ 64
  pub is_page : h.bit_maps.words (sub64 ptr hdr_sz) ≡ bit_map_magic
  pub is_entry : h.bit_maps.words (sub64 (sub64 ptr hdr_sz) bit_map_sz) ≡ bit_map_magic
  pub has_magic : (h.infos (sub64 ptr info_sz)).magic ≡ heap_magic

low_test : (ptr : ℕ) → hdr_sz < ptr → (ptr == 0 || leb ptr hdr_sz) ≡ false
low_test ptr h = ground arith

page_test :
    (ptr : ℕ) (s : BitMaps) → ptr ≢ 0 → s.words ptr ≡ bit_map_magic → is_bit_map ptr s ≡ true
unfolding is_bit_map
page_test ptr s n e = ground arith

magic_test : (m : ℕ) → m ≡ heap_magic → (m == heap_magic) ≡ true
magic_test m e = ground arith

free_ptr-absent :
    (ptr : ℕ) (h : Heap)
    → IsLive ptr h
    → (h.infos (sub64 ptr info_sz)).present ≡ false
    → free_ptr ptr h ≡ (stopped, h)
unfolding free_ptr
free_ptr-absent ptr h live gone =
    rw
      (
        low_test ptr live.above_headers,
        page_test (sub64 ptr hdr_sz) h.bit_maps (high ptr live.above_headers live.is_word)
            live.is_page,
        magic_test (h.infos (sub64 ptr info_sz)).magic live.has_magic,
        gone,
      )
      refl
  where
    high : (p : ℕ) → hdr_sz < p → p < 2 ^ 64 → sub64 p hdr_sz ≢ 0
    high p h l z = omega arith

-- The bitmaps after a live entry is freed.
abbrev freed : ℕ → BitMaps → BitMaps
freed bits s =
    let size = s.words (add64 bits size_at) in
    record (if leb size s.cursor then record s { cursor = sub64 s.cursor size } else s) {
      words = store s.words (add64 bits used_at) 0;
    }

mm_free_bit_map_live :
    (base : ℕ) (s : BitMaps)
    → bit_map_sz < base
    → base < 2 ^ 64
    → s.words base ≡ bit_map_magic
    → s.words (sub64 base bit_map_sz) ≡ bit_map_magic
    → mm_free_bit_map base s ≡ some (true, freed (sub64 base bit_map_sz) s)
unfolding mm_free_bit_map free_bit_map
mm_free_bit_map_live base s above word page entry =
    rw
      (
        zero_test base above,
        page_test base s (λ z. omega arith) page,
        bits_test base above word,
        entry_test (s.words (sub64 base bit_map_sz)) entry,
      )
      refl
  where
    zero_test : (b : ℕ) → bit_map_sz < b → (b == 0) ≡ false
    zero_test b h = ground arith

    bits_test : (b : ℕ) → bit_map_sz < b → b < 2 ^ 64 → (sub64 b bit_map_sz == 0) ≡ false
    bits_test b h l = ground arith

    entry_test : (w : ℕ) → w ≡ bit_map_magic → (w == bit_map_magic) ≡ true
    entry_test w e = ground arith

-- The heap after a live pointer is freed.
abbrev after_free : ℕ → Heap → Heap
after_free ptr h =
    let at = sub64 ptr info_sz in
    record (set_info at (clear_info (h.infos at)) h) {
      bit_maps = freed (sub64 (sub64 ptr hdr_sz) bit_map_sz) h.bit_maps;
    }

free_ptr-live :
    (ptr : ℕ) (h : Heap)
    → IsLive ptr h
    → hdr_sz + bit_map_sz < ptr
    → (h.infos (sub64 ptr info_sz)).present ≡ true
    → free_ptr ptr h ≡ (success, after_free ptr h)
unfolding free_ptr
free_ptr-live ptr h live high there =
    rw
      (
        low_test ptr live.above_headers,
        page_test (sub64 ptr hdr_sz) h.bit_maps (λ z. base_pos ptr high live.is_word z)
            live.is_page,
        magic_test (h.infos (sub64 ptr info_sz)).magic live.has_magic,
        there,
        mm_free_bit_map_live (sub64 ptr hdr_sz) h.bit_maps (above ptr high live.is_word) (below ptr)
            live.is_page live.is_entry,
      )
      refl
  where
    base_pos : (p : ℕ) → 92 < p → p < 2 ^ 64 → sub64 p hdr_sz ≢ 0
    base_pos p h l z = omega arith

    above : (p : ℕ) → 92 < p → p < 2 ^ 64 → bit_map_sz < sub64 p hdr_sz
    above p h l = omega arith

    below : (p : ℕ) → sub64 p hdr_sz < 2 ^ 64
    below p = omega arith

info_self : (p : ℕ) (i : Info) (h : Heap) → (set_info p i h).infos p ≡ i
info_self p i h = ground arith

freed-words :
    (bits a : ℕ) (s : BitMaps) → a ≢ add64 bits used_at → (freed bits s).words a ≡ s.words a
freed-words bits a s n = ground arith

freed-used : (bits : ℕ) (s : BitMaps) → (freed bits s).words (add64 bits used_at) ≡ 0
freed-used bits s = ground arith

absent-is_valid_ptr :
    (ptr : ℕ) (h : Heap)
    → (h.infos (sub64 ptr info_sz)).present ≡ false
    → is_valid_ptr ptr h ≡ false
unfolding is_valid_ptr
absent-is_valid_ptr ptr h gone =
    ground (arith, and_false ((h.infos (sub64 ptr info_sz)).magic == heap_magic) gone)
  where
    and_false : (b : Bool) {c : Bool} → c ≡ false → (b && c) ≡ false
    and_false true e = e
    and_false false e = refl

-- The word that says whether the entry of a pointer is used.
abbrev used_word : ℕ → ℕ
used_word ptr = add64 (sub64 (sub64 ptr hdr_sz) bit_map_sz) used_at

-- What `mm_free_ptr` leaves of a live pointer: its entry is not used any more, no other word of
-- the bitmaps changes, the pointer is not valid, and freeing it again stops the kernel and
-- changes nothing.
pub record IsGone (ptr : ℕ) (h h' : Heap) : Type 0 where
  pub unused : h'.bit_maps.words (used_word ptr) ≡ 0
  pub others : (a : ℕ) → a ≢ used_word ptr → h'.bit_maps.words a ≡ h.bit_maps.words a
  pub not_valid : is_valid_ptr ptr h' ≡ false
  pub twice : free_ptr ptr h' ≡ (stopped, h')

-- A pointer whose block is present, with the bitmap's magic before both of its headers and the
-- heap's in the second, is freed: its entry is marked as not used, no other word of the bitmaps
-- changes, the pointer is no longer valid, and freeing it again stops the kernel and changes
-- nothing.
pub free_ptr_twice :
    (ptr : ℕ) (h : Heap)
    → IsLive ptr h
    → hdr_sz + bit_map_sz < ptr
    → (h.infos (sub64 ptr info_sz)).present ≡ true
    → (h' : Heap) × (free_ptr ptr h ≡ (success, h')) × IsGone ptr h h'
free_ptr_twice ptr h live high there = (
  after_free ptr h,
  free_ptr-live ptr h live high there,
  record {
    unused = freed-used (sub64 (sub64 ptr hdr_sz) bit_map_sz) h.bit_maps;
    others = λ a n. freed-words (sub64 (sub64 ptr hdr_sz) bit_map_sz) a h.bit_maps n;
    not_valid = absent-is_valid_ptr ptr (after_free ptr h) gone;
    twice =
        free_ptr-absent ptr (after_free ptr h)
          (record {
            above_headers = live.above_headers;
            is_word = live.is_word;
            is_page =
                freed-words (sub64 (sub64 ptr hdr_sz) bit_map_sz) (sub64 ptr hdr_sz) h.bit_maps
                  (apart ptr high live.is_word)
                ∙ live.is_page;
            is_entry =
                freed-words (sub64 (sub64 ptr hdr_sz) bit_map_sz)
                  (sub64 (sub64 ptr hdr_sz) bit_map_sz) h.bit_maps
                  (apart_entry ptr high live.is_word)
                ∙ live.is_entry;
            has_magic =
                ap (λ i. i.magic) (info_self at (clear_info (h.infos at)) h) ∙ live.has_magic;
          })
          gone;
  },
)
  where
    at : ℕ
    at = sub64 ptr info_sz

    gone : ((after_free ptr h).infos at).present ≡ false
    gone = ap (λ i. i.present) (info_self at (clear_info (h.infos at)) h)

    apart : (p : ℕ) → 92 < p → p < 2 ^ 64 → sub64 p 68 ≢ add64 (sub64 (sub64 p 68) 24) 16
    apart p h l e = omega arith

    apart_entry :
        (p : ℕ) → 92 < p → p < 2 ^ 64 → sub64 (sub64 p 68) 24 ≢ add64 (sub64 (sub64 p 68) 24) 16
    apart_entry p h l e = omega arith
