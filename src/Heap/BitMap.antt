-- ===== src/Heap/BitMap.antt =====
-- The bitmap allocator: private/minkernel/src/BitMapMgr.cpp.
use nekrnl.Prelude.{
  ℕ, zero, suc, ◌*◌, Bool, true, false, not, ◌||◌, ltb, leb, ◌==◌, if◌then◌else◌, add64, sub64,
  store, Option, none, some,
}

-- `kBitMapMagic`, `kBitMapMaxSz`, `kAlign`
abbrev pub bit_map_magic : ℕ
bit_map_magic = 0x10210

abbrev pub bit_map_max_sz : ℕ
bit_map_max_sz = 8 * 1024 * 1024 * 1024

abbrev pub align : ℕ
align = 16

-- `kBitMapSizeIdx`, `kBitMapUsedIdx` and `kBitMapSz`, counted in bytes.
abbrev pub size_at : ℕ
size_at = 8

abbrev pub used_at : ℕ
used_at = 16

abbrev pub bit_map_sz : ℕ
bit_map_sz = 24

-- `words a` is the 64-bit word that begins at the address `a`; `start` is `kKernelBitMpStart`.
pub record BitMaps : Type 0 where
  pub words : ℕ → ℕ
  pub start : ℕ
  pub cursor : ℕ
  pub biggest : ℕ

-- `IBitMapProxy::IsBitMap` and `mm_is_bitmap`
unfoldable pub is_bit_map : ℕ → BitMaps → Bool
is_bit_map page_ptr s = if page_ptr == 0 then false else s.words page_ptr == bit_map_magic

-- `IBitMapProxy::FreeBitMap`
unfoldable pub free_bit_map : ℕ → BitMaps → Bool × BitMaps
free_bit_map page_ptr s =
    let bits = sub64 page_ptr bit_map_sz in
    let size = s.words (add64 bits size_at) in
    let lowered = if leb size s.cursor then record s { cursor = sub64 s.cursor size } else s in
    if not (is_bit_map page_ptr s)
    then (false, s)
    else if bits == 0
    then (false, s)
    else if not (s.words bits == bit_map_magic)
    then (false, s)
    else (true, record lowered { words = store s.words (add64 bits used_at) 0 })

-- The header that `FindBitMap` writes, and its counters.
abbrev pub mark : ℕ → ℕ → BitMaps → BitMaps
mark base total s = record s {
  words =
      store (store (store s.words base bit_map_magic) (add64 base size_at) total)
        (add64 base used_at) 1;
  cursor = add64 s.cursor (add64 total align);
  biggest = if ltb s.biggest total then total else s.biggest;
}

-- Where the walk goes on after a used entry.
abbrev pub next_base : (ℕ → ℕ) → ℕ → ℕ → ℕ
next_base words total base =
    let offset = if not (words base == bit_map_magic) then total else words (add64 base size_at) in
    add64 base (add64 offset align)

-- The loop of `FindBitMap` on fuel; `none` is a walk that is still going on.
unfoldable pub find_from : ℕ → ℕ → ℕ → BitMaps → Option (ℕ × BitMaps)
find_from zero total base s = none
find_from (suc fuel) total base s =
    let rest = find_from fuel total (next_base s.words total base) s in
    if s.words (add64 base used_at) == 0
    then some (add64 base bit_map_sz, mark base total s)
    else rest

-- `IBitMapProxy::FindBitMap`
unfoldable pub find_bit_map : ℕ → ℕ → ℕ → BitMaps → Option (ℕ × BitMaps)
find_bit_map fuel size pad s =
    if size == 0 || ltb bit_map_max_sz size
    then some (0, s)
    else find_from fuel (add64 size pad) (add64 s.start s.cursor) s

-- `mm_alloc_bitmap`
unfoldable pub alloc_bit_map : ℕ → ℕ → Bool → ℕ → BitMaps → Option (ℕ × BitMaps)
alloc_bit_map fuel size is_page pad s =
    if is_page then some (0, s) else find_bit_map fuel size pad s

-- `mm_free_bitmap`; `none` is the panic of `MUST_PASS`.
abbrev pub must_pass : Bool × BitMaps → Option (Bool × BitMaps)
must_pass (r, s) = if r then some (r, s) else none

unfoldable pub mm_free_bit_map : ℕ → BitMaps → Option (Bool × BitMaps)
mm_free_bit_map ptr s = if ptr == 0 then some (false, s) else must_pass (free_bit_map ptr s)
