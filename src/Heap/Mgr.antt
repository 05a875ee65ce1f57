-- ===== src/Heap/Mgr.antt =====
-- The heap manager: private/minkernel/src/HeapMgr.cpp, over `PageMgr` of private/minkernel/src/PageMgr.cpp.
use nekrnl.Prelude.{
  ℕ, ◌*◌, ◌%◌, ◌^◌, Bool, true, false, not, ◌&&◌, ◌||◌, leb, ◌==◌, if◌then◌else◌, add64, sub64,
  Option, none, some,
}
use nekrnl.Heap.BitMap.{BitMaps, is_bit_map, alloc_bit_map, mm_free_bit_map}

-- `kHeapMgrMagic`, the packed size of `MM_INFORMATION_BLOCK`, and `kHeapMgrHdrSz`
abbrev pub heap_magic : ℕ
heap_magic = 0xD4D75

abbrev pub info_sz : ℕ
info_sz = 34

abbrev pub hdr_sz : ℕ
hdr_sz = info_sz * 2

-- `MM_INFORMATION_BLOCK`
pub record Info : Type 0 where
  pub magic : ℕ
  pub present : Bool
  pub write_read : Bool
  pub user : Bool
  pub page : Bool
  pub crc32 : ℕ
  pub flags : ℕ
  pub size : ℕ
  pub offset : ℕ
  pub pad : ℕ

-- The headers are kept apart from the words of the bitmaps: `infos a` is the header at `a`.
pub record Heap : Type 0 where
  pub bit_maps : BitMaps
  pub infos : ℕ → Info

abbrev pub set_info : ℕ → Info → Heap → Heap
set_info p i h = record h { infos = λ a. if a == p then i else h.infos a }

-- How a call ends: the error code, or the kernel stops.
pub data Result : Type 0 where
  success not_present stopped : Result

-- `Detail::mm_check_ptr_address`, which is `mm_is_valid_ptr`
unfoldable pub is_valid_ptr : ℕ → Heap → Bool
is_valid_ptr ptr h =
    let i = h.infos (sub64 ptr info_sz) in
    if ptr == 0
    then false
    else if leb ptr hdr_sz
    then false
    else if not (is_bit_map (sub64 ptr hdr_sz) h.bit_maps)
    then false
    else i.magic == heap_magic && i.present

-- `PageMgr::Request`, down to the address of the wrapper that it returns.
unfoldable pub request : ℕ → ℕ → ℕ → BitMaps → Option (ℕ × BitMaps)
request fuel size pad s = alloc_bit_map fuel size false pad s

-- The header that `mm_alloc_ptr` writes at `at`.
abbrev pub fill_info : ℕ → ℕ → Bool → Bool → ℕ → Info → Info
fill_info at sz wr user pad i = record i {
  size = sz;
  magic = heap_magic;
  crc32 = 0;
  offset = add64 at info_sz;
  page = false;
  write_read = wr;
  user = user;
  present = true;
  pad = pad;
}

-- `mm_alloc_ptr` behind the address that the page manager returned.
abbrev pub register : ℕ → Bool → Bool → ℕ → Heap → Option (ℕ × BitMaps) → Option (ℕ × Heap)
register sz wr user pad h none = none
register sz wr user pad h (some (address, maps)) =
    let at = add64 address info_sz in
    some (
      add64 at info_sz,
      set_info at (fill_info at sz wr user pad (h.infos at)) (record h { bit_maps = maps }),
    )

-- `mm_alloc_ptr`, with fuel for the walk.
unfoldable pub alloc_ptr : ℕ → ℕ → Bool → Bool → ℕ → Heap → Option (ℕ × Heap)
alloc_ptr fuel sz wr user pad h =
    if sz == 0
    then some (0, h)
    else let sz_fix = add64 sz hdr_sz in
      register sz_fix wr user pad h (request fuel sz_fix pad h.bit_maps)

-- `mm_ctl_page`, `mm_set_ptr_flags` and `mm_get_ptr_flags`
unfoldable pub ctl_page : ℕ → Bool → Heap → Result × Heap
ctl_page ptr enable h =
    let at = sub64 ptr info_sz in
    if not (is_valid_ptr ptr h) || at == 0
    then (not_present, h)
    else (success, set_info at (record (h.infos at) { page = enable }) h)

unfoldable pub set_ptr_flags : ℕ → ℕ → Heap → Result × Heap
set_ptr_flags ptr flags h =
    let at = sub64 ptr info_sz in
    if not (is_valid_ptr ptr h) || at == 0
    then (not_present, h)
    else (success, set_info at (record (h.infos at) { flags = flags % 2 ^ 16 }) h)

unfoldable pub get_ptr_flags : ℕ → Heap → ℕ
get_ptr_flags ptr h = (h.infos (sub64 ptr info_sz)).flags

-- The header of a freed pointer.
abbrev pub clear_info : Info → Info
clear_info i = record i {
  size = 0;
  present = false;
  offset = 0;
  crc32 = 0;
  write_read = false;
  user = false;
  pad = 0;
}

-- The end of `mm_free_ptr`, behind `PageMgr::Free`.
abbrev pub finish_free : Heap → Option (Bool × BitMaps) → Result × Heap
finish_free h none = (stopped, h)
finish_free h (some (r, maps)) = (success, record h { bit_maps = maps })

-- `mm_free_ptr`
unfoldable pub free_ptr : ℕ → Heap → Result × Heap
free_ptr ptr h =
    let base = sub64 ptr hdr_sz in
    let at = sub64 ptr info_sz in
    let cleared = set_info at (clear_info (h.infos at)) h in
    if ptr == 0 || leb ptr hdr_sz
    then (not_present, h)
    else if not (is_bit_map base h.bit_maps)
    then (not_present, h)
    else if not ((h.infos at).magic == heap_magic)
    then (not_present, h)
    else if not (h.infos at).present
    then (stopped, h)
    else finish_free cleared (mm_free_bit_map base h.bit_maps)
