-- ===== src/Pmm.antt =====
-- private/minkernel/HALKit/Generic/HalPhysicalMemory.cpp
pub mod Inv
pub mod Alloc
mod Tests
pub mod Region
pub mod Trace
pub mod Refine
pub mod Pool
pub mod Free
use nekrnl.Prelude.{
  store, ℕ, ◌+◌, ◌-◌, ◌/◌, ◌%◌, ◌<◌, ◌≡◌, refl, Bool, true, false, not, ◌&&◌, ◌||◌, ltb, leb, ◌==◌,
  if◌then◌else◌, add64, sub64, page_size, align_down,
}

-- The statics of the frame allocator, with the memory that the freed frames are threaded through.
-- `mem a` is the 64-bit word at the 8-byte aligned address `a`.
pub record Frames : Type 0 where
  pub base : ℕ
  pub cursor : ℕ
  pub end : ℕ
  pub free_head : ℕ
  pub free : ℕ
  pub used : ℕ
  pub mem : ℕ → ℕ

-- `rt_set_memory(frame, 0, kPageSize)`
abbrev pub zero_page : (ℕ → ℕ) → ℕ → ℕ → ℕ
zero_page mem p a = if leb p a && ltb a (p + page_size) then 0 else mem a

pub init : (base sz : ℕ) → Frames → Frames
init base sz s =
    let start = align_down (add64 base (page_size - 1)) in
    let stop = align_down (add64 base sz) in
    if leb stop start then record s { cursor = 0; end = 0 } else record s {
      base = start;
      cursor = start;
      end = stop;
      free_head = 0;
      free = (stop - start) / page_size;
      used = 0;
    }

-- The frame that `pmmi_alloc_frame` picks, 0 for none.
pub pick : Frames → ℕ × Frames
pick s =
    if not (s.free_head == 0)
    then (s.free_head, record s { free_head = s.mem s.free_head })
    else if not (s.cursor == 0) && ltb s.cursor s.end
    then (s.cursor, record s { cursor = add64 s.cursor page_size })
    else (0, s)

-- Clears the picked frame and counts it.
abbrev pub issue : ℕ → Frames → Frames
issue frame s = record s {
  mem = zero_page s.mem frame;
  free = sub64 s.free 1;
  used = add64 s.used 1;
}

-- `pmmi_alloc_frame`
pub alloc_frame : Frames → ℕ × Frames
unfolding pick
alloc_frame s = let (frame, s') = pick s in if frame == 0 then (0, s') else (frame, issue frame s')

-- Threads a frame on the free list, and counts it.
abbrev pub recycle : ℕ → Frames → Frames
recycle frame s = record s {
  mem = store s.mem frame s.free_head;
  free_head = frame;
  free = add64 s.free 1;
  used = sub64 s.used 1;
}

-- `pmmi_free_frame`
pub free_frame : ℕ → Frames → Frames
free_frame frame s =
    if frame == 0 || not (frame % page_size == 0)
    then s
    else if ltb frame s.base || leb s.cursor frame
    then s
    else recycle frame s

pub free_frames : Frames → ℕ
free_frames s = s.free

pub used_frames : Frames → ℕ
used_frames s = s.used
