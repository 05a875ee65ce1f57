-- ===== src/Heap/Tests.antt =====
-- The heap on an empty region.
use nekrnl.Prelude.{ℕ, ◌≡◌, refl, true, false, ◌==◌, if◌then◌else◌, ◌||◌, arith, some}
use nekrnl.Heap.BitMap.{BitMaps, bit_map_magic, find_bit_map}
use nekrnl.Heap.Mgr.{
  Heap, Info, heap_magic, success, not_present, is_valid_ptr, alloc_ptr, free_ptr,
}
use nekrnl.Heap.Find.{Walks, here, over, IsMarked, find_bit_map-Walks}
use nekrnl.Heap.Pointers.{IsGone, free_ptr_twice}
use nekrnl.Heap.Alloc.{IsMet, alloc_ptr-free_refused}

abbrev no_info : Info
no_info = record {
  magic = 0;
  present = false;
  write_read = false;
  user = false;
  page = false;
  crc32 = 0;
  flags = 0;
  size = 0;
  offset = 0;
  pad = 0;
}

-- One used entry of 32 bytes at 4096, and nothing behind it.
abbrev maps : BitMaps
maps = record {
  words = λ a.
      if a == 4096 then bit_map_magic else if a == 4104 then 32 else if a == 4112 then 1 else 0;
  start = 4096;
  cursor = 0;
  biggest = 0;
}

abbrev heap : Heap
heap = record { bit_maps = maps; infos = λ a. no_info }

walk_maps : (t : ℕ) → Walks maps.words t 1 4096 4144
walk_maps t = over (λ z. omega arith) here

find_bit_map-Walks_example :
    (s' : BitMaps) × (find_bit_map 2 64 0 maps ≡ some (4168, s')) × IsMarked 4144 64 maps s'
find_bit_map-Walks_example =
    find_bit_map-Walks 1 2 64 0 4144 maps (omega arith) (omega arith) (walk_maps 64) refl
      (omega arith) (omega arith)

met : IsMet 1 2 100 4144 heap
met = record {
  sz_pos = omega arith;
  sz_fits = omega arith;
  walks = walk_maps 168;
  free = refl;
  fuel_left = omega arith;
  in_range = omega arith;
}

alloc_ptr-free_refused_example :
    (h' : Heap) × (alloc_ptr 2 100 true false 0 heap ≡ some (4236, h'))
    × (is_valid_ptr 4236 h' ≡ false)
    × (free_ptr 4236 h' ≡ (not_present, h'))
alloc_ptr-free_refused_example =
    alloc_ptr-free_refused 1 2 100 4144 true false heap met (omega arith)

-- A pointer with all the marks that `mm_free_ptr` looks for.
abbrev live_heap : Heap
live_heap = record {
  bit_maps = record maps {
    words = λ a.
        if a == 4096 || a == 4120
        then bit_map_magic
        else if a == 4104
        then 32
        else if a == 4112
        then 1
        else 0;
  };
  infos = λ a. record no_info { magic = heap_magic; present = true };
}

free_ptr_twice_example :
    (h' : Heap) × (free_ptr 4188 live_heap ≡ (success, h')) × IsGone 4188 live_heap h'
free_ptr_twice_example =
    free_ptr_twice 4188 live_heap
      (record {
        above_headers = omega arith;
        is_word = omega arith;
        is_page = refl;
        is_entry = refl;
        has_magic = refl;
      })
      (omega arith) refl
