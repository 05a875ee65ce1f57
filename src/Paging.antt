-- ===== src/Paging.antt =====
-- The page tables of the AMD64 kernel: private/minkernel/HALKit/AMD64/HalPagingMgr.cpp.
-- Masks and disjunctions of bits that cannot overlap are written as quotients and remainders:
-- `x & ~0xFFF` is `x - x % 4096`, `x | 7` is `x / 8 * 8 + 7`.
pub mod Walk
pub mod Mapping
pub mod Identity
mod Tests
use nekrnl.Prelude.{
  ℕ, zero, suc, ◌+◌, ◌-◌, ◌*◌, ◌/◌, ◌%◌, ◌^◌, Bool, true, false, not, ◌&&◌, ◌||◌, ltb, leb, ◌==◌,
  if◌then◌else◌, store, page_size, align_down, Option, none, some,
}
use nekrnl.Pmm.{Frames, alloc_frame}

-- The `n`-th bit.
abbrev pub bit : ℕ → ℕ → ℕ
bit n x = x / 2 ^ n % 2

abbrev pub is_present : ℕ → Bool
is_present entry = not (bit 0 entry == 0)

abbrev pub is_large : ℕ → Bool
is_large entry = not (bit 7 entry == 0)

-- The address of the entry for `virt` in the table at `table`; `shift` is the table's level.
abbrev pub entry_at : ℕ → ℕ → ℕ → ℕ
entry_at table virt shift = table + virt / 2 ^ shift % 512 * 8

-- The bits of an entry that `kAddrMask` keeps above `2 ^ shift`.
abbrev pub leaf_base : ℕ → ℕ → ℕ
leaf_base shift entry = entry % 2 ^ 52 / 2 ^ shift * 2 ^ shift

-- `mm_get_page_addr` below the page directory, with the tables in `mem`.
abbrev pub read_page : (ℕ → ℕ) → ℕ → ℕ → ℕ
read_page mem pt virt =
    let pte = mem (entry_at pt virt 12) in
    if not (is_present pte) then 0 else leaf_base 12 pte + virt % 2 ^ 12

abbrev pub read_directory : (ℕ → ℕ) → ℕ → ℕ → ℕ
read_directory mem pd virt =
    let pde = mem (entry_at pd virt 21) in
    if not (is_present pde)
    then 0
    else if is_large pde
    then leaf_base 21 pde + virt % 2 ^ 21
    else read_page mem (align_down pde) virt

abbrev pub read_pointers : (ℕ → ℕ) → ℕ → ℕ → ℕ
read_pointers mem pdpt virt =
    let pdpte = mem (entry_at pdpt virt 30) in
    if not (is_present pdpte)
    then 0
    else if is_large pdpte
    then leaf_base 30 pdpte + virt % 2 ^ 30
    else read_directory mem (align_down pdpte) virt

-- `mm_get_page_addr`; `cr3` is what `hal_read_cr3` returns.
unfoldable pub get_page_addr : (ℕ → ℕ) → ℕ → ℕ → ℕ
get_page_addr mem cr3 virt =
    let pml4e = mem (entry_at (align_down cr3) virt 39) in
    if not (is_present pml4e) then 0 else read_pointers mem (align_down pml4e) virt

-- `kTablePerm`: present, writable, user.
abbrev pub permissive : ℕ → ℕ
permissive entry = entry / 8 * 8 + 7

-- The attributes that the entries of a split page inherit. Bit 63 is in the base already.
abbrev pub split_perm : ℕ → ℕ → ℕ
split_perm shift entry = entry % 32 + bit 8 entry * 2 ^ 8 + (if ltb 21 shift then 0x80 else 0)

-- The loop that fills the table of a split page from the entry `i` on.
unfoldable pub split_from : ℕ → ℕ → ℕ → ℕ → ℕ → (ℕ → ℕ) → ℕ → ℕ
split_from zero i frame shift entry mem = mem
split_from (suc n) i frame shift entry mem =
    let base = entry / 2 ^ shift * 2 ^ shift in
    split_from n (i + 1) frame shift entry
      (store mem (frame + i * 8) (base + i * (2 ^ shift / 512) + split_perm shift entry))

-- One level of `mm_walk_page`: the table below, `none` for a null pointer.
abbrev pub new_table : ℕ → ℕ × Frames → (ℕ → (ℕ → ℕ) → ℕ → ℕ) → Option ℕ × Frames
new_table slot (frame, s) fill = if frame == 0 then (none, s) else (
  some (align_down (permissive frame)),
  record s { mem = store (fill frame s.mem) slot (permissive frame) },
)

unfoldable pub walk_level : Bool → ℕ → ℕ → ℕ → Frames → Option ℕ × Frames
walk_level alloc virt shift table s =
    let slot = entry_at table virt shift in
    let entry = s.mem slot in
    if not (is_present entry)
    then if not alloc then (none, s) else new_table slot (alloc_frame s) (λ frame mem. mem)
    else if is_large entry
    then if not alloc
      then (none, s)
      else new_table slot (alloc_frame s) (λ frame mem. split_from 512 0 frame shift (mem slot) mem)
    else (
      some (align_down (permissive entry)),
      record s { mem = store s.mem slot (permissive entry) },
    )

-- The next level, unless the last one ended the walk.
abbrev pub then_level : Bool → ℕ → ℕ → Option ℕ × Frames → Option ℕ × Frames
then_level alloc virt shift (none, s) = (none, s)
then_level alloc virt shift (some table, s) = walk_level alloc virt shift table s

abbrev pub last_slot : ℕ → Option ℕ × Frames → Option ℕ × Frames
last_slot virt (none, s) = (none, s)
last_slot virt (some table, s) = (some (entry_at table virt 12), s)

-- `mm_walk_page`: the address of the page's entry.
unfoldable pub walk_page : ℕ → ℕ → Bool → Frames → Option ℕ × Frames
walk_page root virt alloc s =
    if root == 0
    then (none, s)
    else last_slot virt (
        then_level alloc virt 21
          (then_level alloc virt 30 (walk_level alloc virt 39 (align_down root) s)))

-- The entry that `mm_map_page_in` writes, field by field of `Detail::PTE`.
unfoldable pub make_pte : ℕ → ℕ → ℕ
make_pte phys flags =
    bit 1 flags
    + bit 2 flags * 2
    + bit 3 flags * 4
    + bit 6 flags * 8
    + bit 5 flags * 16
    + phys / 2 ^ 12 % 2 ^ 40 * 2 ^ 12
    + bit 4 flags * 2 ^ 63

abbrev pub write_slot : ℕ → Option ℕ × Frames → Bool × Frames
write_slot pte (none, s) = (false, s)
write_slot pte (some slot, s) = (true, record s { mem = store s.mem slot pte })

-- `mm_map_page_in`: `true` is `kErrorSuccess`, `false` is `kErrorInvalidData`.
unfoldable pub map_page_in : ℕ → ℕ → ℕ → ℕ → Frames → Bool × Frames
map_page_in root virt phys flags s =
    if phys == 0
    then (false, s)
    else if not (phys % page_size == 0)
    then (false, s)
    else write_slot (make_pte phys flags) (walk_page root virt true s)

-- `mm_map_page` and `mm_unmap_page`
unfoldable pub map_page : ℕ → ℕ → ℕ → ℕ → Frames → Bool × Frames
map_page cr3 virt phys flags s = map_page_in cr3 virt phys flags s

abbrev pub clear_slot : Option ℕ × Frames → ℕ × Frames
clear_slot (none, s) = (0, s)
clear_slot (some slot, s) =
    if not (is_present (s.mem slot))
    then (0, s)
    else (leaf_base 12 (s.mem slot), record s { mem = store s.mem slot 0 })

unfoldable pub unmap_page : ℕ → ℕ → Frames → ℕ × Frames
unmap_page cr3 virt s = clear_slot (walk_page cr3 virt false s)

-- `mm_memory_fence`: `true` is `kErrorSuccess`.
unfoldable pub memory_fence : (ℕ → ℕ) → ℕ → ℕ → Bool
memory_fence mem cr3 virt = not (virt == 0 || get_page_addr mem cr3 virt == 0)
