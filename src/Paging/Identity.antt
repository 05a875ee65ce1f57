-- ===== src/Paging/Identity.antt =====
-- `mm_init_kernel_tables` of private/minkernel/HALKit/AMD64/HalPagingMgr.cpp: the kernel's identity map.
use nekrnl.Prelude.{
  ℕ, zero, suc, ◌+◌, ◌-◌, ◌*◌, ◌/◌, ◌%◌, ◌<◌, ◌≤◌, ◌^◌, ◌≡◌, refl, sym, ◌∙◌, subst, Bool, true,
  false, not, ◌==◌, if◌then◌else◌, store, store_ne, store_self, align_down, arith, ℕ_discrete,
  Option, none, some,
}
use nekrnl.Pmm.{Frames, alloc_frame}
use nekrnl.Paging.{is_present, is_large, entry_at, leaf_base, read_directory}

-- `kGiB` and `kLargePage`
abbrev pub gib : ℕ
gib = 2 ^ 30

abbrev pub large_page : ℕ
large_page = 2 ^ 21

-- `x | kTablePerm`, for the permissions of the kernel's tables.
abbrev pub kernel_table : ℕ → ℕ
kernel_table frame = frame / 4 * 4 + 3

-- The loop that fills a page directory from the entry `i` on; `| kLeafPerm` meets no other bit.
unfoldable pub fill_directory : ℕ → ℕ → ℕ → ℕ → (ℕ → ℕ) → ℕ → ℕ
fill_directory zero i pd base mem = mem
fill_directory (suc n) i pd base mem =
    fill_directory n (i + 1) pd base (store mem (pd + i * 8) (base + i * large_page + 0x83))

-- The pointer table for `base`, made when it is missing; `none` for no memory.
abbrev pub take_pointers : ℕ → ℕ × Frames → Option ℕ × Frames
take_pointers slot (frame, s) = if frame == 0 then (none, s) else (
  some (align_down (kernel_table frame)),
  record s { mem = store s.mem slot (kernel_table frame) },
)

abbrev pub pointers_for : ℕ → ℕ → Frames → Option ℕ × Frames
pointers_for pml4 base s =
    let slot = entry_at pml4 base 39 in
    if not (is_present (s.mem slot))
    then take_pointers slot (alloc_frame s)
    else (some (align_down (s.mem slot)), s)

abbrev pub take_directory : ℕ → ℕ → ℕ × Frames → Bool × Frames
take_directory pdpt base (frame, s) = if frame == 0 then (false, s) else (
  true,
  record s {
    mem =
        fill_directory 512 0 frame base (store s.mem (entry_at pdpt base 30) (kernel_table frame));
  },
)

-- One turn of the loop over the gigabytes.
abbrev pub map_gib : ℕ → Option ℕ × Frames → Bool × Frames
map_gib base (none, s) = (false, s)
map_gib base (some pdpt, s) = take_directory pdpt base (alloc_frame s)

-- The loop, with the number of gigabytes left, and the result of the function.
unfoldable pub map_from : ℕ → ℕ → ℕ → Frames → Bool × Frames
map_from zero base pml4 s = (true, s)
map_from (suc n) base pml4 s =
    let (ok, s') = map_gib base (pointers_for pml4 base s) in
    let rest = map_from n (base + gib) pml4 s' in if ok then rest else (false, s')

abbrev pub map_all : ℕ → ℕ × Frames → ℕ × Frames
map_all limit (pml4, s) =
    if pml4 == 0
    then (0, s)
    else let (ok, s') = map_from ((limit + gib - 1) / gib) 0 pml4 s in
      if ok then (pml4, s') else (0, s')

-- `mm_init_kernel_tables`
unfoldable pub init_kernel_tables : ℕ → Frames → ℕ × Frames
init_kernel_tables limit s = map_all limit (alloc_frame s)

fill_below :
    (n i j pd base : ℕ) (mem : ℕ → ℕ)
    → j < i
    → fill_directory n i pd base mem (pd + j * 8) ≡ mem (pd + j * 8)
unfolding fill_directory
fill_below zero i j pd base mem h = refl
fill_below (suc n) i j pd base mem h =
    fill_below n (i + 1) j pd base (store mem (pd + i * 8) (base + i * large_page + 0x83))
      (omega arith)
    ∙ store_ne mem (pd + i * 8) (pd + j * 8) (base + i * large_page + 0x83) (λ e. omega arith)

fill_at :
    (n i j pd base : ℕ) (mem : ℕ → ℕ)
    → i ≤ j
    → j < i + n
    → fill_directory n i pd base mem (pd + j * 8) ≡ base + j * large_page + 0x83
unfolding fill_directory
fill_at zero i j pd base mem l h = absurd (omega arith)
fill_at (suc n) i j pd base mem l h = elim (ℕ_discrete j i) [
  | yes e ↦
      fill_below n (i + 1) j pd base (store mem (pd + i * 8) (base + i * large_page + 0x83))
        (omega arith)
      ∙ subst
          (λ k.
            store mem (pd + i * 8) (base + i * large_page + 0x83) (pd + k * 8)
            ≡ base + k * large_page + 0x83)
          (sym e) (store_self mem (pd + i * 8) (base + i * large_page + 0x83))
  | no other ↦
      fill_at n (i + 1) j pd base (store mem (pd + i * 8) (base + i * large_page + 0x83))
        (omega arith) (omega arith)
]

-- The page directory that `mm_init_kernel_tables` fills for a gigabyte maps each address of that
-- gigabyte to itself, whatever was in memory before, for a base that is a multiple of 1 GiB and
-- keeps below 2 ^ 51.
pub fill_directory-read_directory :
    (pd base virt : ℕ) (mem : ℕ → ℕ)
    → base % gib ≡ 0
    → base < 2 ^ 51
    → base ≤ virt
    → virt < base + gib
    → read_directory (fill_directory 512 0 pd base mem) pd virt ≡ virt
fill_directory-read_directory pd base virt mem aligned small low high =
    let j = virt / 2 ^ 21 % 512 in
    let entry = fill_at 512 0 j pd base mem (omega arith) (omega arith) in
    rw (entry, present (virt / 2 ^ 21 % 512), large (virt / 2 ^ 21 % 512)) (leaf)
  where
    present : (j : ℕ) → is_present (base + j * large_page + 0x83) ≡ true
    present j = ground arith

    large : (j : ℕ) → is_large (base + j * large_page + 0x83) ≡ true
    large j = ground arith

    leaf : leaf_base 21 (base + virt / 2 ^ 21 % 512 * large_page + 0x83) + virt % 2 ^ 21 ≡ virt
    leaf = omega arith
