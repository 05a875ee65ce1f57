-- ===== src/Heap/Find.antt =====
-- The walk of `FindBitMap` over the entries, in private/minkernel/src/BitMapMgr.cpp.
use nekrnl.Prelude.{
  ap, ◌+◌, ◌^◌, ℕ, zero, suc, ◌<◌, ◌≤◌, ◌≡◌, ◌≢◌, refl, sym, ◌∙◌, true, false, ◌==◌, add64, arith,
  Bool-cases, inl, inr, some, ==_iff, ltb, ◌||◌,
}
use nekrnl.Heap.BitMap.{
  bit_map_magic, align, size_at, BitMaps, bit_map_sz, bit_map_max_sz, used_at, mark, next_base,
  find_from, find_bit_map,
}

-- The walk gets from one entry to another over `k` entries, all of them used.
pub data Walks (words : ℕ → ℕ) (total : ℕ) : ℕ → ℕ → ℕ → Type 0 where
  here : {base : ℕ} → Walks words total 0 base base
  over :
      {k base stop : ℕ}
      → words (add64 base used_at) ≢ 0
      → Walks words total k (next_base words total base) stop
      → Walks words total (suc k) base stop

-- The entry is free.
abbrev pub IsFree : (ℕ → ℕ) → ℕ → Type 0
IsFree words base = words (add64 base used_at) ≡ 0

free_test : (n : ℕ) → n ≡ 0 → (n == 0) ≡ true
free_test n e = ground arith

used_test : (n : ℕ) → n ≢ 0 → (n == 0) ≡ false
used_test n e = ground arith

find_from-free :
    (fuel total base : ℕ) (s : BitMaps)
    → IsFree s.words base
    → find_from (suc fuel) total base s ≡ some (add64 base bit_map_sz, mark base total s)
unfolding find_from
find_from-free fuel total base s free = rw (free_test (s.words (add64 base used_at)) free) refl

find_from-used :
    (fuel total base : ℕ) (s : BitMaps)
    → s.words (add64 base used_at) ≢ 0
    → find_from (suc fuel) total base s ≡ find_from fuel total (next_base s.words total base) s
unfolding find_from
find_from-used fuel total base s used = rw (used_test (s.words (add64 base used_at)) used) refl

find_from-Walks :
    (k fuel total base stop : ℕ) (s : BitMaps)
    → Walks s.words total k base stop
    → IsFree s.words stop
    → k < fuel
    → find_from fuel total base s ≡ some (add64 stop bit_map_sz, mark stop total s)
find_from-Walks k zero total base stop s w free more = absurd (omega arith)
find_from-Walks zero (suc fuel) total base stop s here free more =
    find_from-free fuel total base s free
find_from-Walks (suc k) (suc fuel) total base stop s (over used w) free more =
    find_from-used fuel total base s used
    ∙ find_from-Walks k fuel total (next_base s.words total base) stop s w free (omega arith)

guard_open :
    (size : ℕ) → 0 < size → size ≤ bit_map_max_sz → (size == 0 || ltb bit_map_max_sz size) ≡ false
guard_open size pos fits = ground arith

-- What an allocation leaves at the entry `stop`, and outside it.
pub record IsMarked (stop total : ℕ) (s s' : BitMaps) : Type 0 where
  pub magic_eq : s'.words stop ≡ bit_map_magic
  pub size_eq : s'.words (stop + size_at) ≡ total
  pub used_eq : s'.words (stop + used_at) ≡ 1
  pub others_kept :
      (a : ℕ) → a ≢ stop → a ≢ stop + size_at → a ≢ stop + used_at → s'.words a ≡ s.words a
  pub cursor_eq : s'.cursor ≡ add64 s.cursor (add64 total align)
  pub start_eq : s'.start ≡ s.start

mark-IsMarked :
    (stop total : ℕ) (s : BitMaps)
    → stop + used_at < 2 ^ 64
    → IsMarked stop total s (mark stop total s)
mark-IsMarked stop total s fits = record {
  magic_eq = ground arith;
  size_eq = ground arith;
  used_eq = ground arith;
  others_kept = λ a x y z. ground arith;
  cursor_eq = refl;
  start_eq = refl;
}

pub find_bit_map-mark :
    (k fuel size pad stop : ℕ) (s : BitMaps)
    → 0 < size
    → size ≤ bit_map_max_sz
    → Walks s.words (add64 size pad) k (add64 s.start s.cursor) stop
    → IsFree s.words stop
    → k < fuel
    → find_bit_map fuel size pad s ≡ some (add64 stop bit_map_sz, mark stop (add64 size pad) s)
unfolding find_bit_map
find_bit_map-mark k fuel size pad stop s pos fits w free more =
    rw (guard_open size pos fits)
      (find_from-Walks k fuel (add64 size pad) (add64 s.start s.cursor) stop s w free more)

-- For a request of 1 byte to 8 GiB, when the walk from the cursor passes `k` used entries and then
-- meets a free one, fuel above `k` is enough: `FindBitMap` returns the address behind that entry's
-- header, the entry has the magic, the requested size and the mark of a used one, no other word
-- has changed, and the cursor has moved by the size and the alignment.
pub find_bit_map-Walks :
    (k fuel size pad stop : ℕ) (s : BitMaps)
    → 0 < size
    → size ≤ bit_map_max_sz
    → Walks s.words (add64 size pad) k (add64 s.start s.cursor) stop
    → IsFree s.words stop
    → stop + bit_map_sz < 2 ^ 64
    → k < fuel
    → (s' : BitMaps) × (find_bit_map fuel size pad s ≡ some (stop + bit_map_sz, s'))
      × IsMarked stop (add64 size pad) s s'
find_bit_map-Walks k fuel size pad stop s pos fits w free range more = (
  mark stop (add64 size pad) s,
  find_bit_map-mark k fuel size pad stop s pos fits w free more
      ∙ ap (λ a. some (a, mark stop (add64 size pad) s)) (address stop range),
  mark-IsMarked stop (add64 size pad) s (omega arith),
)
  where
    address : (b : ℕ) → b + bit_map_sz < 2 ^ 64 → add64 b bit_map_sz ≡ b + bit_map_sz
    address b l = omega arith

-- Whatever `FindBitMap`'s walk returns on any fuel is the first free entry that it reaches over
-- used ones.
pub find_from-Found :
    (fuel total base : ℕ) (s : BitMaps) (r : ℕ × BitMaps)
    → find_from fuel total base s ≡ some r
    → (k : ℕ) × (stop : ℕ) × (k < fuel)
      × Walks s.words total k base stop
      × IsFree s.words stop
      × (some r ≡ some (add64 stop bit_map_sz, mark stop total s))
unfolding find_from
find_from-Found zero total base s r e = absurd (ground arith)
find_from-Found (suc fuel) total base s r e =
    elim (Bool-cases (s.words (add64 base used_at) == 0)) [
      | inl free ↦ (
        0,
        base,
        omega arith,
        here,
        (==_iff _ _).0 free,
        sym e ∙ find_from-free fuel total base s ((==_iff _ _).0 free),
      )
      | inr used ↦
          let n : s.words (add64 base used_at) ≢ 0 = λ z. ground arith in
          let (k, stop, more, w, free, eq) =
            find_from-Found fuel total (next_base s.words total base) s r
              (sym (find_from-used fuel total base s n) ∙ e) in
          (suc k, stop, omega arith, over n w, free, eq)
    ]
