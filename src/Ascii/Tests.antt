-- ===== src/Ascii/Tests.antt =====
-- Runs of the string functions, and the theorems at a small memory.
use nekrnl.Prelude.{
  ℕ, ◌+◌, ◌-◌, ◌<◌, ◌≡◌, ◌↔◌, refl, inl, inr, arith, true, false, some, List, [], ◌∷◌, get_or, leb,
  if◌then◌else◌, All, zero, suc, every, every-at, not, ◌==◌,
}
use nekrnl.Prelude.Int.{pos, negsuc, ◌-ℤ◌}
use mathlib.Core.Option
use mathlib.Core.Logic.{◌≢◌}
use nekrnl.Ascii.{
  Memory, copy_memory_safe, string_cmp, string_len, string_len_max, alloc_string, string_in_string,
  string_has_char, to_uppercase, to_lower, is_alnum, set_memory, fill,
}
use nekrnl.Ascii.Buffer.{Copied, copy_memory_safe-Copied}
use nekrnl.Ascii.Text.{
  IsString, IsCopy, SameBytes, AreBytes, string_cmp-eq_zero, string_len-IsString,
  alloc_string-IsCopy,
}
use nekrnl.Ascii.Search.{IsFirst, positions, string_in_string-IsFirst}
use nekrnl.Ascii.Number.{to_string}
use nekrnl.Ascii.Roundtrip.{IsNumeral, to_string-IsNumeral, spelled, spelled-to_string}

abbrev cells : List ℕ
cells = b'K' ∷ b'e' ∷ b'r' ∷ b'n' ∷ b'e' ∷ b'l' ∷ 0 ∷ 7 ∷ b'n' ∷ b'e' ∷ 0 ∷ []

-- "Kernel" at 16 and "ne" at 24.
abbrev memory : Memory
memory a = if leb 16 a then get_or cells (a - 16) 0 else 0

get_or-lt : (xs : List ℕ) (i : ℕ) → All (λ x. x < 256) xs → get_or xs i 0 < 256
get_or-lt [] i h = omega arith
get_or-lt (x ∷ xs) zero h = h.0
get_or-lt (x ∷ xs) (suc i) h = get_or-lt xs i h.1

memory-AreBytes : AreBytes memory
memory-AreBytes a = ground (arith, get_or-lt cells (a - 16) (omega arith))

nonzero :
    (p n : ℕ)
    → every (λ i. not (memory (p + i) == 0)) n ≡ true
    → (i : ℕ) → i < n
    → memory (p + i) ≢ 0
nonzero p n h i l z = absurd (contradiction (memory (p + i)) (every-at _ n h i l) z)
  where
    contradiction : (m : ℕ) → not (m == 0) ≡ true → m ≡ 0 → ⊥
    contradiction m t z = ground arith

kernel : IsString memory 16 6
unfolding every
kernel = record { bytes = nonzero 16 6 refl; terminator = refl }

ne : IsString memory 24 2
unfolding every
ne = record { bytes = nonzero 24 2 refl; terminator = refl }

found_at : string_in_string 8 memory 16 24 ≡ some 19
unfolding string_in_string string_len nekrnl.Ascii.find_from string_cmp ◌-ℤ◌
found_at = refl

hex :
    Option.map (λ r. r.1 100 ∷ r.1 101 ∷ r.1 102 ∷ []) (to_string 64 memory 100 0x2f (pos 16))
    ≡ some (b'2' ∷ b'F' ∷ 0 ∷ [])
unfolding to_string
hex = refl

upper : to_uppercase (pos b'q') ≡ pos b'Q'
unfolding to_uppercase ◌-ℤ◌
upper = refl

not_alnum : is_alnum (negsuc 4) ≡ false
unfolding is_alnum
not_alnum = refl

copy_memory_safe-Copied_example :
    let (r, mem') = copy_memory_safe memory 16 40 6 8 in Copied memory 16 40 6 8 r mem'
copy_memory_safe-Copied_example =
    copy_memory_safe-Copied memory 16 40 6 8 (omega arith) (omega arith) (omega arith)
      (inr (omega arith))

string_cmp-eq_zero_example : (string_cmp memory 19 24 2 ≡ pos 0) ↔ SameBytes memory 19 24 2
string_cmp-eq_zero_example = string_cmp-eq_zero memory 19 24 2 memory-AreBytes

string_len-IsString_example : string_len 8 memory 16 ≡ some 6
string_len-IsString_example = string_len-IsString 8 memory 16 6 kernel (omega arith)

alloc_string-IsCopy_example :
    (mem' : Memory) × (alloc_string 8 memory 16 40 ≡ some (40, mem')) × IsCopy memory 16 6 40 mem'
alloc_string-IsCopy_example =
    alloc_string-IsCopy 8 memory 16 6 40 kernel (omega arith) (omega arith) (omega arith)
      (omega arith) (inl (omega arith))

string_in_string-IsFirst_example :
    (r : ℕ) × (string_in_string 8 memory 16 24 ≡ some r) × IsFirst memory 16 24 2 (positions 6 2) r
string_in_string-IsFirst_example =
    string_in_string-IsFirst 8 memory 16 24 6 2 memory-AreBytes (omega arith) (omega arith) kernel
      ne (omega arith) (omega arith)

to_string-IsNumeral_example :
    (n : ℕ) × (mem' : Memory) × (to_string 64 memory 100 0x2f (pos 16) ≡ some (true, mem'))
    × IsNumeral 100 16 0x2f memory mem' n
to_string-IsNumeral_example =
    to_string-IsNumeral memory 100 0x2f 16 (omega arith) (omega arith) (omega arith) (omega arith)

spelled-to_string_example :
    (n : ℕ) × (mem' : Memory) × (to_string 64 memory 100 0x2f (pos 16) ≡ some (true, mem'))
    × (spelled 16 mem' 100 n 0 ≡ 0x2f)
spelled-to_string_example =
    spelled-to_string memory 100 0x2f 16 (omega arith) (omega arith) (omega arith) (omega arith)
