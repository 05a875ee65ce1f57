-- ===== src/Ascii/Number.antt =====
-- Numbers as text: `rt_to_char` and `rt_to_string` of private/minkernel/src/AsciiUtils.cpp.
use nekrnl.Prelude.{
  ℕ, zero, suc, ◌+◌, ◌-◌, ◌/◌, ◌%◌, Bool, true, false, ◌||◌, ◌==◌, if◌then◌else◌, List, [], ◌∷◌,
  get_or, Option, none, some, store,
}
use nekrnl.Prelude.Int.{ℤ, pos, pos_part, ltb_ℤ}
use nekrnl.Ascii.{Memory}

-- `kDigits`
abbrev pub digit_chars : List ℕ
digit_chars =
    b'0' ∷ b'1' ∷ b'2' ∷ b'3' ∷ b'4' ∷ b'5' ∷ b'6' ∷ b'7' ∷ b'8' ∷ b'9' ∷ b'A' ∷ b'B' ∷ b'C' ∷ b'D'
    ∷ b'E' ∷ b'F' ∷ []

-- `rt_to_char`
unfoldable pub to_char : ℕ → ℕ → ℕ
to_char value base = get_or digit_chars (value % base) 0

-- The first loop of `rt_to_string`, on fuel: the digits, least significant first. It returns the
-- number of characters that are written.
unfoldable pub digits_loop : ℕ → ℕ → ℕ → ℕ → ℕ → Memory → Option (ℕ × Memory)
unfolding to_char
digits_loop zero str base value i mem = none
digits_loop (suc fuel) str base value i mem =
    let written = store mem (str + i) (to_char value base) in
    let rest = digits_loop fuel str base (value / base) (i + 1) written in
    if value / base == 0 then some (i + 1, written) else rest

-- The second loop: `i` characters are reversed in place; the rounds left, and `j`.
unfoldable pub swap_loop : ℕ → ℕ → ℕ → ℕ → Memory → Memory
swap_loop zero str i j mem = mem
swap_loop (suc left) str i j mem =
    swap_loop left str i (j + 1)
      (store (store mem (str + j) (mem (str + (i - j - 1)))) (str + (i - j - 1)) (mem (str + j)))

-- `rt_to_string`
unfoldable pub to_string : ℕ → Memory → ℕ → ℕ → ℤ → Option (Bool × Memory)
unfolding digits_loop swap_loop
to_string fuel mem str value base =
    if str == 0 || ltb_ℤ base (pos 2) || ltb_ℤ (pos 16) base
    then some (false, mem)
    else elim (digits_loop fuel str (pos_part base) value 0 mem) [
      | none ↦ none
      | some (i, written) ↦ some (true, swap_loop (i / 2) str i 0 (store written (str + i) 0))
    ]
