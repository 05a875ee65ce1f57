-- ===== src/Ascii/Roundtrip.antt =====
-- The text that `rt_to_string` leaves, and that it reads back as the number.
use native.Mathlib.Nat.{
  add-zero, zero-add, div-one, div-div-eq-div-mul, pow-suc, pow-zero, div-eq_of_lt, div-add-mod,
  mul_comm, mod-lt,
}
use nekrnl.Prelude.{
  ℕ, zero, suc, ◌+◌, ◌-◌, ◌*◌, ◌/◌, ◌%◌, ◌^◌, ◌<◌, ◌≤◌, ◌≡◌, ◌≢◌, ◌⊎◌, refl, sym, ap, ◌∙◌, true,
  false, ◌||◌, ltb, ◌==◌, if◌then◌else◌, some, store, store_self, store_ne, arith, ==_iff, get_or,
  every, every-at,
}
use nekrnl.Prelude.Int.{pos, ltb_ℤ}
use nekrnl.Ascii.{Memory}
use nekrnl.Ascii.Buffer.{Outside}
use mathlib.Core.Path.{ap₂}
use nekrnl.Ascii.Number.{digit_chars, to_char, swap_loop, to_string}
use nekrnl.Ascii.Digits.{Written, swap_loop-inside, swap_loop-outside, digits_loop-Written}

-- `n` characters at `str`, the most significant digit first, with no needless zero before them, and
-- a terminator behind them.
pub record IsNumeral (str base value : ℕ) (mem mem' : Memory) (n : ℕ) : Type 0 where
  pub pos : 0 < n
  pub chars : (k : ℕ) → k < n → mem' (str + k) ≡ to_char (value / base ^ (n - k - 1)) base
  pub terminated : mem' (str + n) ≡ 0
  pub rest : (a : ℕ) → Outside str (n + 1) a → mem' a ≡ mem a
  pub bound : value < base ^ n
  pub lead : (n ≡ 1) ⊎ (base ^ (n - 1) ≤ value)

reversed :
    (str base value n : ℕ) (mem written : Memory)
    → Written str base value 0 mem written n
    → IsNumeral str base value mem (swap_loop (n / 2) str n 0 (store written (str + n) 0)) n
reversed str base value n mem written w = record {
  pos = w.pos;
  chars = λ k h.
      swap_loop-inside (n / 2) str n 0 k (store written (str + n) 0) (omega arith) (omega arith)
        (omega arith)
      ∙ store_ne written (str + n) (str + (n - k - 1)) 0 (λ q. omega arith)
      ∙ ap (λ t. written (t + (n - k - 1))) (sym (add-zero str))
      ∙ w.digits (n - k - 1) (omega arith);
  terminated =
      swap_loop-outside (n / 2) str n 0 (str + n) (store written (str + n) 0) (omega arith)
        (omega arith)
      ∙ store_self written (str + n) 0;
  rest = λ a o.
      swap_loop-outside (n / 2) str n 0 a (store written (str + n) 0) (omega arith) (omega arith)
      ∙ store_ne written (str + n) a 0 (λ q. omega arith)
      ∙ w.rest a (omega arith);
  bound = w.bound;
  lead = w.lead;
}

accepted_base :
    (str base : ℕ)
    → str ≢ 0
    → 2 ≤ base
    → base ≤ 16
    → (str == 0 || ltb_ℤ (pos base) (pos 2) || ltb_ℤ (pos 16) (pos base)) ≡ false
accepted_base str base hs lo hi = ground arith

-- For a buffer that is not null, a base from 2 to 16 and a 64-bit value, `rt_to_string` ends within
-- 64 rounds, returns true, and leaves the digits of the value in that base: the most significant
-- first, with no leading zero unless the value is below the base, then the terminator; no other
-- byte is changed.
pub to_string-IsNumeral :
    (mem : Memory) (str value base : ℕ)
    → str ≢ 0
    → 2 ≤ base
    → base ≤ 16
    → value < 2 ^ 64
    → (n : ℕ) × (mem' : Memory) × (to_string 64 mem str value (pos base) ≡ some (true, mem'))
      × IsNumeral str base value mem mem' n
unfolding to_string
to_string-IsNumeral mem str value base hs lo hi hv =
    let (n, written, e, w) = digits_loop-Written 64 str base value 0 mem lo hv (omega arith) in
    (
      n,
      swap_loop (n / 2) str n 0 (store written (str + n) 0),
      rw (accepted_base str base hs lo hi, e)
          (ap (λ k. some (true, swap_loop (k / 2) str k 0 (store written (str + k) 0)))
            (zero-add n)),
      reversed str base value n mem written w,
    )

-- The value of a digit.
unfoldable pub from_char : ℕ → ℕ
from_char c = if ltb c b'A' then c - b'0' else c - b'A' + 10

-- The number that `n` characters spell.
unfoldable pub spelled : ℕ → Memory → ℕ → ℕ → ℕ → ℕ
unfolding from_char
spelled base mem p zero acc = acc
spelled base mem p (suc n) acc = spelled base mem (p + 1) n (acc * base + from_char (mem p))

digit_check : every (λ d. from_char (get_or digit_chars d 0) == d) 16 ≡ true
unfolding every from_char
digit_check = refl

from_char-to_char : (v base : ℕ) → 2 ≤ base → base ≤ 16 → from_char (to_char v base) ≡ v % base
unfolding to_char
from_char-to_char v base lo hi =
    (==_iff _ _).0 (every-at _ 16 digit_check (v % base) (below v base lo hi))
  where
    below : (v base : ℕ) → 2 ≤ base → base ≤ 16 → v % base < 16
    below v base lo hi = omega (arith, mod-lt v {m = base} (omega arith))

shorter :
    (value base m : ℕ) → value / base ^ suc m * base + value / base ^ m % base ≡ value / base ^ m
shorter value base m =
    ap (λ t. t * base + value / base ^ m % base)
      (ap (λ t. value / t) (pow-suc base m) ∙ sym (div-div-eq-div-mul value (base ^ m) base))
    ∙ ap (λ t. t + value / base ^ m % base) (mul_comm (value / base ^ m / base) base)
    ∙ div-add-mod (value / base ^ m) base

suc_index : (m j : ℕ) → suc m - suc j - 1 ≡ m - j - 1
suc_index m j = omega arith

spelled-value :
    (base value m p acc : ℕ) (mem : Memory)
    → 2 ≤ base
    → base ≤ 16
    → acc ≡ value / base ^ m
    → ((j : ℕ) → j < m → mem (p + j) ≡ to_char (value / base ^ (m - j - 1)) base)
    → spelled base mem p m acc ≡ value
unfolding spelled
spelled-value base value zero p acc mem lo hi e h =
    e ∙ ap (λ t. value / t) (pow-zero base) ∙ div-one value
spelled-value base value (suc m) p acc mem lo hi e h =
    spelled-value base value m (p + 1) (acc * base + from_char (mem p)) mem lo hi
      (ap₂ (λ a c. a * base + from_char c) e
          (ap mem (sym (add-zero p))
            ∙ h 0 (omega arith)
            ∙ ap (λ t. to_char (value / base ^ t) base) (first m))
        ∙ ap (λ t. value / base ^ suc m * base + t)
            (from_char-to_char (value / base ^ m) base lo hi)
        ∙ shorter value base m)
      (λ j l.
        ap mem (next p j)
        ∙ h (suc j) (omega arith)
        ∙ ap (λ t. to_char (value / base ^ t) base) (suc_index m j))
  where
    first : (m : ℕ) → suc m - 0 - 1 ≡ m
    first m = omega arith

    next : (p j : ℕ) → p + 1 + j ≡ p + suc j
    next p j = omega arith

-- For a buffer that is not null, a base from 2 to 16 and a 64-bit value, the characters that
-- `rt_to_string` writes spell the value in that base: reading them back gives the number.
pub spelled-to_string :
    (mem : Memory) (str value base : ℕ)
    → str ≢ 0
    → 2 ≤ base
    → base ≤ 16
    → value < 2 ^ 64
    → (n : ℕ) × (mem' : Memory) × (to_string 64 mem str value (pos base) ≡ some (true, mem'))
      × (spelled base mem' str n 0 ≡ value)
spelled-to_string mem str value base hs lo hi hv =
    let (n, mem', e, w) = to_string-IsNumeral mem str value base hs lo hi hv in
    (n, mem', e, spelled-value base value n str 0 mem' lo hi (sym (div-eq_of_lt w.bound)) w.chars)
