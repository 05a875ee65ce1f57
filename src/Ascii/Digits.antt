-- ===== src/Ascii/Digits.antt =====
-- `rt_to_string` writes the digits of the number, the most significant first.
use nekrnl.Prelude.{
  ℕ, zero, suc, ◌+◌, ◌-◌, ◌*◌, ◌/◌, ◌^◌, ◌<◌, ◌≤◌, ◌≡◌, ◌≢◌, ◌⊎◌, inl, inr, refl, sym, ap, ◌∙◌,
  ◌==◌, some, store, store_ne, store_hit, arith, Bool-cases, dec_lt,
}
use native.Mathlib.Nat.{
  div-one, div-div-eq-div-mul, mul_comm, one-mul, pow-suc, pow-zero, div-eq_of_lt,
  div-lt_iff_lt-mul, le-div_iff_mul-le,
}
use nekrnl.Ascii.{Memory}
use nekrnl.Ascii.Buffer.{Outside}
use nekrnl.Ascii.Number.{to_char, digits_loop, swap_loop}

abbrev lower : ℕ → ℕ → ℕ → Memory → Memory
lower str i j mem = store mem (str + j) (mem (str + (i - j - 1)))

abbrev swapped : ℕ → ℕ → ℕ → Memory → Memory
swapped str i j mem =
    store (store mem (str + j) (mem (str + (i - j - 1)))) (str + (i - j - 1)) (mem (str + j))

swapped_off :
    (str i j a : ℕ) (mem : Memory)
    → a ≢ str + j
    → a ≢ str + (i - j - 1)
    → swapped str i j mem a ≡ mem a
swapped_off str i j a mem n m =
    store_ne (lower str i j mem) (str + (i - j - 1)) a (mem (str + j)) m
    ∙ store_ne mem (str + j) a (mem (str + (i - j - 1))) n

swapped_low :
    (str i j a : ℕ) (mem : Memory)
    → a ≡ str + j
    → a ≢ str + (i - j - 1)
    → swapped str i j mem a ≡ mem (str + (i - j - 1))
swapped_low str i j a mem e m =
    store_ne (lower str i j mem) (str + (i - j - 1)) a (mem (str + j)) m
    ∙ store_hit mem (str + j) a _ e

swapped_high :
    (str i j a : ℕ) (mem : Memory) → a ≡ str + (i - j - 1) → swapped str i j mem a ≡ mem (str + j)
swapped_high str i j a mem e = store_hit (lower str i j mem) (str + (i - j - 1)) a (mem (str + j)) e

pub swap_loop-outside :
    (left str i j a : ℕ) (mem : Memory)
    → left + j ≡ i / 2
    → (a < str + j) ⊎ (str + i ≤ a + j)
    → swap_loop left str i j mem a ≡ mem a
unfolding swap_loop
swap_loop-outside zero str i j a mem e o = refl
swap_loop-outside (suc left) str i j a mem e o =
    swap_loop-outside left str i (j + 1) a (swapped str i j mem) (omega arith) (omega arith)
    ∙ swapped_off str i j a mem (λ q. omega arith) (λ q. omega arith)

-- One round exchanges two characters, and the rest of the loop the characters between them.
pub swap_loop-inside :
    (left str i j k : ℕ) (mem : Memory)
    → left + j ≡ i / 2
    → j ≤ k
    → k + j < i
    → swap_loop left str i j mem (str + k) ≡ mem (str + (i - k - 1))
unfolding swap_loop
swap_loop-inside zero str i j k mem e lo hi = ap (λ t. mem (str + t)) (omega arith)
swap_loop-inside (suc left) str i j k mem e lo hi = elim (dec_lt j k) [
  | no low ↦
      swap_loop-outside left str i (j + 1) (str + k) (swapped str i j mem) (omega arith)
        (omega arith)
      ∙ swapped_low str i j (str + k) mem (omega arith) (λ q. omega arith)
      ∙ ap (λ t. mem (str + t)) (omega arith)
  | yes above ↦ elim (dec_lt (k + j + 1) i) [
    | no high ↦
        swap_loop-outside left str i (j + 1) (str + k) (swapped str i j mem) (omega arith)
          (omega arith)
        ∙ swapped_high str i j (str + k) mem (omega arith)
        ∙ ap (λ t. mem (str + t)) (omega arith)
    | yes below ↦
        swap_loop-inside left str i (j + 1) k (swapped str i j mem) (omega arith) (omega arith)
          (omega arith)
        ∙ swapped_off str i j (str + (i - k - 1)) mem (λ q. omega arith) (λ q. omega arith)
  ]
]

-- What the first loop has written: `n` digits of `value` from the least significant one on.
pub record Written (str base value i : ℕ) (mem mem' : Memory) (n : ℕ) : Type 0 where
  pub pos : 0 < n
  pub digits : (j : ℕ) → j < n → mem' (str + i + j) ≡ to_char (value / base ^ j) base
  pub rest : (a : ℕ) → Outside (str + i) n a → mem' a ≡ mem a
  pub bound : value < base ^ n
  pub lead : (n ≡ 1) ⊎ (base ^ (n - 1) ≤ value)

shift_index : (a i j : ℕ) → a + i + suc j ≡ a + (i + 1) + j
shift_index a i j = omega arith

first_digit : (value base : ℕ) → to_char (value / base ^ 0) base ≡ to_char value base
first_digit value base =
    ap (λ v. to_char v base) (ap (λ t. value / t) (pow-zero base) ∙ div-one value)

next_digit :
    (value base j : ℕ)
    → to_char (value / base / base ^ j) base ≡ to_char (value / base ^ suc j) base
next_digit value base j =
    ap (λ v. to_char v base)
      (div-div-eq-div-mul value base (base ^ j)
        ∙ ap (λ t. value / t) (mul_comm base (base ^ j) ∙ sym (pow-suc base j)))

Written-one :
    (str base value i : ℕ) (mem : Memory)
    → 2 ≤ base
    → value / base ≡ 0
    → Written str base value i mem (store mem (str + i) (to_char value base)) 1
Written-one str base value i mem hb z = record {
  pos = omega arith;
  digits = λ j h. at_start j h;
  rest = λ a o. store_ne mem (str + i) a (to_char value base) (λ q. omega arith);
  bound =
      rw (pow-suc base 0, pow-zero base)
        ((div-lt_iff_lt-mul {k = base} {x = value} {y = 1} (omega arith)).0 (omega (arith, z)));
  lead = inl refl;
}
  where
    at_start :
        (j : ℕ)
        → j < 1
        → store mem (str + i) (to_char value base) (str + i + j) ≡ to_char (value / base ^ j) base
    at_start zero h =
        store_hit mem (str + i) (str + i + 0) (to_char value base) (omega arith)
        ∙ sym (first_digit value base)
    at_start (suc j) h = absurd (omega arith)

minus_one : (n : ℕ) → suc n - 1 ≡ n
minus_one n = omega arith

pow_one : (b : ℕ) → b ^ (suc (suc zero) - 1) ≡ b
pow_one b = pow-suc b 0 ∙ ap (λ t. t * b) (pow-zero b) ∙ one-mul b

pow_again : (b n : ℕ) → b ^ (suc (suc (suc n)) - 1) ≡ b ^ suc n * b
pow_again b n = ap (λ t. b ^ t) (minus_one (suc (suc n))) ∙ pow-suc b (suc n)

lead_suc :
    (base value n : ℕ)
    → 2 ≤ base
    → value / base ≢ 0
    → 0 < n
    → (n ≡ 1) ⊎ (base ^ (n - 1) ≤ value / base)
    → base ^ (suc n - 1) ≤ value
lead_suc base value zero hb nz hn h = absurd (omega arith)
lead_suc base value (suc zero) hb nz hn h = rw (pow_one base) (
    rw (one-mul base) at (le-div_iff_mul-le {k = base} {x = 1} {y = value} (omega arith)).0
      (omega arith))
lead_suc base value (suc (suc n)) hb nz hn h =
    rw (pow_again base n)
      ((le-div_iff_mul-le {k = base} {x = base ^ suc n} {y = value} (omega arith)).0 (by_lead n h))
  where
    by_lead :
        (n : ℕ)
        → (suc (suc n) ≡ 1) ⊎ (base ^ (suc (suc n) - 1) ≤ value / base)
        → base ^ suc n ≤ value / base
    by_lead n (inl e) = absurd (omega arith)
    by_lead n (inr l) = rw (minus_one (suc n)) at l

Written-suc :
    (str base value i n : ℕ) (mem mem' : Memory)
    → 2 ≤ base
    → value / base ≢ 0
    → Written str base (value / base) (i + 1) (store mem (str + i) (to_char value base)) mem' n
    → Written str base value i mem mem' (suc n)
Written-suc str base value i n mem mem' hb nz w = record {
  pos = omega arith;
  digits = at_index;
  rest = λ a o.
      w.rest a (omega arith) ∙ store_ne mem (str + i) a (to_char value base) (λ q. omega arith);
  bound =
      rw (pow-suc base n)
        ((div-lt_iff_lt-mul {k = base} {x = value} {y = base ^ n} (omega arith)).0 w.bound);
  lead = inr (lead_suc base value n hb nz w.pos w.lead);
}
  where
    at_index : (j : ℕ) → j < suc n → mem' (str + i + j) ≡ to_char (value / base ^ j) base
    at_index zero h =
        w.rest (str + i + 0) (omega arith)
        ∙ store_hit mem (str + i) (str + i + 0) (to_char value base) (omega arith)
        ∙ sym (first_digit value base)
    at_index (suc j) h =
        ap mem' (shift_index str i j) ∙ w.digits j (omega arith) ∙ next_digit value base j

half_below : (base value fuel : ℕ) → 2 ≤ base → value < 2 ^ suc fuel → value / base < 2 ^ fuel
half_below base value fuel hb hv =
    (div-lt_iff_lt-mul {k = base} {x = value} {y = 2 ^ fuel} (omega arith)).1
      (grind (arith, pow-suc 2 fuel))

some_left : (base value fuel : ℕ) → 2 ≤ base → value < 2 ^ suc fuel → value / base ≢ 0 → 0 < fuel
some_left base value zero hb hv nz = absurd (nz (div-eq_of_lt (omega arith)))
some_left base value (suc fuel) hb hv nz = omega arith

pub digits_loop-Written :
    (fuel str base value i : ℕ) (mem : Memory)
    → 2 ≤ base
    → value < 2 ^ fuel
    → 0 < fuel
    → (n : ℕ) × (mem' : Memory) × (digits_loop fuel str base value i mem ≡ some (i + n, mem'))
      × Written str base value i mem mem' n
unfolding digits_loop
digits_loop-Written zero str base value i mem hb hv hf = absurd (omega arith)
digits_loop-Written (suc fuel) str base value i mem hb hv hf =
    elim (Bool-cases (value / base == 0)) [
      | inl done ↦ (
        1,
        store mem (str + i) (to_char value base),
        rw done,
        Written-one str base value i mem hb (ground arith),
      )
      | inr more ↦
          let (n, mem', e, w) =
            digits_loop-Written fuel str base (value / base) (i + 1)
              (store mem (str + i) (to_char value base)) hb (half_below base value fuel hb hv)
              (some_left base value fuel hb hv (ground arith)) in
          (
            suc n,
            mem',
            rw more (e ∙ ap (λ k. some (k, mem')) (omega arith)),
            Written-suc str base value i n mem mem' hb (ground arith) w,
          )
    ]
