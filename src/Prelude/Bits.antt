-- ===== src/Prelude/Bits.antt =====
-- Bitwise operations at variables, from the digit recursion that the native operations stand for.
use Prim.Native.Nat.{
  ℕ, zero, suc, ◌+◌, ◌-◌, ◌*◌, ◌/◌, ◌%◌, ◌^◌, ◌≤◌, ◌<◌, max, bit_or, bit_xor, digits,
  bit_or-bitwise, bit_xor-bitwise, differ, min, bit_and, bit_and-bitwise,
}
use mathlib.Core.Path.{◌≡◌, refl, ◌∙◌, ap, ap₂, sym, subst}
use native.Mathlib.Nat.{
  pow-suc, mul-one, mul_comm, mod-lt, div-add-mod, div-one, div-div-eq-div-mul,
}
use native.Mathlib.Omega.{arith}

-- One unit of fuel more than the number needs changes no digit.
digits-spare :
    (g : ℕ → ℕ) (f : ℕ → ℕ → ℕ) (b n a : ℕ) → a ≤ n → digits g f (suc n) a b ≡ digits g f n a b
digits-spare g f b zero zero fits = refl
digits-spare g f b (suc n) zero fits = refl
digits-spare g f b zero (suc a) fits = absurd (omega arith)
digits-spare g f b (suc n) (suc a) fits =
    let rest = digits-spare g f (b / 2) n (suc a / 2) (omega arith) in omega (arith, rest)

suc_sum : (k a : ℕ) → suc k + a ≡ suc (k + a)
suc_sum k a = omega arith

-- So any fuel from the number up gives its digits.
digits-surplus : (g : ℕ → ℕ) (f : ℕ → ℕ → ℕ) (b a k : ℕ) → digits g f (k + a) a b ≡ digits g f a a b
digits-surplus g f b a zero = ap (λ n. digits g f n a b) (omega arith)
digits-surplus g f b a (suc k) =
    ap (λ n. digits g f n a b) (suc_sum k a)
    ∙ digits-spare g f b (k + a) a (omega arith)
    ∙ digits-surplus g f b a k

half_digits :
    (g : ℕ → ℕ) (f : ℕ → ℕ → ℕ) (a b : ℕ)
    → digits g f a (suc a / 2) b ≡ digits g f (suc a / 2) (suc a / 2) b
half_digits g f a b =
    subst (λ n. digits g f n (suc a / 2) b ≡ digits g f (suc a / 2) (suc a / 2) b) (omega arith)
      (digits-surplus g f b (suc a / 2) (a - suc a / 2))

differ_mod : (a b : ℕ) → a < 2 → b < 2 → differ a b ≡ (a + b) % 2
differ_mod zero b h k = omega arith
differ_mod (suc zero) zero h k = refl
differ_mod (suc zero) (suc zero) h k = refl
differ_mod (suc zero) (suc (suc b)) h k = absurd (omega arith)
differ_mod (suc (suc a)) b h k = absurd (omega arith)

pub zero-xor : (b : ℕ) → bit_xor 0 b ≡ b
zero-xor b = bit_xor-bitwise 0 b

xor_step : (a b : ℕ) → bit_xor a b ≡ bit_xor (a / 2) (b / 2) * 2 + (a + b) % 2
xor_step zero b = omega (arith, zero-xor b, zero-xor (b / 2))
xor_step (suc a) b = omega (
  arith,
  bit_xor-bitwise (suc a) b,
  bit_xor-bitwise (suc a / 2) (b / 2),
  half_digits (λ b. b) differ a (b / 2),
  differ_mod (suc a % 2) (b % 2) (omega arith) (omega arith),
)

pub zero-or : (b : ℕ) → bit_or 0 b ≡ b
zero-or b = bit_or-bitwise 0 b

or_step : (a b : ℕ) → bit_or a b ≡ bit_or (a / 2) (b / 2) * 2 + max (a % 2) (b % 2)
or_step zero b = omega (arith, zero-or b, zero-or (b / 2))
or_step (suc a) b = omega (
  arith,
  bit_or-bitwise (suc a) b,
  bit_or-bitwise (suc a / 2) (b / 2),
  half_digits (λ b. b) max a (b / 2),
)

zero-and : (b : ℕ) → bit_and 0 b ≡ 0
zero-and b = bit_and-bitwise 0 b

and_step : (a b : ℕ) → bit_and a b ≡ bit_and (a / 2) (b / 2) * 2 + min (a % 2) (b % 2)
and_step zero b = omega (arith, zero-and b, zero-and (b / 2))
and_step (suc a) b = omega (
  arith,
  bit_and-bitwise (suc a) b,
  bit_and-bitwise (suc a / 2) (b / 2),
  half_digits (λ b. zero) min a (b / 2),
)

pub and_half : (a b : ℕ) → bit_and a b / 2 ≡ bit_and (a / 2) (b / 2)
and_half a b = omega (arith, and_step a b)

pub and_odd : (a b : ℕ) → bit_and a b % 2 ≡ min (a % 2) (b % 2)
and_odd a b = omega (arith, and_step a b)

pub xor_half : (a b : ℕ) → bit_xor a b / 2 ≡ bit_xor (a / 2) (b / 2)
xor_half a b = omega (arith, xor_step a b)

pub xor_odd : (a b : ℕ) → bit_xor a b % 2 ≡ (a + b) % 2
xor_odd a b = omega (arith, xor_step a b)

pub or_half : (a b : ℕ) → bit_or a b / 2 ≡ bit_or (a / 2) (b / 2)
or_half a b = omega (arith, or_step a b)

pub or_odd : (a b : ℕ) → bit_or a b % 2 ≡ max (a % 2) (b % 2)
or_odd a b = omega (arith, or_step a b)

-- Two numbers with the same half and the same last digit are equal.
eq_of_digits : (a b : ℕ) → a / 2 ≡ b / 2 → a % 2 ≡ b % 2 → a ≡ b
eq_of_digits a b h k = omega arith

comm_below : (n a b : ℕ) → a ≤ n → b ≤ n → bit_xor a b ≡ bit_xor b a
comm_below zero zero zero h k = refl
comm_below zero zero (suc b) h k = absurd (omega arith)
comm_below zero (suc a) b h k = absurd (omega arith)
comm_below (suc n) a b h k =
    eq_of_digits _ _
      (omega (
        arith,
        xor_half a b,
        xor_half b a,
        comm_below n (a / 2) (b / 2) (omega arith) (omega arith),
      ))
      (omega (arith, xor_odd a b, xor_odd b a))

pub xor_comm : (a b : ℕ) → bit_xor a b ≡ bit_xor b a
xor_comm a b = comm_below (a + b) a b (omega arith) (omega arith)

pub xor-zero : (a : ℕ) → bit_xor a 0 ≡ a
xor-zero a = xor_comm a 0 ∙ zero-xor a

assoc_below : (n a b c : ℕ) → a + b + c ≤ n → bit_xor (bit_xor a b) c ≡ bit_xor a (bit_xor b c)
assoc_below zero a b c h = let e : a ≡ 0 = omega arith in rw (e, zero-xor b, zero-xor (bit_xor b c))
assoc_below (suc n) a b c h =
    eq_of_digits _ _
      (rw (xor_half (bit_xor a b) c, xor_half a b, xor_half a (bit_xor b c), xor_half b c)
        (assoc_below n (a / 2) (b / 2) (c / 2) (omega arith)))
      (omega (arith, xor_odd (bit_xor a b) c, xor_odd a b, xor_odd a (bit_xor b c), xor_odd b c))

pub xor_assoc : (a b c : ℕ) → bit_xor (bit_xor a b) c ≡ bit_xor a (bit_xor b c)
xor_assoc a b c = assoc_below (a + b + c) a b c (omega arith)

self_below : (n a : ℕ) → a ≤ n → bit_xor a a ≡ 0
self_below zero a h = let e : a ≡ 0 = omega arith in rw e
self_below (suc n) a h = omega (arith, xor_step a a, self_below n (a / 2) (omega arith))

pub xor_self : (a : ℕ) → bit_xor a a ≡ 0
xor_self a = self_below a a (omega arith)

pub xor-lt_pow : (k a b : ℕ) → a < 2 ^ k → b < 2 ^ k → bit_xor a b < 2 ^ k
xor-lt_pow zero a b h l = let e : a ≡ 0 = omega arith in rw (e, zero-xor b) l
xor-lt_pow (suc k) a b h l = omega (
  arith,
  pow-suc 2 k,
  xor_step a b,
  xor-lt_pow k (a / 2) (b / 2) (omega (arith, pow-suc 2 k)) (omega (arith, pow-suc 2 k)),
)

pub xor_regroup :
    (a b c d : ℕ) → bit_xor (bit_xor a b) (bit_xor c d) ≡ bit_xor (bit_xor a c) (bit_xor b d)
xor_regroup a b c d =
    xor_assoc a b (bit_xor c d)
    ∙ ap (λ k. bit_xor a k)
        (sym (xor_assoc b c d) ∙ ap (λ k. bit_xor k d) (xor_comm b c) ∙ xor_assoc c b d)
    ∙ sym (xor_assoc a c (bit_xor b d))

-- Numbers with no digit in common.
pub double_pow : (k m : ℕ) → m * 2 ^ suc k ≡ m * 2 ^ k * 2
double_pow k m = rw pow-suc (omega arith)

half_pow : (k m : ℕ) → m * 2 ^ suc k / 2 ≡ m * 2 ^ k
half_pow k m = omega (arith, double_pow k m)

pub xor_disjoint : (k m r : ℕ) → r < 2 ^ k → bit_xor (m * 2 ^ k) r ≡ m * 2 ^ k + r
xor_disjoint zero m r h = let e : r ≡ 0 = omega arith in rw (e, xor-zero (m * 2 ^ 0)) (omega arith)
xor_disjoint (suc k) m r h = omega (
  arith,
  xor_step (m * 2 ^ suc k) r,
  ap (λ t. bit_xor t (r / 2)) (half_pow k m),
  double_pow k m,
  xor_disjoint k m (r / 2) (omega (arith, pow-suc 2 k)),
)

half_double : (a : ℕ) → a * 2 / 2 ≡ a
half_double a = omega arith

pub xor_scale : (k a b : ℕ) → bit_xor (a * 2 ^ k) (b * 2 ^ k) ≡ bit_xor a b * 2 ^ k
xor_scale zero a b = rw (mul-one a, mul-one b, mul-one (bit_xor a b))
xor_scale (suc k) a b =
    rw (double_pow k a, double_pow k b, double_pow k (bit_xor a b))
      (eq_of_digits _ _
        (rw (xor_half (a * 2 ^ k * 2) (b * 2 ^ k * 2)) (
          omega (
            arith,
            ap₂ bit_xor (half_double (a * 2 ^ k)) (half_double (b * 2 ^ k)),
            xor_scale k a b,
          )))
        (omega (arith, xor_odd (a * 2 ^ k * 2) (b * 2 ^ k * 2))))

-- A number is its high digits and its low digits.
pub xor_split : (k x : ℕ) → 0 < 2 ^ k → bit_xor (x / 2 ^ k * 2 ^ k) (x % 2 ^ k) ≡ x
xor_split k x p =
    xor_disjoint k (x / 2 ^ k) (x % 2 ^ k) (mod-lt x p)
    ∙ (rw (mul_comm (x / 2 ^ k) (2 ^ k)) (div-add-mod x (2 ^ k)))

div_double : (k x : ℕ) → x / 2 ^ suc k ≡ x / 2 ^ k / 2
div_double k x = rw pow-suc (sym (div-div-eq-div-mul x (2 ^ k) 2))

pub xor_div_pow : (k a b : ℕ) → bit_xor a b / 2 ^ k ≡ bit_xor (a / 2 ^ k) (b / 2 ^ k)
xor_div_pow zero a b = rw (div-one a, div-one b) (div-one (bit_xor a b))
xor_div_pow (suc k) a b =
    div_double k (bit_xor a b)
    ∙ ap (λ t. t / 2) (xor_div_pow k a b)
    ∙ xor_half (a / 2 ^ k) (b / 2 ^ k)
    ∙ ap₂ bit_xor (sym (div_double k a)) (sym (div_double k b))
