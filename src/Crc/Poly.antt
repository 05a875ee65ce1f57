-- ===== src/Crc/Poly.antt =====
-- The checksum against its definition by polynomial division, a bit at a time.
use nekrnl.Prelude.{
  every, every-at, ℕ, zero, suc, ◌+◌, ◌*◌, ◌/◌, ◌%◌, ◌^◌, ◌<◌, ◌≡◌, refl, sym, ap, ◌∙◌, true, false,
  bit_xor, get_or, ltb, ◌==◌, ==_iff, if◌then◌else◌, List, [], ◌∷◌, arith, Bool-cases, inl, inr,
  ◌≢◌,
}
use nekrnl.Prelude.Int.{ℤ, pos_part}
use nekrnl.Prelude.Bits.{
  xor_half, xor_odd, xor_comm, xor_assoc, xor-zero, xor_regroup, xor_split, xor_disjoint, xor_scale,
  double_pow, xor_div_pow,
}
use native.Mathlib.Nat.{mul-one, add_comm}
use mathlib.Core.Path.{ap₂}
use nekrnl.Crc.{checksum_polys, sign_extend, crc_step, crc_loop, complement, calculate_crc32}

-- The reflected CRC-32 polynomial.
abbrev pub poly : ℕ
poly = 0xedb8_8320

-- What a digit that is shifted out adds.
abbrev pub feed : ℕ → ℕ
feed b = if b == 0 then 0 else poly

-- Division by one more power of x.
unfoldable pub shift : ℕ → ℕ
shift x = bit_xor (x / 2) (feed (x % 2))

unfoldable pub shifts : ℕ → ℕ → ℕ
unfolding shift
shifts zero x = x
shifts (suc k) x = shifts k (shift x)

-- The remainder after the bytes, least significant bit first.
unfoldable pub remainder : ℕ → List ℕ → ℕ
unfolding shifts
remainder crc [] = crc
remainder crc (c ∷ cs) = remainder (shifts 8 (bit_xor crc c)) cs

-- The `n` bytes from an address on.
unfoldable pub bytes : ℕ → (ℕ → ℕ) → ℕ → List ℕ
bytes zero mem at = []
bytes (suc n) mem at = mem at ∷ bytes n mem (at + 1)

table_check : every (λ i. get_or checksum_polys i 0 == shifts 8 i) 256 ≡ true
unfolding every shifts checksum_polys
table_check = refl

-- Each entry of the table is the remainder of its index.
pub table-shifts : (i : ℕ) → i < 256 → get_or checksum_polys i 0 ≡ shifts 8 i
table-shifts i h = (==_iff _ _).0 (every-at _ 256 table_check i h)

feed-xor : (p q : ℕ) → p < 2 → q < 2 → feed ((p + q) % 2) ≡ bit_xor (feed p) (feed q)
feed-xor zero zero h k = refl
feed-xor zero (suc zero) h k = refl
feed-xor (suc zero) zero h k = refl
feed-xor (suc zero) (suc zero) h k = refl
feed-xor zero (suc (suc q)) h k = absurd (omega arith)
feed-xor (suc zero) (suc (suc q)) h k = absurd (omega arith)
feed-xor (suc (suc p)) q h k = absurd (omega arith)

odd_sum : (a b : ℕ) → bit_xor a b % 2 ≡ (a % 2 + b % 2) % 2
odd_sum a b = omega (arith, xor_odd a b)

-- Division is linear.
shift-xor : (a b : ℕ) → shift (bit_xor a b) ≡ bit_xor (shift a) (shift b)
unfolding shift
shift-xor a b =
    ap₂ bit_xor (xor_half a b)
      (ap feed (odd_sum a b) ∙ feed-xor (a % 2) (b % 2) (omega arith) (omega arith))
    ∙ xor_regroup (a / 2) (b / 2) (feed (a % 2)) (feed (b % 2))

shifts-xor : (k a b : ℕ) → shifts k (bit_xor a b) ≡ bit_xor (shifts k a) (shifts k b)
unfolding shifts
shifts-xor zero a b = refl
shifts-xor (suc k) a b = rw (shift-xor a b) (shifts-xor k (shift a) (shift b))

-- Dividing a number whose low digits are 0 only drops them.
shift-double : (m : ℕ) → shift (m * 2) ≡ m
unfolding shift
shift-double m = ap₂ bit_xor (half m) (ap feed (even m)) ∙ xor-zero m
  where
    half : (m : ℕ) → m * 2 / 2 ≡ m
    half m = omega arith

    even : (m : ℕ) → m * 2 % 2 ≡ 0
    even m = omega arith

shifts-scale : (k m : ℕ) → shifts k (m * 2 ^ k) ≡ m
unfolding shifts
shifts-scale zero m = mul-one m
shifts-scale (suc k) m = rw (double_pow k m, shift-double (m * 2 ^ k)) (shifts-scale k m)

-- Eight steps at once: the low byte is looked up, and the rest only moves down.
shifts-byte : (x : ℕ) → shifts 8 x ≡ bit_xor (x / 2 ^ 8) (get_or checksum_polys (x % 2 ^ 8) 0)
shifts-byte x =
    ap (shifts 8) (sym (xor_split 8 x (omega arith)))
    ∙ shifts-xor 8 (x / 2 ^ 8 * 2 ^ 8) (x % 2 ^ 8)
    ∙ ap₂ bit_xor (shifts-scale 8 (x / 2 ^ 8)) (sym (table-shifts (x % 2 ^ 8) (omega arith)))

-- The digits above the byte do not reach the index.
xor-low : (x m : ℕ) → bit_xor x (m * 2 ^ 8) % 2 ^ 8 ≡ x % 2 ^ 8
xor-low x m =
    ap (λ t. t % 2 ^ 8)
      (ap (λ t. bit_xor t (m * 2 ^ 8)) (sym (xor_split 8 x (omega arith)))
        ∙ xor_assoc (x / 2 ^ 8 * 2 ^ 8) (x % 2 ^ 8) (m * 2 ^ 8)
        ∙ ap (bit_xor (x / 2 ^ 8 * 2 ^ 8)) (xor_comm (x % 2 ^ 8) (m * 2 ^ 8))
        ∙ sym (xor_assoc (x / 2 ^ 8 * 2 ^ 8) (m * 2 ^ 8) (x % 2 ^ 8))
        ∙ ap (λ t. bit_xor t (x % 2 ^ 8)) (xor_scale 8 (x / 2 ^ 8) m)
        ∙ xor_disjoint 8 (bit_xor (x / 2 ^ 8) m) (x % 2 ^ 8) (omega arith))
    ∙ omega arith

-- Promotion to `Int32` does not reach the index either.
index-sign_extend :
    (crc c : ℕ) → c < 256 → bit_xor crc (sign_extend c) % 2 ^ 8 ≡ bit_xor crc c % 2 ^ 8
index-sign_extend crc c h = elim (Bool-cases (ltb c 0x80)) [
  | inl small ↦ rw small
  | inr large ↦ rw large (
      ap (λ t. bit_xor crc t % 2 ^ 8)
        (add_comm c 0xffff_ff00
          ∙ sym (xor_disjoint 8 0xff_ffff c h)
          ∙ xor_comm (0xff_ffff * 2 ^ 8) c)
      ∙ ap (λ t. t % 2 ^ 8) (sym (xor_assoc crc c (0xff_ffff * 2 ^ 8)))
      ∙ xor-low (bit_xor crc c) 0xff_ffff)
]

pub crc_step-shifts : (crc c : ℕ) → c < 256 → crc_step crc c ≡ shifts 8 (bit_xor crc c)
unfolding crc_step
crc_step-shifts crc c h =
    ap₂ (λ q i. bit_xor q (get_or checksum_polys i 0))
      (sym (xor_div_pow 8 crc c ∙ ap (bit_xor (crc / 2 ^ 8)) (below c h) ∙ xor-zero (crc / 2 ^ 8)))
      (index-sign_extend crc c h)
    ∙ sym (shifts-byte (bit_xor crc c))
  where
    below : (c : ℕ) → c < 256 → c / 2 ^ 8 ≡ 0
    below c h = omega arith

-- The bytes of memory that the loop reads.
abbrev pub AreBytes : (ℕ → ℕ) → Type 0
AreBytes mem = (a : ℕ) → mem a < 256

crc_loop-remainder :
    (n : ℕ) (mem : ℕ → ℕ) (at crc : ℕ)
    → AreBytes mem
    → crc_loop n mem at crc ≡ remainder crc (bytes n mem at)
unfolding crc_loop remainder bytes
crc_loop-remainder zero mem at crc b = refl
crc_loop-remainder (suc n) mem at crc b =
    rw (crc_step-shifts crc (mem at) (b at))
      (crc_loop-remainder n mem (at + 1) (shifts 8 (bit_xor crc (mem at))) b)

-- Over memory that holds bytes, and for a pointer that is not null, `ke_calculate_crc32` returns
-- the complement of the remainder of the bytes by the CRC-32 polynomial, one bit at a time, from
-- the seed 0xffffffff: the table and the promotion of signed characters do not change the value.
pub calculate_crc32-remainder :
    (mem : ℕ → ℕ) (inp : ℕ) (len : ℤ)
    → AreBytes mem
    → inp ≢ 0
    → calculate_crc32 mem inp len
      ≡ complement (remainder 0xffff_ffff (bytes (pos_part len) mem inp))
unfolding calculate_crc32
calculate_crc32-remainder mem inp len b n =
    rw (not_null inp n) (ap complement (crc_loop-remainder (pos_part len) mem inp 0xffff_ffff b))
  where
    not_null : (p : ℕ) → p ≢ 0 → (p == 0) ≡ false
    not_null p n = ground arith
