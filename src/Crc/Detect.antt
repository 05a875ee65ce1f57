-- ===== src/Crc/Detect.antt =====
-- What the checksum detects: any change of a single byte of the buffer.
use nekrnl.Prelude.{
  ℕ, zero, suc, ◌+◌, ◌/◌, ◌%◌, ◌^◌, ◌<◌, ◌≤◌, ◌≡◌, ◌≢◌, refl, sym, ap, ◌∙◌, bit_xor, ◌==◌, ◌∷◌,
  arith, Bool-cases, inl, inr, store, store_ne, store_hit,
}
use nekrnl.Prelude.Int.{pos}
use nekrnl.Prelude.Bits.{xor_assoc, xor_comm, xor-zero, xor_self, xor-lt_pow, xor_div_pow, zero-xor}
use nekrnl.Crc.{complement, calculate_crc32}
use nekrnl.Crc.Poly.{feed, shift, shifts, remainder, bytes, AreBytes, calculate_crc32-remainder}
use mathlib.Core.Path.{ap₂}

xor_undo : (a c : ℕ) → bit_xor (bit_xor a c) c ≡ a
xor_undo a c = xor_assoc a c c ∙ ap (bit_xor a) (xor_self c) ∙ xor-zero a

xor_cancel : (a b c : ℕ) → bit_xor a c ≡ bit_xor b c → a ≡ b
xor_cancel a b c e = sym (xor_undo a c) ∙ ap (λ t. bit_xor t c) e ∙ xor_undo b c

feed-lt : (b : ℕ) → feed b < 2 ^ 32
feed-lt b = ground arith

shift-lt : (x : ℕ) → x < 2 ^ 32 → shift x < 2 ^ 32
unfolding shift
shift-lt x h = xor-lt_pow 32 (x / 2) (feed (x % 2)) (omega arith) (feed-lt (x % 2))

-- The polynomial has the top digit, so the digit that was shifted out shows there.
top-feed : (b : ℕ) → b < 2 → feed b / 2 ^ 31 ≡ b
top-feed zero h = refl
top-feed (suc zero) h = refl
top-feed (suc (suc b)) h = absurd (omega arith)

top-shift : (x : ℕ) → x < 2 ^ 32 → shift x / 2 ^ 31 ≡ x % 2
unfolding shift
top-shift x h =
    xor_div_pow 31 (x / 2) (feed (x % 2))
    ∙ ap₂ bit_xor (below x h) (top-feed (x % 2) (omega arith))
    ∙ zero-xor (x % 2)
  where
    below : (x : ℕ) → x < 2 ^ 32 → x / 2 / 2 ^ 31 ≡ 0
    below x h = omega arith

odd_eq : (x y : ℕ) → x < 2 ^ 32 → y < 2 ^ 32 → shift x ≡ shift y → x % 2 ≡ y % 2
odd_eq x y h k e = sym (top-shift x h) ∙ ap (λ t. t / 2 ^ 31) e ∙ top-shift y k

shift-injective : (x y : ℕ) → x < 2 ^ 32 → y < 2 ^ 32 → shift x ≡ shift y → x ≡ y
unfolding shift
shift-injective x y h k e =
    let o = odd_eq x y h k e in
    omega (
      arith,
      xor_cancel (x / 2) (y / 2) (feed (x % 2)) (e ∙ ap (λ t. bit_xor (y / 2) (feed t)) (sym o)),
    )

shifts-lt : (k x : ℕ) → x < 2 ^ 32 → shifts k x < 2 ^ 32
unfolding shifts
shifts-lt zero x h = h
shifts-lt (suc k) x h = shifts-lt k (shift x) (shift-lt x h)

shifts-injective : (k x y : ℕ) → x < 2 ^ 32 → y < 2 ^ 32 → shifts k x ≡ shifts k y → x ≡ y
unfolding shifts
shifts-injective zero x y h l e = e
shifts-injective (suc k) x y h l e =
    shift-injective x y h l (shifts-injective k (shift x) (shift y) (shift-lt x h) (shift-lt y l) e)

xor_byte-lt : (crc c : ℕ) → crc < 2 ^ 32 → c < 256 → bit_xor crc c < 2 ^ 32
xor_byte-lt crc c h k = xor-lt_pow 32 crc c h (omega arith)

remainder-lt :
    (crc n : ℕ) (mem : ℕ → ℕ) (at : ℕ)
    → crc < 2 ^ 32
    → AreBytes mem
    → remainder crc (bytes n mem at) < 2 ^ 32
unfolding remainder bytes
remainder-lt crc zero mem at h b = h
remainder-lt crc (suc n) mem at h b =
    remainder-lt (shifts 8 (bit_xor crc (mem at))) n mem (at + 1)
      (shifts-lt 8 (bit_xor crc (mem at)) (xor_byte-lt crc (mem at) h (b at))) b

-- Different states stay different while the same bytes are read.
remainder-injective :
    (n : ℕ) (mem : ℕ → ℕ) (at crc crc' : ℕ)
    → AreBytes mem
    → crc < 2 ^ 32
    → crc' < 2 ^ 32
    → remainder crc (bytes n mem at) ≡ remainder crc' (bytes n mem at)
    → crc ≡ crc'
unfolding remainder bytes
remainder-injective zero mem at crc crc' b h k e = e
remainder-injective (suc n) mem at crc crc' b h k e = xor_cancel crc crc' (mem at) (
    shifts-injective 8 _ _ (xor_byte-lt crc (mem at) h (b at)) (xor_byte-lt crc' (mem at) k (b at))
      (remainder-injective n mem (at + 1) _ _ b (shifts-lt 8 _ (xor_byte-lt crc (mem at) h (b at)))
        (shifts-lt 8 _ (xor_byte-lt crc' (mem at) k (b at))) e))

-- Bytes above a changed address.
bytes-store_below :
    (n : ℕ) (mem : ℕ → ℕ) (at p v : ℕ) → p < at → bytes n (store mem p v) at ≡ bytes n mem at
unfolding bytes
bytes-store_below zero mem at p v h = refl
bytes-store_below (suc n) mem at p v h =
    ap₂ ◌∷◌ (store_ne mem p at v (λ e. omega arith))
      (bytes-store_below n mem (at + 1) p v (omega arith))

-- What a byte does to the state.
abbrev after : ℕ → ℕ → ℕ
after crc c = shifts 8 (bit_xor crc c)

after-lt : (crc c : ℕ) → crc < 2 ^ 32 → c < 256 → after crc c < 2 ^ 32
after-lt crc c h k = shifts-lt 8 (bit_xor crc c) (xor_byte-lt crc c h k)

after-injective :
    (crc c d : ℕ) → crc < 2 ^ 32 → c < 256 → d < 256 → after crc c ≡ after crc d → c ≡ d
after-injective crc c d h k l e = xor_cancel c d crc (
    xor_comm c crc
    ∙ shifts-injective 8 (bit_xor crc c) (bit_xor crc d) (xor_byte-lt crc c h k)
        (xor_byte-lt crc d h l) e
    ∙ xor_comm crc d)

-- The same remainder after one byte was overwritten means that it was overwritten by itself.
remainder-store :
    (n : ℕ) (mem : ℕ → ℕ) (at p crc v : ℕ)
    → crc < 2 ^ 32
    → AreBytes mem
    → at ≤ p
    → p < at + n
    → v < 256
    → remainder crc (bytes n (store mem p v) at) ≡ remainder crc (bytes n mem at)
    → v ≡ mem p
unfolding remainder bytes
remainder-store zero mem at p crc v h b lo hi hv e = absurd (omega arith)
remainder-store (suc n) mem at p crc v h b lo hi hv e = elim (Bool-cases (at == p)) [
  | inl here ↦
      let q : at ≡ p = ground arith in
      after-injective crc v (mem p) h hv (b p) (
        remainder-injective n mem (at + 1) (after crc v) (after crc (mem p)) b (after-lt crc v h hv)
          (after-lt crc (mem p) h (b p))
          (ap₂ (λ c bs. remainder (after crc c) bs) (sym (store_hit mem p at v q))
              (sym (bytes-store_below n mem (at + 1) p v (omega arith)))
            ∙ e
            ∙ ap (λ a. remainder (after crc (mem a)) (bytes n mem (at + 1))) q))
  | inr there ↦
      remainder-store n mem (at + 1) p (after crc (mem at)) v (after-lt crc (mem at) h (b at)) b
        (ground arith) (omega arith) hv
        (ap (λ c. remainder (after crc c) (bytes n (store mem p v) (at + 1)))
            (sym (store_ne mem p at v (ground arith)))
          ∙ e)
]

store-AreBytes : (mem : ℕ → ℕ) (p v : ℕ) → AreBytes mem → v < 256 → AreBytes (store mem p v)
store-AreBytes mem p v b h a = ground (arith, b a)

complement-injective : (x y : ℕ) → x < 2 ^ 32 → y < 2 ^ 32 → complement x ≡ complement y → x ≡ y
complement-injective x y h k e = omega arith

-- The checksum detects a change of a single byte: over memory that holds bytes, a buffer of `n`
-- bytes at a pointer that is not null gets another checksum when one byte of it is overwritten by
-- another value.
pub calculate_crc32-store :
    (mem : ℕ → ℕ) (inp n p v : ℕ)
    → AreBytes mem
    → inp ≢ 0
    → inp ≤ p
    → p < inp + n
    → v < 256
    → v ≢ mem p
    → calculate_crc32 (store mem p v) inp (pos n) ≢ calculate_crc32 mem inp (pos n)
calculate_crc32-store mem inp n p v b nz lo hi hv ne e = ne (
    remainder-store n mem inp p 0xffff_ffff v (omega arith) b lo hi hv (
      complement-injective _ _
        (remainder-lt 0xffff_ffff n (store mem p v) inp (omega arith) (store-AreBytes mem p v b hv))
        (remainder-lt 0xffff_ffff n mem inp (omega arith) b)
        (sym
            (calculate_crc32-remainder (store mem p v) inp (pos n) (store-AreBytes mem p v b hv) nz)
          ∙ e
          ∙ calculate_crc32-remainder mem inp (pos n) b nz)))
