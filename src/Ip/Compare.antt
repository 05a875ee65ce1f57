-- ===== src/Ip/Compare.antt =====
-- What the comparisons of private/minkernel/src/Network/IPAddress.cpp decide.
use nekrnl.Prelude.{
  ℕ, zero, suc, ◌+◌, ◌<◌, ◌≤◌, ◌≡◌, ◌≢◌, ◌↔◌, inl, inr, refl, sym, subst, true, false, ◌==◌, List,
  arith, Bool-cases, ==_iff, ℕ_discrete,
}
use nekrnl.Ip.{byte_at, equal_from, differ_from, equals, differs}

-- All bytes from `i` up to `stop` are related by `R`.
abbrev Bytes : (ℕ → ℕ → Type 0) → ℕ → ℕ → List ℕ → List ℕ → Type 0
Bytes R i stop other addr = (j : ℕ) → i ≤ j → j < stop → R (byte_at other j) (byte_at addr j)

extend :
    (R : ℕ → ℕ → Type 0) (i stop : ℕ) (other addr : List ℕ)
    → R (byte_at other i) (byte_at addr i)
    → Bytes R (i + 1) stop other addr
    → Bytes R i stop other addr
extend R i stop other addr first rest j l h = elim (ℕ_discrete j i) [
  | yes e ↦ subst (λ k. R (byte_at other k) (byte_at addr k)) (sym e) first
  | no n ↦ rest j (omega arith) h
]

equal_from_iff :
    (n i stop : ℕ) (other addr : List ℕ)
    → stop ≡ i + n
    → (equal_from n i other addr ≡ true) ↔ Bytes (λ a b. a ≡ b) i stop other addr
unfolding equal_from
equal_from_iff zero i stop other addr e = (λ t j l h. absurd (omega arith), λ b. refl)
equal_from_iff (suc n) i stop other addr e =
    let rest = equal_from_iff n (i + 1) stop other addr (omega arith) in
    elim (Bool-cases (byte_at other i == byte_at addr i)) [
      | inl same ↦ rw same (
        λ t. extend (λ a b. a ≡ b) i stop other addr ((==_iff _ _).0 same) (rest.0 t),
        λ b. rest.1 (λ j l h. b j (omega arith) h),
      )
      | inr other_byte ↦ rw other_byte (
        λ t. absurd (ground arith),
        λ b.
            absurd (
              clash (byte_at other i) (byte_at addr i) (b i (omega arith) (omega arith))
                other_byte),
      )
    ]
  where
    clash : (a b : ℕ) → a ≡ b → (a == b) ≡ false → ⊥
    clash a b e f = ground arith

differ_from_iff :
    (n i stop : ℕ) (other addr : List ℕ)
    → stop ≡ i + n
    → (differ_from n i other addr ≡ true) ↔ Bytes (λ a b. a ≢ b) i stop other addr
unfolding differ_from
differ_from_iff zero i stop other addr e = (λ t j l h. absurd (omega arith), λ b. refl)
differ_from_iff (suc n) i stop other addr e =
    let rest = differ_from_iff n (i + 1) stop other addr (omega arith) in
    elim (Bool-cases (byte_at other i == byte_at addr i)) [
      | inl same ↦ rw same (
        λ t. absurd (ground arith),
        λ b. absurd (b i (omega arith) (omega arith) ((==_iff _ _).0 same)),
      )
      | inr other_byte ↦ rw other_byte (
        λ t.
            extend (λ a b. a ≢ b) i stop other addr
              (unlike (byte_at other i) (byte_at addr i) other_byte) (rest.0 t),
        λ b. rest.1 (λ j l h. b j (omega arith) h),
      )
    ]
  where
    unlike : (a b : ℕ) → (a == b) ≡ false → a ≢ b
    unlike a b f e = ground arith

-- For an address of any number of bytes, `operator==` holds exactly when the other address's first
-- byte is not 0 and all bytes agree; `operator!=` holds exactly when that byte is not 0 and no byte
-- agrees, so it is not the negation.
pub equals-differs_iff :
    (n : ℕ) (other addr : List ℕ)
    → ((equals n other addr ≡ true)
        ↔ ((byte_at other 0 ≢ 0) × ((j : ℕ) → 0 ≤ j → j < n → byte_at other j ≡ byte_at addr j)))
      × ((differs n other addr ≡ true)
          ↔ ((byte_at other 0 ≢ 0) × ((j : ℕ) → 0 ≤ j → j < n → byte_at other j ≢ byte_at addr j)))
unfolding equals differs
equals-differs_iff n other addr =
    let eq = equal_from_iff n 0 n other addr (omega arith) in
    let ne = differ_from_iff n 0 n other addr (omega arith) in
    elim (Bool-cases (byte_at other 0 == 0)) [
      | inl z ↦ rw z (
        (λ t. absurd (ground arith), λ p. absurd (p.0 ((==_iff _ _).0 z))),
        (λ t. absurd (ground arith), λ p. absurd (p.0 ((==_iff _ _).0 z))),
      )
      | inr z ↦ rw z (
        (λ t. (nonzero (byte_at other 0) z, eq.0 t), λ p. eq.1 p.1),
        (λ t. (nonzero (byte_at other 0) z, ne.0 t), λ p. ne.1 p.1),
      )
    ]
  where
    nonzero : (a : ℕ) → (a == 0) ≡ false → a ≢ 0
    nonzero a f e = ground arith
