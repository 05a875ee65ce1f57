-- ===== src/Ip/Version4.antt =====
-- What `IPFactory::IpCheckVersion4` of private/minkernel/src/Network/IPAddress.cpp accepts.
use nekrnl.Prelude.{
  ℕ, ◌+◌, ◌≤◌, ◌≡◌, ◌⊎◌, inl, inr, true, false, not, ◌==◌, ◌||◌, ltb, if◌then◌else◌, List, [], ◌∷◌,
  All, arith, Bool-cases, Option-cases, ==_iff, none, some,
}
use nekrnl.Prelude.Int.{pos}
use nekrnl.Ascii.{is_alnum}
use nekrnl.Ip.{check_from, check_version4}

-- The number of dots.
unfoldable pub dots_in : List ℕ → ℕ
dots_in [] = 0
dots_in (c ∷ cs) = if c == b'.' then dots_in cs + 1 else dots_in cs

-- A dot or a digit up to 5.
abbrev pub IsLowChar : ℕ → Type 0
IsLowChar c = (c ≡ b'.') ⊎ ((b'0' ≤ c) × (c ≤ b'5'))

-- A character that is not a dot is passed only as a digit up to 5, of at most four.
passed :
    (c : ℕ) (cs : List ℕ) (cnter dots r : ℕ)
    → (c == b'.') ≡ false
    → check_from (c ∷ cs) cnter dots ≡ some r
    → (b'0' ≤ c) × (c ≤ b'5') × (check_from cs (cnter + 1) dots ≡ some r)
unfolding check_from
passed c cs cnter dots r digit e = elim (Bool-cases (ltb b'5' c || ltb c b'0')) [
  | inl out ↦ absurd (refused r (rw (digit, out) at e))
  | inr within ↦ elim (Bool-cases (not (is_alnum (pos c)))) [
    | inl odd ↦ absurd (refused r (rw (digit, within, odd) at e))
    | inr alnum ↦ elim (Bool-cases (ltb 3 cnter)) [
      | inl many ↦ absurd (refused r (rw (digit, within, alnum, many) at e))
      | inr few ↦ (low c within, high c within, rw (digit, within, alnum, few) at e)
    ]
  ]
]
  where
    refused : (r : ℕ) → none ≡ some r → ⊥
    refused r e = ground arith

    low : (c : ℕ) → (ltb b'5' c || ltb c b'0') ≡ false → b'0' ≤ c
    low c f = ground arith

    high : (c : ℕ) → (ltb b'5' c || ltb c b'0') ≡ false → c ≤ b'5'
    high c f = ground arith

check_from-IsLowChar :
    (cs : List ℕ) (cnter dots r : ℕ)
    → check_from cs cnter dots ≡ some r
    → All IsLowChar cs × (r ≡ dots + dots_in cs)
unfolding check_from dots_in
check_from-IsLowChar [] cnter dots r e = (tt, ground arith)
check_from-IsLowChar (c ∷ cs) cnter dots r e = elim (Bool-cases (c == b'.')) [
  | inl dot ↦
      let (low, count) = check_from-IsLowChar cs 0 (dots + 1) r (rw dot at e) in
      rw dot ((inl ((==_iff _ _).0 dot), low), omega arith)
  | inr digit ↦
      let (low, high, rest) = passed c cs cnter dots r digit e in
      let (lows, count) = check_from-IsLowChar cs (cnter + 1) dots r rest in
      rw digit ((inr (low, high), lows), count)
]

-- A string that `IpCheckVersion4` accepts has exactly three dots, and each other character is a
-- digit from 0 to 5: the digits from 6 to 9 are refused.
pub check_version4-IsLowChar :
    (ip : List ℕ) → check_version4 (some ip) ≡ true → (dots_in ip ≡ 3) × All IsLowChar ip
unfolding check_version4
check_version4-IsLowChar ip ok = elim (Option-cases (check_from ip 0 0)) [
  | inl n ↦ absurd (refused (rw n at ok))
  | inr (r, e) ↦
      let (lows, count) = check_from-IsLowChar ip 0 0 r e in
      let three = (==_iff r 3).0 (rw e at ok) in (omega arith, lows)
]
  where
    refused : false ≡ true → ⊥
    refused e = ground arith
