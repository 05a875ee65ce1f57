-- ===== src/Ascii/Search.antt =====
-- `rt_string_in_string` and `rt_string_has_char` find the first occurrence.
use nekrnl.Prelude.{
  ℕ, zero, suc, ◌+◌, ◌-◌, ◌<◌, ◌≡◌, ◌≢◌, ◌⊎◌, inl, inr, refl, sym, ◌∙◌, false, ltb, ◌==◌,
  if◌then◌else◌, some, arith, Bool-cases, subst,
}
use native.Mathlib.Nat.{add-zero}
use nekrnl.Prelude.Int.{ℤ, pos, negsuc}
use nekrnl.Ascii.{Memory, string_cmp, find_from, string_in_string}
use nekrnl.Ascii.Text.{
  IsString, string_len-IsString, SameBytes, AreBytes, string_cmp-SameBytes, SameBytes-string_cmp,
}

-- The needle of `n` bytes occurs at `p`.
abbrev pub Occurs : Memory → ℕ → ℕ → ℕ → Type 0
Occurs mem p needle n = SameBytes mem p needle n

-- The result is the first of the `count` positions from `hay` on where the needle occurs, or null
-- where it occurs at none.
pub data IsFirst (mem : Memory) (hay needle n count : ℕ) (r : ℕ) : Type 0 where
  found :
      (i : ℕ)
      → r ≡ hay + i
      → i < count
      → Occurs mem (hay + i) needle n
      → ((k : ℕ) → k < i → ¬ Occurs mem (hay + k) needle n)
      → IsFirst mem hay needle n count r
  absent :
      r ≡ 0
      → ((k : ℕ) → k < count → ¬ Occurs mem (hay + k) needle n)
      → IsFirst mem hay needle n count r

-- The test of a position.
find_here :
    (mem : Memory) (hay needle n left : ℕ)
    → string_cmp mem hay needle n ≡ pos 0
    → find_from mem hay needle n (suc left) ≡ hay
unfolding find_from
find_here mem hay needle n left e = ground arith

find_later :
    (mem : Memory) (hay needle n left : ℕ)
    → string_cmp mem hay needle n ≢ pos 0
    → find_from mem hay needle n (suc left) ≡ find_from mem (hay + 1) needle n left
unfolding find_from
find_later mem hay needle n left e = ground arith

shift : (hay k : ℕ) → hay + 1 + k ≡ hay + suc k
shift hay k = omega arith

-- No occurrence at the head and none at the positions behind it.
none_below :
    (mem : Memory) (hay needle n b : ℕ)
    → ¬ Occurs mem hay needle n
    → ((k : ℕ) → k < b → ¬ Occurs mem (hay + 1 + k) needle n)
    → (k : ℕ) → k < suc b
    → ¬ Occurs mem (hay + k) needle n
none_below mem hay needle n b no_head h zero l o =
    no_head (subst (λ p. Occurs mem p needle n) (add-zero hay) o)
none_below mem hay needle n b no_head h (suc k) l o =
    h k (omega arith) (subst (λ p. Occurs mem p needle n) (sym (shift hay k)) o)

IsFirst-shift :
    (mem : Memory) (hay needle n count r : ℕ)
    → ¬ Occurs mem hay needle n
    → IsFirst mem (hay + 1) needle n count r
    → IsFirst mem hay needle n (suc count) r
IsFirst-shift mem hay needle n count r no_head (found i e l o h) =
    found (suc i) (e ∙ shift hay i) (omega arith)
      (subst (λ p. Occurs mem p needle n) (shift hay i) o) (none_below mem hay needle n i no_head h)
IsFirst-shift mem hay needle n count r no_head (absent e h) =
    absent e (none_below mem hay needle n count no_head h)

decide_cmp : (z : ℤ) → (z ≡ pos 0) ⊎ (z ≢ pos 0)
decide_cmp (pos zero) = inl refl
decide_cmp (pos (suc n)) = inr (λ e. cc)
decide_cmp (negsuc n) = inr (λ e. cc)

find_from-IsFirst :
    (mem : Memory) (hay needle n count : ℕ)
    → AreBytes mem
    → IsFirst mem hay needle n count (find_from mem hay needle n count)
unfolding find_from
find_from-IsFirst mem hay needle n zero b = absent refl (λ k l. absurd (omega arith))
find_from-IsFirst mem hay needle n (suc count) b = elim (decide_cmp (string_cmp mem hay needle n)) [
  | inl e ↦
      subst (IsFirst mem hay needle n (suc count)) (sym (find_here mem hay needle n count e)) (
        found 0 (sym (add-zero hay)) (omega arith)
          (subst (λ p. Occurs mem p needle n) (sym (add-zero hay))
            (SameBytes-string_cmp mem hay needle n b e))
          (λ k l. absurd (omega arith)))
  | inr d ↦
      subst (IsFirst mem hay needle n (suc count)) (sym (find_later mem hay needle n count d)) (
        IsFirst-shift mem hay needle n count _ (λ o. d (string_cmp-SameBytes mem hay needle n o))
          (find_from-IsFirst mem (hay + 1) needle n count b))
]

-- The number of positions at which a needle of `n` bytes can stand in `m` bytes.
abbrev pub positions : ℕ → ℕ → ℕ
positions m n = if ltb m n then 0 else m - n + 1

not_null : (p : ℕ) → p ≢ 0 → (p == 0) ≡ false
not_null p h = ground arith

-- Over memory that holds bytes, for two strings that are not null and enough fuel to measure them,
-- `rt_string_in_string` ends, and returns the first position of the haystack at which the needle
-- occurs, or null when it occurs at none.
pub string_in_string-IsFirst :
    (fuel : ℕ) (mem : Memory) (hay needle m n : ℕ)
    → AreBytes mem
    → hay ≢ 0
    → needle ≢ 0
    → IsString mem hay m
    → IsString mem needle n
    → m < fuel
    → n < fuel
    → (r : ℕ) × (string_in_string fuel mem hay needle ≡ some r)
      × IsFirst mem hay needle n (positions m n) r
unfolding string_in_string
string_in_string-IsFirst fuel mem hay needle m n b hh hn sh sn fh fn = elim (Bool-cases (ltb m n)) [
  | inl short ↦ (
    0,
    rw (
      not_null hay hh,
      not_null needle hn,
      string_len-IsString fuel mem needle n sn fn,
      string_len-IsString fuel mem hay m sh fh,
      short,
    ),
    rw short (absent refl (λ k l. absurd (omega arith))),
  )
  | inr fits ↦ (
    find_from mem hay needle n (m - n + 1),
    rw (
      not_null hay hh,
      not_null needle hn,
      string_len-IsString fuel mem needle n sn fn,
      string_len-IsString fuel mem hay m sh fh,
      fits,
    ),
    rw fits (find_from-IsFirst mem hay needle n (m - n + 1) b),
  )
]
