-- ===== src/Ascii/Text.antt =====
-- The length of a string, the comparison of strings, and the copy of a string.
use nekrnl.Prelude.{
  ℕ, zero, suc, ◌+◌, ◌^◌, ◌<◌, ◌≤◌, ◌≡◌, ◌≢◌, ◌⊎◌, ◌↔◌, inl, inr, refl, sym, ap, ◌∙◌, false, ◌==◌,
  ==_iff, some, store, store_self, store_ne, arith, Bool-cases, dec_lt,
}
use native.Mathlib.Nat.{add-zero}
use nekrnl.Prelude.Int.{pos, ◌-ℤ◌, ltb_ℤ}
use nekrnl.Ascii.{
  Memory, char_value, to_int32, string_cmp, string_len_from, string_len_max, string_len_loop,
  string_len, fill, copy, set_memory, alloc_copy, alloc_string,
}
use nekrnl.Ascii.Buffer.{Outside, fill-Outside, copy-Outside, copy-inside, accepted}

-- A string of `n` bytes stands at `p`, behind it its terminator.
pub record IsString (mem : Memory) (p n : ℕ) : Type 0 where
  pub bytes : (i : ℕ) → i < n → mem (p + i) ≢ 0
  pub terminator : mem (p + n) ≡ 0

string_len_loop_end :
    (left : ℕ) (fuel : ℕ) (mem : Memory) (p n cnt : ℕ)
    → IsString mem p n
    → cnt + left ≡ n
    → left < fuel
    → string_len_loop fuel mem p cnt ≡ some n
unfolding string_len_loop
string_len_loop_end left zero mem p n cnt s e h = absurd (omega arith)
string_len_loop_end zero (suc fuel) mem p n cnt s e h =
    ground (arith, s.terminator, ap (λ k. mem (p + k)) (sym (add-zero cnt) ∙ e))
string_len_loop_end (suc left) (suc fuel) mem p n cnt s e h =
    ground (arith, s.bytes cnt, string_len_loop_end left fuel mem p n (cnt + 1))

-- On enough fuel `rt_string_len` returns the length of the string.
pub string_len-IsString :
    (fuel : ℕ) (mem : Memory) (p n : ℕ)
    → IsString mem p n
    → n < fuel
    → string_len fuel mem p ≡ some n
unfolding string_len
string_len-IsString fuel mem p n s h = string_len_loop_end n fuel mem p n 0 s (omega arith) h

-- What `rt_string_len` with a bound returns: the index of the first terminator, or the bound.
pub record IsBounded (mem : Memory) (str max_len n : ℕ) : Type 0 where
  pub le_max : n ≤ max_len
  pub bytes : (i : ℕ) → i < n → mem (str + i) ≢ 0
  pub stops : (n ≡ max_len) ⊎ (mem (str + n) ≡ 0)

one_more :
    (mem : Memory) (str len : ℕ)
    → ((i : ℕ) → i < len → mem (str + i) ≢ 0)
    → mem (str + len) ≢ 0
    → (i : ℕ) → i < len + 1
    → mem (str + i) ≢ 0
one_more mem str len h n i l = elim (dec_lt i len) [
  | yes m ↦ h i m
  | no m ↦ λ z. n (ap (λ k. mem (str + k)) (omega arith) ∙ z)
]

absurd_test : (a : ℕ) → a ≡ 0 → (a == 0) ≡ false → ⊥
absurd_test a z n = ground arith

string_len_from-IsBounded :
    (left len : ℕ) (mem : Memory) (str max_len : ℕ)
    → len + left ≡ max_len
    → ((i : ℕ) → i < len → mem (str + i) ≢ 0)
    → IsBounded mem str max_len (string_len_from mem str left len)
unfolding string_len_from
string_len_from-IsBounded zero len mem str max_len e h = record {
  le_max = omega arith;
  bytes = h;
  stops = inl (omega arith);
}
string_len_from-IsBounded (suc left) len mem str max_len e h =
    elim (Bool-cases (mem (str + len) == 0)) [
      | inl z ↦ rw z (record { le_max = omega arith; bytes = h; stops = inr ((==_iff _ 0).0 z) })
      | inr n ↦ rw n (
          string_len_from-IsBounded left (len + 1) mem str max_len (omega arith)
            (one_more mem str len h (λ z. absurd_test (mem (str + len)) z n)))
    ]

-- For every memory and every bound, `rt_string_len` with a bound returns the index of the first
-- zero byte below the bound, or the bound when there is none.
pub string_len_max-IsBounded :
    (mem : Memory) (str max_len : ℕ) → IsBounded mem str max_len (string_len_max mem str max_len)
unfolding string_len_max
string_len_max-IsBounded mem str max_len =
    string_len_from-IsBounded max_len 0 mem str max_len (omega arith) (λ i l. absurd (omega arith))

abbrev pub AreBytes : Memory → Type 0
AreBytes mem = (a : ℕ) → mem a < 256

-- The `size` bytes at two places are the same.
abbrev pub SameBytes : Memory → ℕ → ℕ → ℕ → Type 0
SameBytes mem p q size = (i : ℕ) → i < size → mem (p + i) ≡ mem (q + i)

char_value_ne :
    (a b : ℕ) → a < 256 → b < 256 → (a == b) ≡ false → char_value a -ℤ char_value b ≢ pos 0
unfolding ◌-ℤ◌
char_value_ne a b h k n = ground arith

heads : (mem : Memory) (p q size : ℕ) → SameBytes mem p q (suc size) → mem p ≡ mem q
heads mem p q size h = ap mem (sym (add-zero p)) ∙ h 0 (omega arith) ∙ ap mem (add-zero q)

next_byte : (mem : Memory) (p i : ℕ) → mem (p + 1 + i) ≡ mem (p + suc i)
next_byte mem p i = ap mem (omega arith)

tails :
    (mem : Memory) (p q size : ℕ)
    → SameBytes mem p q (suc size)
    → SameBytes mem (p + 1) (q + 1) size
tails mem p q size h i l = next_byte mem p i ∙ h (suc i) (omega arith) ∙ sym (next_byte mem q i)

pub string_cmp-SameBytes :
    (mem : Memory) (p q size : ℕ) → SameBytes mem p q size → string_cmp mem p q size ≡ pos 0
unfolding string_cmp
string_cmp-SameBytes mem p q zero h = refl
string_cmp-SameBytes mem p q (suc size) h =
    rw ((==_iff (mem p) (mem q)).1 (heads mem p q size h))
      (string_cmp-SameBytes mem (p + 1) (q + 1) size (tails mem p q size h))

join_bytes :
    (mem : Memory) (p q size : ℕ)
    → mem p ≡ mem q
    → SameBytes mem (p + 1) (q + 1) size
    → SameBytes mem p q (suc size)
join_bytes mem p q size e h zero l = ap mem (add-zero p) ∙ e ∙ ap mem (sym (add-zero q))
join_bytes mem p q size e h (suc i) l =
    sym (next_byte mem p i) ∙ h i (omega arith) ∙ next_byte mem q i

pub SameBytes-string_cmp :
    (mem : Memory) (p q size : ℕ)
    → AreBytes mem
    → string_cmp mem p q size ≡ pos 0
    → SameBytes mem p q size
unfolding string_cmp
SameBytes-string_cmp mem p q zero b e = λ i h. absurd (omega arith)
SameBytes-string_cmp mem p q (suc size) b e = elim (Bool-cases (mem p == mem q)) [
  | inl t ↦
      join_bytes mem p q size ((==_iff (mem p) (mem q)).0 t)
        (SameBytes-string_cmp mem (p + 1) (q + 1) size b (rw t at e))
  | inr f ↦ absurd (char_value_ne (mem p) (mem q) (b p) (b q) f (rw f at e))
]

-- Over memory that holds bytes `rt_string_cmp` returns 0 exactly when the bytes are the same.
pub string_cmp-eq_zero :
    (mem : Memory) (p q size : ℕ)
    → AreBytes mem
    → (string_cmp mem p q size ≡ pos 0) ↔ SameBytes mem p q size
string_cmp-eq_zero mem p q size b =
    (SameBytes-string_cmp mem p q size b, string_cmp-SameBytes mem p q size)

-- What `rt_alloc_string` returns: a copy of the string, and the rest of memory as it was.
pub record IsCopy (mem : Memory) (src n buffer : ℕ) (mem' : Memory) : Type 0 where
  pub string : IsString mem' buffer n
  pub same : (i : ℕ) → i < n → mem' (buffer + i) ≡ mem (src + i)
  pub rest : (a : ℕ) → Outside buffer (n + 1) a → mem' a ≡ mem a

not_null : (p : ℕ) → p ≢ 0 → (p == 0) ≡ false
not_null p h = ground arith

small : (n : ℕ) → n < 2 ^ 31 → ltb_ℤ (to_int32 n) (pos 0) ≡ false
small n h = ground arith

abbrev duplicate : Memory → ℕ → ℕ → ℕ → Memory
duplicate mem src n buffer = store (copy (fill mem buffer 0 n) src buffer n) (buffer + n) 0

cleared : (mem : Memory) (p n : ℕ) → p ≢ 0 → set_memory mem p 0 n ≡ (p, fill mem p 0 n)
unfolding set_memory
cleared mem p n h = ground arith

alloc_copy-duplicate :
    (mem : Memory) (src n buffer : ℕ)
    → n < 2 ^ 31
    → src ≢ 0
    → buffer ≢ 0
    → alloc_copy mem src buffer n ≡ (buffer, duplicate mem src n buffer)
unfolding alloc_copy
alloc_copy-duplicate mem src n buffer hn hs hb = rw (
  not_null buffer hb,
  cleared mem buffer n hb,
  accepted (fill mem buffer 0 n) src buffer n (n + 1) hs hb (omega arith),
  small n hn,
)

alloc_string-duplicate :
    (fuel : ℕ) (mem : Memory) (src n buffer : ℕ)
    → IsString mem src n
    → n < fuel
    → n < 2 ^ 31
    → src ≢ 0
    → buffer ≢ 0
    → alloc_string fuel mem src buffer ≡ some (buffer, duplicate mem src n buffer)
unfolding alloc_string
alloc_string-duplicate fuel mem src n buffer s hf hn hs hb =
    rw (string_len-IsString fuel mem src n s hf, alloc_string)
      (ap some (alloc_copy-duplicate mem src n buffer hn hs hb))

-- For a string of `n` bytes, fewer than 2 ^ 31, and a buffer of `n + 1` bytes that is not null and
-- lies apart from it, `rt_alloc_string` returns the buffer with the same string in it, terminated,
-- and leaves the rest of memory alone.
pub alloc_string-IsCopy :
    (fuel : ℕ) (mem : Memory) (src n buffer : ℕ)
    → IsString mem src n
    → n < fuel
    → n < 2 ^ 31
    → src ≢ 0
    → buffer ≢ 0
    → (src + n < buffer) ⊎ (buffer + n < src)
    → (mem' : Memory) × (alloc_string fuel mem src buffer ≡ some (buffer, mem'))
      × IsCopy mem src n buffer mem'
alloc_string-IsCopy fuel mem src n buffer s hf hn hs hb apart = (
  duplicate mem src n buffer,
  alloc_string-duplicate fuel mem src n buffer s hf hn hs hb,
  record {
    string = record {
      bytes = λ i l z. s.bytes i l (sym (same i l) ∙ z);
      terminator = store_self (copy (fill mem buffer 0 n) src buffer n) (buffer + n) 0;
    };
    same = same;
    rest = λ a o.
        store_ne (copy (fill mem buffer 0 n) src buffer n) (buffer + n) a 0 (λ q. omega arith)
        ∙ copy-Outside (fill mem buffer 0 n) src buffer n a (omega arith)
        ∙ fill-Outside mem buffer 0 n a (omega arith);
  },
)
  where
    same : (i : ℕ) → i < n → duplicate mem src n buffer (buffer + i) ≡ mem (src + i)
    same i l =
        store_ne (copy (fill mem buffer 0 n) src buffer n) (buffer + n) (buffer + i) 0
          (λ q. omega arith)
        ∙ copy-inside (fill mem buffer 0 n) src buffer n i (omega arith) l
        ∙ fill-Outside mem buffer 0 n (src + i) (omega arith)
