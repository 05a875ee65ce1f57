-- ===== src/Ascii/Buffer.antt =====
-- What filling and copying a buffer do to memory, within the buffer and outside it.
use nekrnl.Prelude.{
  ℕ, zero, suc, ◌+◌, ◌<◌, ◌≤◌, ◌≡◌, ◌≢◌, ◌⊎◌, inl, inr, refl, sym, ap, ◌∙◌, not, ◌&&◌, leb, ◌==◌,
  store, store_self, store_ne, arith, Bool-cases, ==_iff, Bool,
}
use nekrnl.Prelude.Int.{ℤ, negsuc}
use native.Mathlib.Nat.{add-zero}
use nekrnl.Ascii.{Memory, to_int32, fill, copy, copy_memory_safe}

-- An address outside the `n` cells from `d` on.
abbrev pub Outside : ℕ → ℕ → ℕ → Type 0
Outside d n a = (a < d) ⊎ (d + n ≤ a)

pub fill-Outside : (mem : Memory) (p v n a : ℕ) → Outside p n a → fill mem p v n a ≡ mem a
unfolding fill
fill-Outside mem p v zero a o = refl
fill-Outside mem p v (suc n) a o =
    fill-Outside (store mem p v) (p + 1) v n a (omega arith) ∙ store_ne mem p a v (λ e. omega arith)

pub fill-inside : (mem : Memory) (p v n i : ℕ) → i < n → fill mem p v n (p + i) ≡ v
unfolding fill
fill-inside mem p v zero i h = absurd (omega arith)
fill-inside mem p v (suc n) zero h =
    fill-Outside (store mem p v) (p + 1) v n (p + 0) (omega arith)
    ∙ ap (store mem p v) (add-zero p)
    ∙ store_self mem p v
fill-inside mem p v (suc n) (suc i) h =
    ap (fill (store mem p v) (p + 1) v n) (step p i)
    ∙ fill-inside (store mem p v) (p + 1) v n i (omega arith)
  where
    step : (p i : ℕ) → p + suc i ≡ p + 1 + i
    step p i = omega arith

pub copy-Outside : (mem : Memory) (s d n a : ℕ) → Outside d n a → copy mem s d n a ≡ mem a
unfolding copy
copy-Outside mem s d zero a o = refl
copy-Outside mem s d (suc n) a o =
    copy-Outside (store mem d (mem s)) (s + 1) (d + 1) n a (omega arith)
    ∙ store_ne mem d a (mem s) (λ e. omega arith)

-- The copy runs upwards, so it may overlap only downwards.
abbrev pub CopyFits : ℕ → ℕ → ℕ → Type 0
CopyFits s d n = (d ≤ s) ⊎ (s + n ≤ d)

pub copy-inside :
    (mem : Memory) (s d n i : ℕ) → CopyFits s d n → i < n → copy mem s d n (d + i) ≡ mem (s + i)
unfolding copy
copy-inside mem s d zero i f h = absurd (omega arith)
copy-inside mem s d (suc n) zero f h =
    copy-Outside (store mem d (mem s)) (s + 1) (d + 1) n (d + 0) (omega arith)
    ∙ ap (store mem d (mem s)) (add-zero d)
    ∙ store_self mem d (mem s)
    ∙ ap mem (sym (add-zero s))
copy-inside mem s d (suc n) (suc i) f h =
    ap (copy (store mem d (mem s)) (s + 1) (d + 1) n) (step d i)
    ∙ copy-inside (store mem d (mem s)) (s + 1) (d + 1) n i (omega arith) (omega arith)
    ∙ store_ne mem d (s + 1 + i) (mem s) (λ e. omega arith)
    ∙ ap mem (sym (step s i))
  where
    step : (p i : ℕ) → p + suc i ≡ p + 1 + i
    step p i = omega arith

pub accepted :
    (mem : Memory) (src dst len dst_size : ℕ)
    → src ≢ 0
    → dst ≢ 0
    → len ≤ dst_size
    → copy_memory_safe mem src dst len dst_size ≡ (to_int32 len, copy mem src dst len)
unfolding copy_memory_safe
accepted mem src dst len dst_size hs hd hl = ground arith

refused_null :
    (mem : Memory) (src len dst_size : ℕ)
    → copy_memory_safe mem src 0 len dst_size ≡ (negsuc 0, mem)
unfolding copy_memory_safe
refused_null mem src len dst_size = ground arith

refused_clears :
    (mem : Memory) (src dst len dst_size : ℕ)
    → dst ≢ 0
    → (src ≡ 0) ⊎ (dst_size < len)
    → copy_memory_safe mem src dst len dst_size ≡ (negsuc 0, fill mem dst 0 dst_size)
unfolding copy_memory_safe
refused_clears mem src dst len zero hd h = ground arith
refused_clears mem src dst len (suc n) hd h = ground arith

refusal :
    (src dst len dst_size : ℕ)
    → (src ≡ 0) ⊎ ((dst ≡ 0) ⊎ (dst_size < len))
    → dst ≢ 0
    → (src ≡ 0) ⊎ (dst_size < len)
refusal src dst len dst_size h n = omega arith

-- What `rt_copy_memory_safe` promises: the result, the buffer, and the rest of memory.
pub record Copied (mem : Memory) (src dst len dst_size : ℕ) (r : ℤ) (mem' : Memory) : Type 0 where
  pub result : r ≡ to_int32 len
  pub bytes : (i : ℕ) → i < len → mem' (dst + i) ≡ mem (src + i)
  pub rest : (a : ℕ) → Outside dst len a → mem' a ≡ mem a

-- With two pointers that are not null, a length that fits the destination, and buffers that
-- overlap at most downwards, `rt_copy_memory_safe` returns the length as an `Int32`, copies each
-- byte, and changes nothing outside the bytes that it copied.
pub copy_memory_safe-Copied :
    (mem : Memory) (src dst len dst_size : ℕ)
    → src ≢ 0
    → dst ≢ 0
    → len ≤ dst_size
    → CopyFits src dst len
    → let (r, mem') = copy_memory_safe mem src dst len dst_size in
      Copied mem src dst len dst_size r mem'
copy_memory_safe-Copied mem src dst len dst_size hs hd hl f =
    rw (accepted mem src dst len dst_size hs hd hl) (record {
      result = refl;
      bytes = λ i h. copy-inside mem src dst len i f h;
      rest = λ a o. copy-Outside mem src dst len a o;
    })

Outside-of : (dst n a : ℕ) → dst ≢ 0 → (dst ≡ 0) ⊎ Outside dst n a → Outside dst n a
Outside-of dst n a h o = omega arith

narrow : (dst len dst_size a : ℕ) → len ≤ dst_size → Outside dst dst_size a → Outside dst len a
narrow dst len dst_size a h o = omega arith

abbrev accepts : ℕ → ℕ → ℕ → ℕ → Bool
accepts src dst len dst_size = not (src == 0) && not (dst == 0) && leb len dst_size

-- A call that is refused, on a null pointer or a length above the destination's size, returns -1,
-- clears the whole destination unless it is null, and changes nothing else.
pub copy_memory_safe_refused :
    (mem : Memory) (src dst len dst_size : ℕ)
    → (src ≡ 0) ⊎ ((dst ≡ 0) ⊎ (dst_size < len))
    → let (r, mem') = copy_memory_safe mem src dst len dst_size in
      (r ≡ negsuc 0)
      × (dst ≢ 0 → (i : ℕ) → i < dst_size → mem' (dst + i) ≡ 0)
      × ((a : ℕ) → (dst ≡ 0) ⊎ Outside dst dst_size a → mem' a ≡ mem a)
copy_memory_safe_refused mem src dst len dst_size h = elim (Bool-cases (dst == 0)) [
  | inl e ↦
      let z : dst ≡ 0 = (==_iff dst 0).0 e in
      rw (z, refused_null mem src len dst_size) (refl, (λ n. absurd (n refl)), λ a o. refl)
  | inr e ↦
      let n : dst ≢ 0 = ground arith in
      rw (refused_clears mem src dst len dst_size n (refusal src dst len dst_size h n)) (
        refl,
        (λ _ i l. fill-inside mem dst 0 dst_size i l),
        λ a o. fill-Outside mem dst 0 dst_size a (Outside-of dst dst_size a n o),
      )
]

-- Whatever its arguments, `rt_copy_memory_safe` writes nothing outside the destination's size.
pub copy_memory_safe-Outside :
    (mem : Memory) (src dst len dst_size a : ℕ)
    → Outside dst dst_size a
    → (copy_memory_safe mem src dst len dst_size).1 a ≡ mem a
copy_memory_safe-Outside mem src dst len dst_size a o =
    elim (Bool-cases (accepts src dst len dst_size)) [
      | inl y ↦
          rw (accepted mem src dst len dst_size (ground arith) (ground arith) (ground arith))
            (copy-Outside mem src dst len a (narrow dst len dst_size a (ground arith) o))
      | inr n ↦ (copy_memory_safe_refused mem src dst len dst_size (ground arith)).2 a (inr o)
    ]
