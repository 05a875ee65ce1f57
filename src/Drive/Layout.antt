-- ===== src/Drive/Layout.antt =====
-- How a structure lies in the sectors of a disk, for private/minkernel/src/DriveMgr.cpp: the
-- driver moves the bytes of a packet, and the layout of a packed structure is the compiler's.
use nekrnl.Prelude.{ℕ, ◌+◌, ◌≤◌, ◌<◌, ◌≡◌, ◌⊎◌, inl, inr, arith}

-- A structure of type `A` takes `width` sectors from its address on.
pub record Codec (S A : Type 0) : Type 0 where
  pub width : ℕ
  pub load : (ℕ → S) → ℕ → A
  pub save : A → ℕ → (ℕ → S) → (ℕ → S)
  pub load-save : (a : A) (lba : ℕ) (m : ℕ → S) → load (save a lba m) lba ≡ a
  pub save_outside :
      (a : A) (lba i : ℕ) (m : ℕ → S) → (i < lba) ⊎ (lba + width ≤ i) → save a lba m i ≡ m i
  pub load_local :
      (m m' : ℕ → S) (lba : ℕ)
      → ((i : ℕ) → lba ≤ i → i < lba + width → m i ≡ m' i)
      → load m lba ≡ load m' lba

-- The sectors from `a` on, `m` of them, and those from `b` on do not meet.
abbrev pub Apart : ℕ → ℕ → ℕ → ℕ → Type 0
Apart a m b n = (a + m ≤ b) ⊎ (b + n ≤ a)

-- A write does not change a structure that lies elsewhere.
pub load-save-Apart :
    {S A B : Type 0} (c : Codec S A) (e : Codec S B) (a : A) (lba at : ℕ) (m : ℕ → S)
    → Apart lba c.width at e.width
    → e.load (c.save a lba m) at ≡ e.load m at
load-save-Apart c e a lba at m h = e.load_local (c.save a lba m) m at (λ i low high.
    c.save_outside a lba i m (elim h [ inl x ↦ inr (omega arith) | inr x ↦ inl (omega arith) ]))
