-- ===== src/Drive/Memory.antt =====
-- Layouts for the packets of private/minkernel/src/DriveMgr.cpp: a structure in one sector, and one
-- in a sector and a tail.
use nekrnl.Prelude.{
  ℕ, ◌+◌, ◌≡◌, inl, inr, refl, ap, ◌∙◌, Bool-cases, ==_iff, ◌==◌, if◌then◌else◌, arith,
}
use nekrnl.Drive.Layout.{Codec}

abbrev pub put_one : {S : Type 0} → ℕ → S → (ℕ → S) → ℕ → S
put_one lba s m i = if i == lba then s else m i

pub put_one_self : {S : Type 0} (lba : ℕ) (s : S) (m : ℕ → S) → put_one lba s m lba ≡ s
put_one_self lba s m = rw ((==_iff lba lba).1 refl) refl

pub put_one_ne :
    {S : Type 0} (lba i : ℕ) (s : S) (m : ℕ → S) → (i ≡ lba → ⊥) → put_one lba s m i ≡ m i
put_one_ne lba i s m ne = elim (Bool-cases (i == lba)) [
  | inl e ↦ absurd (ne ((==_iff i lba).0 e))
  | inr e ↦ rw e refl
]

abbrev pub one_sector :
    {S A : Type 0} (get : S → A) (put : A → S) → ((a : A) → get (put a) ≡ a) → Codec S A
one_sector get put get-put = record {
  width = 1;
  load = λ m lba. get (m lba);
  save = λ a lba m. put_one lba (put a) m;
  load-save = λ a lba m. ap get (put_one_self lba (put a) m) ∙ get-put a;
  save_outside = λ a lba i m h.
      put_one_ne lba i (put a) m
        (λ e. elim h [ inl x ↦ absurd (omega arith) | inr x ↦ absurd (omega arith) ]);
  load_local = λ m m' lba h. ap get (h lba (omega arith) (omega arith));
}

abbrev pub two_sectors :
    {S A : Type 0} (get : S → A) (put : A → S) (tail : S) → ((a : A) → get (put a) ≡ a) → Codec S A
two_sectors get put tail get-put = record {
  width = 2;
  load = λ m lba. get (m lba);
  save = λ a lba m. put_one lba (put a) (put_one (lba + 1) tail m);
  load-save = λ a lba m. ap get (put_one_self lba (put a) (put_one (lba + 1) tail m)) ∙ get-put a;
  save_outside = λ a lba i m h.
      put_one_ne lba i (put a) (put_one (lba + 1) tail m)
        (λ e. elim h [ inl x ↦ absurd (omega arith) | inr x ↦ absurd (omega arith) ])
      ∙ put_one_ne (lba + 1) i tail m
          (λ e. elim h [ inl x ↦ absurd (omega arith) | inr x ↦ absurd (omega arith) ]);
  load_local = λ m m' lba h. ap get (h lba (omega arith) (omega arith));
}
