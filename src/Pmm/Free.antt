-- ===== src/Pmm/Free.antt =====
-- `pmmi_free_frame` on a frame that is held.
use nekrnl.Prelude.{
  store_self, store_ne, store, ℕ, ◌<◌, ◌≡◌, ◌≢◌, refl, true, false, ◌==◌, List, ◌∷◌, has, Distinct,
  All-has, All-erase, erase, length-erase, Distinct-erase, has-erase_self, has-erase_ne, arith, inl,
  inr, Bool-cases, ==_iff, subst, sym, ap,
}
use nekrnl.Pmm.{Frames, recycle, free_frame, alloc_frame, issue}
use nekrnl.Pmm.Alloc.{alloc_frame_head}
use nekrnl.Pmm.Inv.{Chain, Issued, IsValid, Chain-frame}

pub free_frame-recycle :
    (s : Frames) (f : ℕ) → 0 < s.base → Issued s f → free_frame f s ≡ recycle f s
unfolding free_frame
free_frame-recycle s f b i = ground arith

-- `pmmi_free_frame` ignores what is no frame of the region below the cursor: the state is
-- unchanged for a misaligned address, one below the base, and one at or above the cursor.
pub free_frame_foreign : (s : Frames) (f : ℕ) → 0 < s.base → ¬ Issued s f → free_frame f s ≡ s
unfolding free_frame
free_frame_foreign s f b i = ground arith

has_left :
    (xs ys : List ℕ) (f : ℕ)
    → (has f xs ≡ true → has f ys ≡ false)
    → has f ys ≡ true
    → has f xs ≡ false
has_left xs ys f h m = ground arith

absurd_has :
    (g f : ℕ) (fl held : List ℕ)
    → ((a : ℕ) → has a fl ≡ true → has a held ≡ false)
    → has g fl ≡ true
    → has f held ≡ true
    → g ≡ f
    → ⊥
absurd_has g f fl held ap h m e = cc (ap g h)

apart_recycle :
    (f g : ℕ) (fl held : List ℕ)
    → Distinct held
    → ((a : ℕ) → has a fl ≡ true → has a held ≡ false)
    → has g (f ∷ fl) ≡ true
    → has g (erase f held) ≡ false
apart_recycle f g fl held d ap h = elim (Bool-cases (g == f)) [
  | inl e ↦
      subst (λ x. has x (erase f held) ≡ false) (sym ((==_iff g f).0 e)) (has-erase_self f held d)
  | inr n ↦ rw (has-erase_ne g f held n) (ap g (ground arith))
]

pub recycle-IsValid :
    {s : Frames} (f : ℕ) (fl held : List ℕ)
    → IsValid s fl held
    → has f held ≡ true
    → IsValid (recycle f s) (f ∷ fl) (erase f held)
recycle-IsValid {s} f fl held v m = record {
  chain = (
    refl,
    omega (arith, (All-has (Issued s) held f v.held_issued m).1, v.base_pos),
    subst (λ q. Chain (store s.mem f s.free_head) q fl) (sym (store_self s.mem f s.free_head))
        (Chain-frame s.mem (store s.mem f s.free_head) s.free_head fl
          (λ g h. store_ne s.mem f g s.free_head (λ e. absurd_has g f fl held v.apart h m e))
          v.chain),
  );
  base_pos = v.base_pos;
  base_aligned = v.base_aligned;
  cursor_aligned = v.cursor_aligned;
  end_aligned = v.end_aligned;
  base_le = v.base_le;
  cursor_le = v.cursor_le;
  end_lt = v.end_lt;
  fl_issued = (All-has (Issued s) held f v.held_issued m, v.fl_issued);
  held_issued = All-erase (Issued s) f held v.held_issued;
  fl_distinct = (has_left fl held f (v.apart f) m, v.fl_distinct);
  held_distinct = Distinct-erase f held v.held_distinct;
  apart = λ g h. apart_recycle f g fl held v.held_distinct v.apart h;
  covered = omega (arith, v.covered, length-erase f held m);
  free_eq =
      omega (arith, v.free_eq, v.covered, v.end_lt, v.cursor_le, v.base_le, length-erase f held m);
  used_eq = omega (arith, v.used_eq, v.covered, v.end_lt, v.cursor_le, length-erase f held m);
}

alloc_recycled : (s : Frames) (f : ℕ) → f ≢ 0 → (alloc_frame (recycle f s)).0 ≡ f
alloc_recycled s f n = rw (alloc_frame_head (recycle f s) f refl n)

alloc_recycled_twice :
    (s : Frames) (f : ℕ) → f ≢ 0 → (alloc_frame (alloc_frame (recycle f (recycle f s))).1).0 ≡ f
alloc_recycled_twice s f n = rw (alloc_frame_head (recycle f (recycle f s)) f refl n) (
    ap (λ r. r.0)
      (alloc_frame_head
        (issue f (record (recycle f (recycle f s)) { free_head = (recycle f (recycle f s)).mem f }))
        f (store_self (store s.mem f s.free_head) f f) n))

-- A frame that is given back twice is handed out twice: the two next allocations return the same
-- frame, on any state whose region holds it.
pub free_twice-alloc_twice :
    (s : Frames) (f : ℕ)
    → 0 < s.base
    → Issued s f
    → let (a, t) = alloc_frame (free_frame f (free_frame f s)) in (a ≡ f) × ((alloc_frame t).0 ≡ f)
free_twice-alloc_twice s f b i =
    rw (free_frame-recycle s f b i, free_frame-recycle (recycle f s) f b i)
      (alloc_recycled (recycle f s) f (omega arith), alloc_recycled_twice s f (omega arith))
