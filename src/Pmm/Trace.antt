-- ===== src/Pmm/Trace.antt =====
-- Runs of the allocator with clients that take frames, write to them, and give them back.
use nekrnl.Prelude.{
  store, ℕ, ◌+◌, ◌%◌, ◌<◌, ◌≤◌, ◌≡◌, ◌≢◌, true, false, ltb, page_size, List, [], ◌∷◌, has, All-has,
  erase, arith, inl, inr, Bool-cases,
}
use nekrnl.Pmm.{Frames, alloc_frame, free_frame}
use nekrnl.Pmm.Inv.{Issued, IsValid, Chain-frame}
use nekrnl.Pmm.Alloc.{
  alloc_frame_head, alloc_frame_cursor, alloc_frame_none, issue_head-IsValid, issue_cursor-IsValid,
}
use nekrnl.Pmm.Free.{free_frame-recycle, recycle-IsValid}

-- A client's step: the state and the frames that are held, before and after.
pub data Step (s : Frames) (held : List ℕ) : Frames → List ℕ → Type 0 where
  take : (alloc_frame s).0 ≢ 0 → Step s held (alloc_frame s).1 ((alloc_frame s).0 ∷ held)
  exhausted : (alloc_frame s).0 ≡ 0 → Step s held (alloc_frame s).1 held
  give : (f : ℕ) → has f held ≡ true → Step s held (free_frame f s) (erase f held)
  write :
      (f a v : ℕ)
      → has f held ≡ true
      → f ≤ a
      → a < f + page_size
      → Step s held (record s { mem = store s.mem a v }) held

pub data Reach (s₀ : Frames) : Frames → List ℕ → Type 0 where
  start : Reach s₀ s₀ []
  next :
      {s t : Frames} {held held' : List ℕ}
      → Reach s₀ s held
      → Step s held t held'
      → Reach s₀ t held'

-- Some free list makes the state valid.
abbrev pub Valid : Frames → List ℕ → Type 0
Valid s held = (fl : List ℕ) × IsValid s fl held

differ :
    (fl held : List ℕ) (g f : ℕ)
    → ((a : ℕ) → has a fl ≡ true → has a held ≡ false)
    → has g fl ≡ true
    → has f held ≡ true
    → g ≢ f
differ fl held g f ap h m e = cc (ap g h)

store_off :
    (s : Frames) (g f a w : ℕ)
    → g % page_size ≡ 0
    → f % page_size ≡ 0
    → f ≤ a
    → a < f + page_size
    → g ≢ f
    → store s.mem a w g ≡ s.mem g
store_off s g f a w hg hf lo hi ne = ground arith

write-IsValid :
    {s : Frames} (fl held : List ℕ) (f a v : ℕ)
    → IsValid s fl held
    → has f held ≡ true
    → f ≤ a
    → a < f + page_size
    → IsValid (record s { mem = store s.mem a v }) fl held
write-IsValid {s} fl held f a w v m lo hi = record {
  chain =
      Chain-frame s.mem (store s.mem a w) s.free_head fl
        (λ g h.
          store_off s g f a w (All-has (Issued s) fl g v.fl_issued h).0
            (All-has (Issued s) held f v.held_issued m).0 lo hi (differ fl held g f v.apart h m))
        v.chain;
  base_pos = v.base_pos;
  base_aligned = v.base_aligned;
  cursor_aligned = v.cursor_aligned;
  end_aligned = v.end_aligned;
  base_le = v.base_le;
  cursor_le = v.cursor_le;
  end_lt = v.end_lt;
  fl_issued = v.fl_issued;
  held_issued = v.held_issued;
  fl_distinct = v.fl_distinct;
  held_distinct = v.held_distinct;
  apart = v.apart;
  covered = v.covered;
  free_eq = v.free_eq;
  used_eq = v.used_eq;
}

take-Valid :
    (s : Frames) (fl held : List ℕ)
    → IsValid s fl held
    → (alloc_frame s).0 ≢ 0
    → Valid (alloc_frame s).1 ((alloc_frame s).0 ∷ held)
take-Valid s [] held v ne = elim (Bool-cases (ltb s.cursor s.end)) [
  | inl l ↦
      rw (alloc_frame_cursor s v.chain (omega (arith, v.base_pos, v.base_le)) (ground arith))
        ([], issue_cursor-IsValid held v (ground arith))
  | inr n ↦ absurd (ne (rw (alloc_frame_none s v.chain (ground arith))))
]
take-Valid s (f ∷ fs) held v ne =
    rw (alloc_frame_head s f v.chain.0 v.chain.1) (fs, issue_head-IsValid f fs held v)

-- The allocator returns 0 exactly when it counts no free frame, and is then left as it was.
pub alloc_frame-zero :
    (s : Frames) (fl held : List ℕ)
    → IsValid s fl held
    → (alloc_frame s).0 ≡ 0
    → (alloc_frame s ≡ (0, s)) × (s.free ≡ 0)
alloc_frame-zero s [] held v e = elim (Bool-cases (ltb s.cursor s.end)) [
  | inl l ↦ absurd (
      omega (
        arith,
        v.base_pos,
        v.base_le,
        rw (alloc_frame_cursor s v.chain (omega (arith, v.base_pos, v.base_le)) (ground arith)) at
            e,
      ))
  | inr n ↦ (alloc_frame_none s v.chain (ground arith), ground (arith, v.free_eq, v.cursor_le))
]
alloc_frame-zero s (f ∷ fs) held v e =
    absurd (v.chain.1 (rw (alloc_frame_head s f v.chain.0 v.chain.1) at e))

Step-Valid :
    {s t : Frames} {held held' : List ℕ} → Step s held t held' → Valid s held → Valid t held'
Step-Valid {s} {held = held} (take ne) (fl, v) = take-Valid s fl held v ne
Step-Valid {s} {held = held} (exhausted e) (fl, v) = rw (alloc_frame-zero s fl held v e).0 (fl, v)
Step-Valid {s} {held = held} (give f m) (fl, v) =
    rw (free_frame-recycle s f v.base_pos (All-has (Issued s) held f v.held_issued m))
      (f ∷ fl, recycle-IsValid f fl held v m)
Step-Valid {s} {held = held} (write f a w m lo hi) (fl, v) =
    (fl, write-IsValid fl held f a w v m lo hi)

pub Reach-Valid : {s t : Frames} {held : List ℕ} → IsValid s [] [] → Reach s t held → Valid t held
Reach-Valid v start = ([], v)
Reach-Valid v (next r st) = Step-Valid st (Reach-Valid v r)
