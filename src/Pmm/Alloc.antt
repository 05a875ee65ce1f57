-- ===== src/Pmm/Alloc.antt =====
-- `pmmi_alloc_frame` on every branch: a recycled frame, a fresh one, none left.
use nekrnl.Prelude.{
  ℕ, ◌<◌, ◌≡◌, ◌≢◌, refl, true, false, add64, page_size, List, [], ◌∷◌, has, All, All-has, arith,
}
use nekrnl.Pmm.{Frames, zero_page, issue, alloc_frame}
use nekrnl.Pmm.Inv.{Issued, IsValid, Chain-frame, zero_page_ne, All-Issued_mono}

pub alloc_frame_head :
    (s : Frames) (f : ℕ)
    → s.free_head ≡ f
    → f ≢ 0
    → alloc_frame s ≡ (f, issue f (record s { free_head = s.mem f }))
unfolding alloc_frame
alloc_frame_head s f e n = ground arith

pub alloc_frame_cursor :
    (s : Frames)
    → s.free_head ≡ 0
    → s.cursor ≢ 0
    → s.cursor < s.end
    → alloc_frame s ≡ (s.cursor, issue s.cursor (record s { cursor = add64 s.cursor page_size }))
unfolding alloc_frame
alloc_frame_cursor s e n l = ground arith

pub alloc_frame_none :
    (s : Frames) → s.free_head ≡ 0 → ¬ (s.cursor < s.end) → alloc_frame s ≡ (0, s)
unfolding alloc_frame
alloc_frame_none s e n = ground arith

ne_of_has : (g f : ℕ) (fs : List ℕ) → has g fs ≡ true → has f fs ≡ false → g ≢ f
ne_of_has g f fs m n e = cc

pub issue_head-IsValid :
    {s : Frames} (f : ℕ) (fs held : List ℕ)
    → IsValid s (f ∷ fs) held
    → IsValid (issue f (record s { free_head = s.mem f })) fs (f ∷ held)
issue_head-IsValid {s} f fs held v = record {
  chain =
      Chain-frame s.mem (zero_page s.mem f) (s.mem f) fs
        (λ g m.
          zero_page_ne s.mem f g v.fl_issued.0.0 (All-has (Issued s) fs g v.fl_issued.1 m).0
            (ne_of_has g f fs m v.fl_distinct.0))
        v.chain.2;
  base_pos = v.base_pos;
  base_aligned = v.base_aligned;
  cursor_aligned = v.cursor_aligned;
  end_aligned = v.end_aligned;
  base_le = v.base_le;
  cursor_le = v.cursor_le;
  end_lt = v.end_lt;
  fl_issued = v.fl_issued.1;
  held_issued = (v.fl_issued.0, v.held_issued);
  fl_distinct = v.fl_distinct.1;
  held_distinct = (v.apart f (ground arith), v.held_distinct);
  apart = λ g m. ground (arith, v.apart g);
  covered = omega (arith, v.covered);
  free_eq = omega (arith, v.free_eq, v.covered);
  used_eq = omega (arith, v.used_eq, v.covered);
}

-- The cursor lies above every issued frame.
not-has-cursor : (s : Frames) (xs : List ℕ) → All (Issued s) xs → has s.cursor xs ≡ false
not-has-cursor s [] h = refl
not-has-cursor s (x ∷ xs) h = ground (arith, not-has-cursor s xs h.1)

pub issue_cursor-IsValid :
    {s : Frames} (held : List ℕ)
    → IsValid s [] held
    → s.cursor < s.end
    → IsValid (issue s.cursor (record s { cursor = add64 s.cursor page_size })) [] (s.cursor ∷ held)
issue_cursor-IsValid {s} held v l = record {
  chain = v.chain;
  base_pos = v.base_pos;
  base_aligned = v.base_aligned;
  cursor_aligned = omega (arith, v.cursor_aligned, v.end_aligned, v.end_lt);
  end_aligned = v.end_aligned;
  base_le = omega (arith, v.base_le, v.cursor_aligned, v.end_aligned, v.end_lt);
  cursor_le = omega (arith, v.cursor_aligned, v.end_aligned, v.end_lt);
  end_lt = v.end_lt;
  fl_issued = tt;
  held_issued = (
    (v.cursor_aligned, v.base_le, omega (arith, v.cursor_aligned, v.end_aligned, v.end_lt)),
    All-Issued_mono s (record s { cursor = add64 s.cursor page_size }) held refl
        (omega (arith, v.cursor_aligned, v.end_aligned, v.end_lt)) v.held_issued,
  );
  fl_distinct = tt;
  held_distinct = (not-has-cursor s held v.held_issued, v.held_distinct);
  apart = λ g m. cc;
  covered =
      omega
        (arith, v.covered, v.cursor_aligned, v.end_aligned, v.base_aligned, v.end_lt, v.base_le);
  free_eq = omega (arith, v.free_eq, v.cursor_aligned, v.end_aligned, v.end_lt);
  used_eq = omega (arith, v.used_eq, v.covered, v.end_lt, v.cursor_le);
}
