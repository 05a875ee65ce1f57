-- ===== src/Pmm/Refine.antt =====
-- The allocator refines the pool of its recycled and fresh frames.
use nekrnl.Prelude.{
  ℕ, ◌≡◌, refl, true, ltb, add64, page_size, List, [], ◌∷◌, has, arith, inl, inr, Bool-cases,
  All-has, subst, ltb→lt,
}
use nekrnl.Pmm.{Frames, alloc_frame, free_frame, issue}
use nekrnl.Pmm.Pool
use nekrnl.Pmm.Pool.{Pool}
use nekrnl.Pmm.Inv.{Issued, IsValid}
use nekrnl.Pmm.Alloc.{
  alloc_frame_head, alloc_frame_cursor, alloc_frame_none, issue_head-IsValid, issue_cursor-IsValid,
}
use nekrnl.Pmm.Free.{free_frame-recycle, recycle-IsValid}

-- The state of the allocator stands for the pool.
pub record Represents (s : Frames) (p : Pool) : Type 0 where
  pub valid : IsValid s p.recycled p.held
  pub next_eq : s.cursor ≡ p.next
  pub stop_eq : s.end ≡ p.stop

refines_on :
    (s : Frames) (p : Pool) (fl : List ℕ)
    → p.recycled ≡ fl
    → IsValid s fl p.held
    → s.cursor ≡ p.next
    → s.end ≡ p.stop
    → let (r, s') = alloc_frame s in let (q, p') = Pool.alloc_on fl p in (r ≡ q) × Represents s' p'
unfolding Pool.alloc_on
refines_on s p [] e v n t = elim (Bool-cases (ltb p.next p.stop)) [
  | inl l ↦
      rw (l, alloc_frame_cursor s v.chain (omega (arith, v.base_pos, v.base_le)) (ground arith))
        (
          n,
          record {
            valid = rw e (
                subst
                  (λ k.
                    IsValid (issue s.cursor (record s { cursor = add64 s.cursor page_size })) []
                      (k ∷ p.held))
                  n (issue_cursor-IsValid p.held v (ground arith)));
            next_eq =
                omega (arith, v.cursor_aligned, v.end_aligned, v.end_lt, ltb→lt p.next p.stop l);
            stop_eq = t;
          },
        )
  | inr m ↦
      rw (m, alloc_frame_none s v.chain (ground arith))
        (refl, record { valid = rw e v; next_eq = n; stop_eq = t })
]
refines_on s p (f ∷ fs) e v n t =
    rw (alloc_frame_head s f v.chain.0 v.chain.1)
      (refl, record { valid = issue_head-IsValid f fs p.held v; next_eq = n; stop_eq = t })

-- On a state that stands for a pool, `pmmi_alloc_frame` returns what the pool returns (the frame
-- given back last, else the next fresh one, else 0), and leaves a state for the pool that is left.
pub alloc_frame_refines :
    (s : Frames) (p : Pool)
    → Represents s p
    → let (r, s') = alloc_frame s in let (q, p') = Pool.alloc p in (r ≡ q) × Represents s' p'
unfolding Pool.alloc
alloc_frame_refines s p r = refines_on s p p.recycled refl r.valid r.next_eq r.stop_eq

-- On a state that stands for a pool, `pmmi_free_frame` of a frame that the pool holds leaves a
-- state for the pool with that frame given back.
pub free_frame_refines :
    (s : Frames) (p : Pool) (f : ℕ)
    → Represents s p
    → has f p.held ≡ true
    → Represents (free_frame f s) (Pool.give_back f p)
unfolding Pool.give_back
free_frame_refines s p f r m =
    rw (free_frame-recycle s f r.valid.base_pos (All-has (Issued s) p.held f r.valid.held_issued m))
      (record {
        valid = recycle-IsValid f p.recycled p.held r.valid m;
        next_eq = r.next_eq;
        stop_eq = r.stop_eq;
      })
