-- ===== src/Pmm/Tests.antt =====
-- The frame allocator on a region of three pages.
use nekrnl.Prelude.{store, ◌≡◌, refl, [], ◌∷◌, arith}
use nekrnl.Pmm.{Frames, init, alloc_frame, free_frame}
use nekrnl.Pmm.Inv.{IsValid}
use nekrnl.Pmm.Pool
use nekrnl.Pmm.Pool.{Pool}
use nekrnl.Pmm.Refine.{Represents, alloc_frame_refines, free_frame_refines}
use nekrnl.Pmm.Trace.{Reach, start, next, take}
use nekrnl.Pmm.Region.{IsRegion, IsSafe, Reach-IsSafe, init-IsValid}

abbrev blank : Frames
blank = record { base = 0; cursor = 0; end = 0; free_head = 0; free = 0; used = 0; mem = λ a. 7 }

-- 0x1000 and 0x3000 were handed out, 0x2000 was given back.
abbrev busy : Frames
busy = record {
  base = 0x1000;
  cursor = 0x4000;
  end = 0x5000;
  free_head = 0x2000;
  free = 2;
  used = 2;
  mem = store (λ a. 7) 0x2000 0;
}

abbrev busy_pool : Pool
busy_pool = record {
  recycled = 0x2000 ∷ [];
  next = 0x4000;
  stop = 0x5000;
  held = 0x3000 ∷ 0x1000 ∷ [];
}

init_three : let s = init 0xff1 0x3100 blank in (s.base ≡ 0x1000) × (s.end ≡ 0x4000) × (s.free ≡ 3)
unfolding init
init_three = (refl, refl, refl)

three_pages : IsRegion 0xff1 0x3100
three_pages = omega arith

busy-Represents : Represents busy busy_pool
busy-Represents = record {
  valid = record {
    chain = (refl, omega arith, refl);
    base_pos = omega arith;
    base_aligned = refl;
    cursor_aligned = refl;
    end_aligned = refl;
    base_le = omega arith;
    cursor_le = omega arith;
    end_lt = omega arith;
    fl_issued = omega arith;
    held_issued = omega arith;
    fl_distinct = (refl, tt);
    held_distinct = (refl, (refl, tt));
    apart = λ f m. ground arith;
    covered = refl;
    free_eq = refl;
    used_eq = refl;
  };
  next_eq = refl;
  stop_eq = refl;
}

alloc_frame_refines_example :
    let (r, s') = alloc_frame busy in
    let (q, p') = Pool.alloc busy_pool in (r ≡ q) × Represents s' p'
alloc_frame_refines_example = alloc_frame_refines busy busy_pool busy-Represents

free_frame_refines_example : Represents (free_frame 0x1000 busy) (Pool.give_back 0x1000 busy_pool)
free_frame_refines_example = free_frame_refines busy busy_pool 0x1000 busy-Represents refl

init-IsValid_example : IsValid (init 0xff1 0x3100 blank) [] []
init-IsValid_example = init-IsValid 0xff1 0x3100 blank three_pages

abbrev s₀ : Frames
s₀ = init 0xff1 0x3100 blank

abbrev s₁ : Frames
s₁ = (alloc_frame s₀).1

abbrev s₂ : Frames
s₂ = (alloc_frame s₁).1

two_taken : Reach s₀ s₂ (0x2000 ∷ 0x1000 ∷ [])
unfolding init alloc_frame
two_taken = next (next start (take (omega arith))) (take (omega arith))

Reach-IsSafe_example : IsSafe 0xff1 0x3100 s₂ (0x2000 ∷ 0x1000 ∷ [])
Reach-IsSafe_example = Reach-IsSafe 0xff1 0x3100 blank three_pages two_taken
