-- ===== src/Pmm/Region.antt =====
-- The region that `pmmi_init` hands to the allocator, through any run of its clients.
use nekrnl.Prelude.{
  ℕ, ◌+◌, ◌-◌, ◌/◌, ◌%◌, ◌<◌, ◌≤◌, ◌≡◌, ◌↔◌, refl, List, [], ◌∷◌, Distinct, All, length, page_size,
  align_down, word, leb, arith, ◌∙◌, false, All-mono,
}
use native.Mathlib.Nat.{mod-eq_of_lt}
use nekrnl.Pmm.Alloc.{alloc_frame_none}
use nekrnl.Pmm.{Frames, init, alloc_frame, free_frame, free_frames, used_frames}
use nekrnl.Pmm.Inv.{Issued, IsValid}
use nekrnl.Pmm.Trace.{
  Step, take, exhausted, give, write, Reach, start, next, Reach-Valid, alloc_frame-zero,
}

-- A region above address 0 whose end does not wrap, with a whole page in it.
pub record IsRegion (base sz : ℕ) : Type 0 where
  pub above : 0 < base
  pub no_wrap : base + sz + page_size < word
  pub whole : align_down (base + (page_size - 1)) < align_down (base + sz)

-- The first page and the end of the last one.
abbrev pub first_page : ℕ → ℕ
first_page base = align_down (base + (page_size - 1))

abbrev pub last_page : ℕ → ℕ → ℕ
last_page base sz = align_down (base + sz)

abbrev started : ℕ → ℕ → Frames → Frames
started base sz s = record s {
  base = first_page base;
  cursor = first_page base;
  end = last_page base sz;
  free_head = 0;
  free = (last_page base sz - first_page base) / page_size;
  used = 0;
}

not_leb : (a b : ℕ) → a < b → leb b a ≡ false
not_leb a b h = ground arith

init-started : (base sz : ℕ) (s : Frames) → IsRegion base sz → init base sz s ≡ started base sz s
unfolding init
init-started base sz s r = rw (
  mod-eq_of_lt {n = base + sz} {m = word} (omega (arith, r.no_wrap)),
  mod-eq_of_lt {n = base + 4095} {m = word} (omega (arith, r.no_wrap)),
  not_leb _ _ r.whole,
)

started-IsValid : (base sz : ℕ) (s : Frames) → IsRegion base sz → IsValid (started base sz s) [] []
started-IsValid base sz s r = record {
  chain = refl;
  base_pos = omega (arith, r.above);
  base_aligned = omega arith;
  cursor_aligned = omega arith;
  end_aligned = omega arith;
  base_le = omega arith;
  cursor_le = omega (arith, r.whole);
  end_lt = omega (arith, r.no_wrap);
  fl_issued = tt;
  held_issued = tt;
  fl_distinct = tt;
  held_distinct = tt;
  apart = λ f m. cc;
  covered = omega arith;
  free_eq = omega arith;
  used_eq = refl;
}

alloc_frame-bounds :
    (s : Frames) → ((alloc_frame s).1.base ≡ s.base) × ((alloc_frame s).1.end ≡ s.end)
unfolding alloc_frame
alloc_frame-bounds s = ground arith

free_frame-bounds :
    (f : ℕ) (s : Frames) → ((free_frame f s).base ≡ s.base) × ((free_frame f s).end ≡ s.end)
unfolding free_frame
free_frame-bounds f s = ground arith

abbrev SameBounds : Frames → Frames → Type 0
SameBounds s t = (t.base ≡ s.base) × (t.end ≡ s.end)

Step-bounds : {s t : Frames} {held held' : List ℕ} → Step s held t held' → SameBounds s t
Step-bounds {s} (take ne) = alloc_frame-bounds s
Step-bounds {s} (exhausted e) = alloc_frame-bounds s
Step-bounds {s} (give f m) = free_frame-bounds f s
Step-bounds (write f a w m lo hi) = (refl, refl)

Reach-bounds : {s t : Frames} {held : List ℕ} → Reach s t held → SameBounds s t
Reach-bounds start = (refl, refl)
Reach-bounds (next r st) =
    ((Step-bounds st).0 ∙ (Reach-bounds r).0, (Step-bounds st).1 ∙ (Reach-bounds r).1)

-- On a region `pmmi_init` leaves the allocator valid, with every frame of the region free.
pub init-IsValid : (base sz : ℕ) (s : Frames) → IsRegion base sz → IsValid (init base sz s) [] []
init-IsValid base sz s r = rw (init-started base sz s r) (started-IsValid base sz s r)

alloc_frame-exhausted :
    (t : Frames) (fl held : List ℕ) → IsValid t fl held → t.free ≡ 0 → (alloc_frame t).0 ≡ 0
alloc_frame-exhausted t [] held v z =
    rw (alloc_frame_none t v.chain (λ l. omega (arith, v.free_eq, v.cursor_aligned, v.end_aligned)))
alloc_frame-exhausted t (f ∷ fs) held v z = absurd (omega (arith, v.free_eq))

-- What clients may rely on of the frames that they hold.
pub record IsSafe (base sz : ℕ) (t : Frames) (held : List ℕ) : Type 0 where
  pub distinct : Distinct held
  pub inside :
      All
        (λ f. (f % page_size ≡ 0) × (first_page base ≤ f) × (f + page_size ≤ last_page base sz))
        held
  pub counted : used_frames t ≡ length held
  pub conserved : free_frames t + used_frames t ≡ (last_page base sz - first_page base) / page_size
  pub available : ((alloc_frame t).0 ≡ 0) ↔ (free_frames t ≡ 0)

-- After `pmmi_init` on a region that does not lie at 0, ends a page or more below 2 ^ 64 and has a
-- whole page, and any sequence of allocations, writes to held frames, and frees
-- of held frames: no frame is held twice; each held frame is page-aligned and lies within the
-- region; the counter of used frames is their number; free and used frames add up to the pages of
-- the region; and an allocation fails exactly when the counter of free frames is 0.
pub Reach-IsSafe :
    (base sz : ℕ) (s : Frames) {t : Frames} {held : List ℕ}
    → IsRegion base sz
    → Reach (init base sz s) t held
    → IsSafe base sz t held
unfolding free_frames used_frames
Reach-IsSafe base sz s {t} {held} r run =
    let run' : Reach (started base sz s) t held = rw (init-started base sz s r) at run in
    let (fl, v) = Reach-Valid (started-IsValid base sz s r) run' in
    let b = Reach-bounds run' in
    record {
      distinct = v.held_distinct;
      inside =
          All-mono (Issued t) _ held
            (λ f i. (i.0, omega arith, omega (arith, v.cursor_aligned, v.cursor_le))) v.held_issued;
      counted = v.used_eq;
      conserved = omega (
        arith, v.covered, v.free_eq, v.used_eq, v.cursor_aligned, v.base_aligned, v.end_aligned,
        v.cursor_le, v.base_le,
      );
      available =
          ((λ e. (alloc_frame-zero t fl held v e).1), λ z. alloc_frame-exhausted t fl held v z);
    }
