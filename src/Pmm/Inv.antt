-- ===== src/Pmm/Inv.antt =====
-- What a state of the frame allocator means: which frames are free, and which are held.
use nekrnl.Prelude.{
  ℕ, ◌+◌, ◌-◌, ◌/◌, ◌%◌, ◌<◌, ◌≤◌, ◌≡◌, ◌≢◌, true, false, page_size, word, List, [], ◌∷◌, has,
  Distinct, All, length, arith, sym, subst,
}
use nekrnl.Pmm.{Frames, zero_page}

-- From `p` the words of the frames lead through the frames `fl` to 0.
abbrev pub Chain : (ℕ → ℕ) → ℕ → List ℕ → Type 0
Chain mem p [] = p ≡ 0
Chain mem p (f ∷ fs) = (p ≡ f) × (f ≢ 0) × Chain mem (mem f) fs

-- A frame below the cursor.
abbrev pub Issued : Frames → ℕ → Type 0
Issued s f = (f % page_size ≡ 0) × (s.base ≤ f) × (f < s.cursor)

-- `fl` are the recycled frames, in the order of the free list, and `held` those handed out.
pub record IsValid (s : Frames) (fl held : List ℕ) : Type 0 where
  pub chain : Chain s.mem s.free_head fl
  pub base_pos : 0 < s.base
  pub base_aligned : s.base % page_size ≡ 0
  pub cursor_aligned : s.cursor % page_size ≡ 0
  pub end_aligned : s.end % page_size ≡ 0
  pub base_le : s.base ≤ s.cursor
  pub cursor_le : s.cursor ≤ s.end
  pub end_lt : s.end < word
  pub fl_issued : All (Issued s) fl
  pub held_issued : All (Issued s) held
  pub fl_distinct : Distinct fl
  pub held_distinct : Distinct held
  pub apart : (f : ℕ) → has f fl ≡ true → has f held ≡ false
  pub covered : length fl + length held ≡ (s.cursor - s.base) / page_size
  pub free_eq : s.free ≡ length fl + (s.end - s.cursor) / page_size
  pub used_eq : s.used ≡ length held

-- A change of memory that spares the first word of the frames of `fs` keeps their chain.
pub Chain-frame :
    (mem mem' : ℕ → ℕ) (p : ℕ) (fs : List ℕ)
    → ((f : ℕ) → has f fs ≡ true → mem' f ≡ mem f)
    → Chain mem p fs
    → Chain mem' p fs
Chain-frame mem mem' p [] same c = c
Chain-frame mem mem' p (f ∷ fs) same c = (
  c.0,
  c.1,
  subst (λ q. Chain mem' q fs) (sym (same f (ground arith)))
      (Chain-frame mem mem' (mem f) fs (λ g h. same g (ground arith)) c.2),
)

-- A page is untouched by clearing another one.
pub zero_page_ne :
    (mem : ℕ → ℕ) (p f : ℕ)
    → p % page_size ≡ 0
    → f % page_size ≡ 0
    → f ≢ p
    → zero_page mem p f ≡ mem f
zero_page_ne mem p f hp hf ne = ground arith

pub All-Issued_mono :
    (s t : Frames) (xs : List ℕ)
    → s.base ≡ t.base
    → s.cursor ≤ t.cursor
    → All (Issued s) xs
    → All (Issued t) xs
All-Issued_mono s t [] b c h = h
All-Issued_mono s t (x ∷ xs) b c h =
    ((h.0.0, omega arith, omega arith), All-Issued_mono s t xs b c h.1)
