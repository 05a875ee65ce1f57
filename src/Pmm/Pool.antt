-- ===== src/Pmm/Pool.antt =====
-- The frame allocator as its clients see it: a stack of recycled frames above a run of fresh ones.
use nekrnl.Prelude.{ℕ, ◌+◌, ltb, if◌then◌else◌, page_size, List, [], ◌∷◌, erase}

pub record Pool : Type 0 where
  pub recycled : List ℕ
  pub next : ℕ
  pub stop : ℕ
  pub held : List ℕ

unfoldable pub alloc_on : List ℕ → Pool → ℕ × Pool
alloc_on (f ∷ fs) p = (f, record p { recycled = fs; held = f ∷ p.held })
alloc_on [] p =
    if ltb p.next p.stop
    then (p.next, record p { next = p.next + page_size; held = p.next ∷ p.held })
    else (0, p)

-- The latest frame that was given back, else the next fresh one, else none.
unfoldable pub alloc : Pool → ℕ × Pool
unfolding alloc_on
alloc p = alloc_on p.recycled p

unfoldable pub give_back : ℕ → Pool → Pool
give_back f p = record p { recycled = f ∷ p.recycled; held = erase f p.held }
