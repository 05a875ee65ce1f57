-- ===== src/Nefs/Path/Leaf.antt =====
-- The names that `CreateCatalog` of private/minkernel/src/FS/NeFS+FileSystemParser.cpp cuts out of
-- a path, and the path.
use nekrnl.Prelude.{
  ℕ, zero, suc, ◌-◌, ◌≡◌, ◌≤◌, refl, sym, subst, Bool, true, false, not, ◌&&◌, ◌==◌, if◌then◌else◌,
  Option, none, some, List, [], ◌∷◌, ◌++◌, length, get_or, take, drop, take-append-drop, ==_iff,
  some_injective, none_not_some, Bool-cases, inl, inr, arith,
}
use native.Mathlib.Nat.{le_trans}
use nekrnl.Nefs.Path.{slash, back_to, path_end, parent_name, find_slash, leaf_name, leaf_from}

abbrev is_slash : List ℕ → ℕ → Bool
is_slash path i = get_or path i 0 == slash

-- Where `back_to` stops behind the start, there is a separator.
back_to-slash :
    (path : List ℕ) (i : ℕ) → (back_to path i == 0) ≡ false → is_slash path (back_to path i) ≡ true
unfolding back_to
back_to-slash path zero h = ground arith
back_to-slash path (suc i) h = elim (Bool-cases (is_slash path (suc i))) [
  | inl e ↦ rw (e, e) refl
  | inr e ↦
      rw e (
        back_to-slash path i
          (subst (λ b. ((if b then suc i else back_to path i) == 0) ≡ false) e h))
]

-- The two loops stop at the same separator.
find_slash-back_to :
    (path : List ℕ) (i : ℕ)
    → is_slash path (back_to path i) ≡ true
    → find_slash path i ≡ some (back_to path i)
unfolding find_slash back_to
find_slash-back_to path zero h = rw h refl
find_slash-back_to path (suc i) h = elim (Bool-cases (is_slash path (suc i))) [
  | inl e ↦ rw e refl
  | inr e ↦ rw e (
      find_slash-back_to path i
        (subst (λ b. is_slash path (if b then suc i else back_to path i) ≡ true) e h))
]

drop-drop : (n : ℕ) (xs : List ℕ) → drop 1 (drop n xs) ≡ drop (suc n) xs
drop-drop zero xs = refl
drop-drop (suc n) [] = refl
drop-drop (suc n) (x ∷ xs) = drop-drop n xs

abbrev stop_at : List ℕ → ℕ
stop_at path = back_to path (path_end path)

abbrev has_none : List ℕ → Bool
has_none path = stop_at path == 0 && not (is_slash path 0)

and_not : (x y : Bool) → (x && not y) ≡ false → x ≡ true → y ≡ true
and_not x y h e = ground arith

stop_at-slash : (path : List ℕ) → has_none path ≡ false → is_slash path (stop_at path) ≡ true
stop_at-slash path h = elim (Bool-cases (stop_at path == 0)) [
  | inl z ↦
      subst (λ i. is_slash path i ≡ true) (sym ((==_iff (stop_at path) 0).0 z))
        (and_not (stop_at path == 0) (is_slash path 0) h z)
  | inr n ↦ back_to-slash path (path_end path) n
]

if_some : (b : Bool) (x p : List ℕ) → (if b then none else some x) ≡ some p → (b ≡ false) × (x ≡ p)
if_some true x p h = ground arith
if_some false x p h = (refl, grind arith)

-- Where the search for the child's name starts.
starts_at :
    (is_dir : Bool) (path : List ℕ)
    → is_slash path (length path - 1) ≡ is_dir
    → (if is_dir then length path - 2 else length path - 1) ≡ path_end path
starts_at true path ends = rw ends (omega arith)
starts_at false path ends = rw ends refl

-- A path that ends in a separator when it names a directory, and only then, and that has a
-- parent's name, has a child's name too: the loop over it stays in the string. The parent's name
-- and the child's behind its separator are the path.
pub parent_name-leaf_name :
    (is_dir : Bool) (path p : List ℕ)
    → is_slash path (length path - 1) ≡ is_dir
    → parent_name path ≡ some p
    → (l : List ℕ) × (leaf_name is_dir path ≡ some l) × (p ++ drop 1 l ≡ path)
unfolding parent_name leaf_name
parent_name-leaf_name is_dir path p ends h =
    let (there, same) = if_some (has_none path) (take (suc (stop_at path)) path) p h in
    let found = find_slash-back_to path (path_end path) (stop_at-slash path there) in
    (
      drop (stop_at path) path,
      rw (starts_at is_dir path ends, found) refl,
      rw (sym same, drop-drop (stop_at path) path) (take-append-drop (suc (stop_at path)) path),
    )

choose_le :
    (b : Bool) (i j n : ℕ) (rest : Option ℕ)
    → i ≤ n
    → (rest ≡ some j → j ≤ n)
    → (if b then some i else rest) ≡ some j
    → j ≤ n
choose_le true i j n rest h r e = subst (λ j. j ≤ n) (some_injective i j e) h
choose_le false i j n rest h r e = r e

find_slash-le : (path : List ℕ) (i j : ℕ) → find_slash path i ≡ some j → j ≤ i
unfolding find_slash
find_slash-le path zero j e =
    choose_le (is_slash path 0) 0 j 0 none (omega arith) (λ n. absurd (none_not_some j n)) e
find_slash-le path (suc i) j e =
    choose_le (is_slash path (suc i)) (suc i) j (suc i) (find_slash path i) (omega arith)
      (λ r. let h = find_slash-le path i j r in omega arith) e

leaf_from-drop :
    (path leaf : List ℕ) (o : Option ℕ)
    → leaf_from path o ≡ some leaf
    → (i : ℕ) × (o ≡ some i) × (drop i path ≡ leaf)
leaf_from-drop path leaf none e = absurd (none_not_some leaf e)
leaf_from-drop path leaf (some i) e = (i, refl, some_injective (drop i path) leaf e)

-- A child's name is an end of the path.
pub leaf_name-drop :
    (is_dir : Bool) (path leaf : List ℕ)
    → leaf_name is_dir path ≡ some leaf
    → (i : ℕ) × (i ≤ length path) × (drop i path ≡ leaf)
unfolding leaf_name
leaf_name-drop is_dir path leaf e =
    let from = if is_dir then length path - 2 else length path - 1 in
    let (i, at, same) = leaf_from-drop path leaf (find_slash path from) e in
    (i, le_trans (find_slash-le path from i at) (start_le is_dir (length path)), same)
  where
    start_le : (is_dir : Bool) (n : ℕ) → (if is_dir then n - 2 else n - 1) ≤ n
    start_le true n = omega arith
    start_le false n = omega arith
