-- ===== src/Nefs/Path/Parent.antt =====
-- The parent's name of a path of private/minkernel/src/FS/NeFS+FileSystemParser.cpp.
use nekrnl.Prelude.{
  ℕ, zero, suc, ◌+◌, ◌-◌, ◌≡◌, ◌<◌, refl, subst, ap, ◌∙◌, true, false, not, ◌&&◌, ◌==◌, some, List,
  [], ◌∷◌, ◌++◌, length, get_or, take, length-append, arith,
}
use nekrnl.Nefs.Path.{slash, back_to, path_end, parent_name}

-- No character of the list is a separator.
abbrev pub HasNoSlash : List ℕ → Type 0
HasNoSlash l = (i : ℕ) → i < length l → (get_or l i 0 == slash) ≡ false

get_or-append_right : (xs ys : List ℕ) (i : ℕ) → get_or (xs ++ ys) (length xs + i) 0 ≡ get_or ys i 0
get_or-append_right [] ys i = ap (λ j. get_or ys j 0) (omega arith)
get_or-append_right (x ∷ xs) ys i =
    ap (λ j. get_or (x ∷ (xs ++ ys)) j 0) {y = suc (length xs + i)} (omega arith)
    ∙ get_or-append_right xs ys i

get_or-append_left :
    (xs ys : List ℕ) (i : ℕ) → i < length xs → get_or (xs ++ ys) i 0 ≡ get_or xs i 0
get_or-append_left [] ys i h = absurd (omega arith)
get_or-append_left (x ∷ xs) ys zero h = refl
get_or-append_left (x ∷ xs) ys (suc i) h = get_or-append_left xs ys i (omega arith)

-- The loop passes over the characters that are no separators.
back_to-here : (path : List ℕ) (at : ℕ) → (get_or path at 0 == slash) ≡ true → back_to path at ≡ at
unfolding back_to
back_to-here path zero there = refl
back_to-here path (suc at) there = rw there refl

back_to-skip :
    (path : List ℕ) (at k : ℕ)
    → (get_or path at 0 == slash) ≡ true
    → ((i : ℕ) → i < k → (get_or path (suc at + i) 0 == slash) ≡ false)
    → back_to path (at + k) ≡ at
unfolding back_to
back_to-skip path at zero there clear = ap (back_to path) (omega arith) ∙ back_to-here path at there
back_to-skip path at (suc k) there clear =
    let last =
      subst (λ j. (get_or path j 0 == slash) ≡ false) (omega arith) (clear k (omega arith)) in
    ap (back_to path) {y = suc (at + k)} (omega arith)
    ∙ step last
    ∙ back_to-skip path at k there (λ i h. clear i (omega arith))
  where
    step :
        (get_or path (suc (at + k)) 0 == slash) ≡ false
        → back_to path (suc (at + k)) ≡ back_to path (at + k)
    step e = rw e refl

take_head : (xs ys : List ℕ) (c : ℕ) → take (suc (length xs)) (xs ++ c ∷ ys) ≡ xs ++ c ∷ []
take_head [] ys c = refl
take_head (x ∷ xs) ys c = ap (λ l. x ∷ l) (take_head xs ys c)

parent_from :
    (path : List ℕ) (at k : ℕ)
    → path_end path ≡ at + k
    → (get_or path at 0 == slash) ≡ true
    → ((i : ℕ) → i < k → (get_or path (suc at + i) 0 == slash) ≡ false)
    → parent_name path ≡ some (take (suc at) path)
unfolding parent_name
parent_from path at k from there clear =
    rw (from, back_to-skip path at k there clear, not_outside at there) refl
  where
    not_outside :
        (at : ℕ)
        → (get_or path at 0 == slash) ≡ true
        → (at == 0 && not (get_or path 0 0 == slash)) ≡ false
    not_outside zero e = rw e refl
    not_outside (suc at) e = ground arith

-- The path below the directory `d` with the child `l`, and what may follow the child's name.
abbrev path_to : List ℕ → List ℕ → List ℕ → List ℕ
path_to d l tail = d ++ slash ∷ (l ++ tail)

path_to-at :
    (d l tail : List ℕ) (j i : ℕ)
    → j ≡ length d + i
    → get_or (path_to d l tail) j 0 ≡ get_or (slash ∷ (l ++ tail)) i 0
path_to-at d l tail j i e =
    ap (λ j. get_or (path_to d l tail) j 0) e ∙ get_or-append_right d (slash ∷ (l ++ tail)) i

path_to-between :
    (d l tail : List ℕ)
    → HasNoSlash l
    → (j i : ℕ) → j ≡ suc (length d) + i
    → i < length l
    → (get_or (path_to d l tail) j 0 == slash) ≡ false
path_to-between d l tail clear j i e h =
    ap (λ c. c == slash)
      (path_to-at d l tail j (suc i) (omega arith) ∙ get_or-append_left l tail i h)
    ∙ clear i h

path_to-parent :
    (d l tail : List ℕ)
    → HasNoSlash l
    → path_end (path_to d l tail) ≡ length d + length l
    → parent_name (path_to d l tail) ≡ some (d ++ slash ∷ [])
path_to-parent d l tail clear from =
    parent_from (path_to d l tail) (length d) (length l) from
      (ap (λ c. c == slash) (path_to-at d l tail (length d) 0 (omega arith)))
      (λ i h. path_to-between d l tail clear (suc (length d) + i) i refl h)
    ∙ ap some (take_head d (l ++ tail) slash)

path_to-length :
    (d l tail : List ℕ) → length (path_to d l tail) - 1 ≡ length d + (length l + length tail)
path_to-length d l tail = omega (arith, length-append d (slash ∷ (l ++ tail)), length-append l tail)

-- Where the search for the parent starts, for a file and for a directory.
file_end :
    (d l : List ℕ) → HasNoSlash l → 0 < length l → path_end (path_to d l []) ≡ length d + length l
file_end d l clear some_char =
    let last = path_to-length d l [] in
    rw
      (path_to-between d l [] clear (length (path_to d l []) - 1) (length l - 1) (omega arith)
        (omega arith))
      (omega arith)

dir_end : (d l : List ℕ) → path_end (path_to d l (slash ∷ [])) ≡ length d + length l
dir_end d l =
    let last = path_to-length d l (slash ∷ []) in
    let behind : (get_or (path_to d l (slash ∷ [])) (length (path_to d l (slash ∷ [])) - 1) 0
          == slash)
        ≡ true =
      ap (λ c. c == slash)
        (path_to-at d l (slash ∷ []) (length (path_to d l (slash ∷ [])) - 1) (suc (length l + 0))
            (omega arith)
          ∙ get_or-append_right l (slash ∷ []) 0) in
    rw behind (omega arith)

append-nil : (l : List ℕ) → l ++ [] ≡ l
append-nil [] = refl
append-nil (x ∷ l) = ap (λ l. x ∷ l) (append-nil l)

-- The parent's name of a file `l` and of a directory `l` in the directory `d` is `d` with a
-- separator behind it, for a name `l` with characters and no separator.
pub parent_name_child :
    (d l : List ℕ)
    → HasNoSlash l
    → 0 < length l
    → (parent_name (d ++ slash ∷ l) ≡ some (d ++ slash ∷ []))
      × (parent_name (d ++ slash ∷ (l ++ slash ∷ [])) ≡ some (d ++ slash ∷ []))
parent_name_child d l clear some_char = (
  subst (λ m. parent_name (d ++ slash ∷ m) ≡ some (d ++ slash ∷ [])) (append-nil l)
      (path_to-parent d l [] clear (file_end d l clear some_char)),
  path_to-parent d l (slash ∷ []) clear (dir_end d l),
)
