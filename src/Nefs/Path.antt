-- ===== src/Nefs/Path.antt =====
-- The paths of private/minkernel/src/FS/NeFS+FileSystemParser.cpp: the parent's name and the
-- child's, as `FindCatalog` and `CreateCatalog` cut them.
pub mod Leaf
pub mod Parent
use nekrnl.Prelude.{
  ℕ, zero, suc, ◌+◌, ◌-◌, ◌≡◌, ◌<◌, ◌≤◌, refl, Bool, true, false, not, ◌&&◌, ◌==◌, if◌then◌else◌,
  Option, none, some, List, [], ◌∷◌, ◌++◌, length, get_or, take, drop, arith,
}

abbrev pub slash : ℕ
slash = 47

-- The loop that goes back to a separator or to the start of the path.
unfoldable pub back_to : List ℕ → ℕ → ℕ
back_to path zero = zero
back_to path (suc i) =
    let rest = back_to path i in if get_or path (suc i) 0 == slash then suc i else rest

-- Where it starts: a separator at the end is dropped.
abbrev pub path_end : List ℕ → ℕ
path_end path = let last = length path - 1 in if get_or path last 0 == slash then last - 1 else last

-- The parent's name, with its separator, or none.
unfoldable pub parent_name : List ℕ → Option (List ℕ)
parent_name path =
    let stop = back_to path (path_end path) in
    if stop == 0 && not (get_or path 0 0 == slash) then none else some (take (suc stop) path)

-- The loop `while (name[i] != '/') --i;`, `none` when it leaves the string.
unfoldable pub find_slash : List ℕ → ℕ → Option ℕ
find_slash path zero = if get_or path 0 0 == slash then some 0 else none
find_slash path (suc i) =
    let rest = find_slash path i in if get_or path (suc i) 0 == slash then some (suc i) else rest

-- The name of a new catalog: the path from its last separator on.
abbrev pub leaf_from : List ℕ → Option ℕ → Option (List ℕ)
leaf_from path none = none
leaf_from path (some i) = some (drop i path)

unfoldable pub leaf_name : Bool → List ℕ → Option (List ℕ)
leaf_name is_dir path =
    leaf_from path (find_slash path (if is_dir then length path - 2 else length path - 1))
