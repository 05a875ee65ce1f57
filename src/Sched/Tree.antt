-- ===== src/Sched/Tree.antt =====
-- The heap tree of a process: `UserProcess::New`, `UserProcess::Delete` and the tree functions of
-- private/minkernel/src/UserProcessScheduler.cpp and private/minkernel/KernelKit/UserProcessScheduler.inl.
pub mod Walk
mod Tests
use nekrnl.Prelude.{
  ℕ, zero, suc, ◌+◌, ◌*◌, Bool, true, false, not, ◌&&◌, ◌||◌, ltb, leb, ◌==◌, if◌then◌else◌, add64,
  sub64, List, [], ◌∷◌, ◌++◌, Option, none, some,
}
use nekrnl.Sched.Process.{Process, crash}

-- `TreeKind`
pub data TreeKind : Type 0 where
  red_tree black_tree : TreeKind

abbrev pub is_black : TreeKind → Bool
is_black red_tree = false
is_black black_tree = true

-- `ProcessHeapTree`. A pointer is an address, 0 for null.
pub record Node : Type 0 where
  pub entry : ℕ
  pub entry_size : ℕ
  pub entry_pad : ℕ
  pub color : TreeKind
  pub parent : ℕ
  pub child : ℕ
  pub prev : ℕ
  pub next : ℕ

-- The nodes in memory, the process's tree and the bytes it counts, with the process itself.
pub record Owner : Type 0 where
  pub nodes : ℕ → Node
  pub heap_tree : ℕ
  pub used_memory : ℕ
  pub process : Process

abbrev pub set_node : ℕ → Node → (ℕ → Node) → ℕ → Node
set_node p n nodes a = if a == p then n else nodes a

-- `kCPSMaxMemoryLimit`
abbrev pub max_memory_limit : ℕ
max_memory_limit = 128 * 1024 * 1024 * 1024

-- `sched_try_go_upper_ptr_tree`
unfoldable pub go_upper : (ℕ → Node) → ℕ → ℕ
go_upper nodes tree =
    let up = if not ((nodes tree).parent == 0) then (nodes tree).parent else tree in
    if tree == 0 then 0 else if (nodes up).next == 0 then up else (nodes up).next

-- Where the loop of `New` stops.
pub record Spot : Type 0 where
  pub at : ℕ
  pub before : ℕ
  pub is_parent : Bool

-- A child or a neighbour of the size that is asked for.
abbrev pub fits : (ℕ → Node) → ℕ → ℕ → Bool
fits nodes sz p = not (p == 0) && ltb 0 (nodes p).entry_size && (nodes p).entry_size == sz

-- The loop of `New` on fuel; `none` is a loop that is still running.
unfoldable pub find_spot : ℕ → (ℕ → Node) → ℕ → ℕ → ℕ → Bool → Option Spot
find_spot zero nodes sz entry prev_entry is_parent = none
find_spot (suc fuel) nodes sz entry prev_entry is_parent =
    let here : Spot = record { at = entry; before = prev_entry; is_parent = is_parent } in
    let down = find_spot fuel nodes sz (nodes entry).child entry true in
    let along = find_spot fuel nodes sz (nodes entry).next entry false in
    let up = go_upper nodes entry in
    let turn : Spot = record { at = up; before = entry; is_parent = is_parent } in
    let above = find_spot fuel nodes sz up entry is_parent in
    if entry == 0
    then some here
    else if ltb (nodes entry).entry_size 1
    then some here
    else if fits nodes sz (nodes entry).child
    then down
    else if fits nodes sz (nodes entry).next
    then along
    else if not (up == 0) && is_black (nodes up).color
    then some turn
    else above

abbrev pub new_node : ℕ → ℕ → ℕ → ℕ → Node
new_node ptr sz pad parent = record {
  entry = ptr;
  entry_size = sz;
  entry_pad = pad;
  color = black_tree;
  parent = parent;
  child = 0;
  prev = 0;
  next = 0;
}

-- Links a new node behind the spot.
abbrev pub link : ℕ → ℕ → ℕ → ℕ → Spot → (ℕ → Node) → ℕ → Node
link fresh ptr sz pad spot nodes =
    let before = record (nodes spot.before) { color = red_tree } in
    if spot.is_parent
    then set_node fresh (new_node ptr sz pad spot.before)
        (set_node spot.before (record before { child = fresh }) nodes)
    else set_node fresh (record (new_node ptr sz pad spot.at) { prev = spot.before })
        (set_node spot.before (record before { next = fresh }) nodes)

-- `New` in a process that has a tree. The error is `none` inside.
abbrev pub add_at : ℕ → ℕ → ℕ → ℕ → Owner → Option Spot → Option (Option ℕ × Owner)
add_at ptr fresh sz pad o none = none
add_at ptr fresh sz pad o (some spot) =
    if fresh == 0
    then some (none, record o { process = crash o.process })
    else some (
      some ptr,
      record o { nodes = link fresh ptr sz pad spot o.nodes; used_memory = add64 o.used_memory sz },
    )

-- `UserProcess::New`: `ptr` is what `mm_alloc_ptr` returns and `fresh` the address of the new
-- node, 0 when there is no memory. The outer `none` is a loop that needs more fuel.
unfoldable pub new : ℕ → ℕ → ℕ → ℕ → ℕ → Owner → Option (Option ℕ × Owner)
new fuel ptr fresh sz pad o =
    if ltb max_memory_limit o.used_memory
    then some (none, o)
    else if o.heap_tree == 0
    then if fresh == 0
      then some (none, record o { process = crash o.process })
      else some (
        some ptr,
        record o {
          nodes = set_node fresh (new_node ptr sz pad 0) o.nodes;
          heap_tree = fresh;
          used_memory = add64 o.used_memory sz;
        },
      )
    else add_at ptr fresh sz pad o (find_spot fuel o.nodes sz o.heap_tree o.heap_tree false)

-- `sched_free_ptr_tree` on fuel: the pointers that it hands to `mm_free_ptr`, in order. `is_freed`
-- tells which of the entries `mm_free_ptr` accepts; `none` is the panic on another one, or a walk
-- that needs more fuel.
abbrev pub then_free : Option (List ℕ) → Option (List ℕ) → Option (List ℕ)
then_free none second = none
then_free (some first) none = none
then_free (some first) (some second) = some (first ++ second)

abbrev pub free_entry : (ℕ → Bool) → ℕ → Option (List ℕ)
free_entry is_freed entry =
    if entry == 0 then some [] else if is_freed entry then some (entry ∷ []) else none

unfoldable pub free_tree : (ℕ → Bool) → ℕ → (ℕ → Node) → ℕ → Option (List ℕ)
free_tree is_freed zero nodes tree = none
free_tree is_freed (suc fuel) nodes tree =
    let next = (nodes tree).next in
    let closed = set_node tree (record (nodes tree) { child = 0 }) nodes in
    let children = free_tree is_freed fuel nodes (nodes next).child in
    let rest = free_tree is_freed fuel closed next in
    let below = if not (next == 0) && not ((nodes next).child == 0) then children else some [] in
    if tree == 0
    then some []
    else then_free (free_entry is_freed (nodes tree).entry)
        (then_free below (then_free (some (tree ∷ [])) rest))

-- The loop of `Delete` over the neighbours, on fuel: the node with the entry, 0 for none.
unfoldable pub find_entry : ℕ → (ℕ → Node) → ℕ → ℕ → Option ℕ
find_entry zero nodes ptr tree = none
find_entry (suc fuel) nodes ptr tree =
    let rest = find_entry fuel nodes ptr (nodes tree).next in
    if tree == 0 then some 0 else if (nodes tree).entry == ptr then some tree else rest

abbrev pub delete_at : Bool → Owner → Option ℕ → Option (Bool × Owner)
delete_at freed o none = none
delete_at freed o (some found) =
    if found == 0
    then some (false, record o { process = crash o.process })
    else some (freed, record o { used_memory = sub64 o.used_memory (o.nodes found).entry_size })

-- `UserProcess::Delete`: `freed` tells whether `mm_free_ptr` succeeds on the pointer.
unfoldable pub delete : ℕ → Bool → ℕ → Owner → Option (Bool × Owner)
delete fuel freed ptr o =
    if ptr == 0 || o.heap_tree == 0
    then some (false, o)
    else delete_at freed o (find_entry fuel o.nodes ptr o.heap_tree)
