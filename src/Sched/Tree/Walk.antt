-- ===== src/Sched/Tree/Walk.antt =====
-- The search of `UserProcess::New` in private/minkernel/src/UserProcessScheduler.cpp.
use nekrnl.Prelude.{
  ℕ, zero, suc, ◌<◌, ◌≡◌, ◌≢◌, refl, ap, sym, ◌∙◌, Bool, false, not, ◌&&◌, ◌==◌, ltb, arith, none,
  some, add64,
}
use nekrnl.Sched.Process.{crash}
use nekrnl.Sched.Tree.{
  Node, Owner, red_tree, black_tree, go_upper, fits, find_spot, new_node, new, set_node, find_entry,
  delete, max_memory_limit,
}

-- A root with a first neighbour, both without children.
pub record IsPair (o : Owner) (n1 : ℕ) : Type 0 where
  pub root_pos : o.heap_tree ≢ 0
  pub n1_pos : n1 ≢ 0
  pub apart : n1 ≢ o.heap_tree
  pub root_size : 0 < (o.nodes o.heap_tree).entry_size
  pub n1_size : 0 < (o.nodes n1).entry_size
  pub root_parent : (o.nodes o.heap_tree).parent ≡ 0
  pub root_child : (o.nodes o.heap_tree).child ≡ 0
  pub root_next : (o.nodes o.heap_tree).next ≡ n1
  pub memory_left : ltb max_memory_limit o.used_memory ≡ false

-- The neighbour is red: a third entry follows it, with a size other than `c`.
pub record IsChain (o : Owner) (n1 n2 c : ℕ) : Type 0 where
  pub pair : IsPair o n1
  pub red : (o.nodes n1).color ≡ red_tree
  pub n1_parent : (o.nodes n1).parent ≡ o.heap_tree
  pub n1_child : (o.nodes n1).child ≡ 0
  pub n1_next : (o.nodes n1).next ≡ n2
  pub n1_other : (o.nodes n1).entry_size ≢ c
  pub n2_other : (o.nodes n2).entry_size ≢ c

null_test : (n : ℕ) → n ≢ 0 → (n == 0) ≡ false
null_test n h = ground arith

size_test : (n : ℕ) → 0 < n → ltb n 1 ≡ false
size_test n h = ground arith

other_test : (n c : ℕ) → n ≢ c → (n == c) ≡ false
other_test n c h = ground arith

not_fits : (nodes : ℕ → Node) (sz p : ℕ) → (nodes p).entry_size ≢ sz → fits nodes sz p ≡ false
not_fits nodes sz p n = miss (not (p == 0)) (ltb 0 (nodes p).entry_size) (nodes p).entry_size sz n
  where
    miss : (a b : Bool) (x y : ℕ) → x ≢ y → (a && b && x == y) ≡ false
    miss a b x y n = ground arith

go_upper-root : (o : Owner) (n1 : ℕ) → IsPair o n1 → go_upper o.nodes o.heap_tree ≡ n1
unfolding go_upper
go_upper-root o n1 p =
    rw (p.root_parent, null_test o.heap_tree p.root_pos, p.root_next, null_test n1 p.n1_pos) refl

go_upper-n1 : (o : Owner) (n1 n2 c : ℕ) → IsChain o n1 n2 c → go_upper o.nodes n1 ≡ n1
unfolding go_upper
go_upper-n1 o n1 n2 c k =
    rw
      (
        k.n1_parent,
        null_test o.heap_tree k.pair.root_pos,
        null_test n1 k.pair.n1_pos,
        k.pair.root_next,
        null_test n1 k.pair.n1_pos,
      )
      refl

stays :
    (fuel : ℕ) (o : Owner) (n1 n2 c prev : ℕ) (p : Bool)
    → IsChain o n1 n2 c
    → find_spot fuel o.nodes c n1 prev p ≡ none
unfolding find_spot
stays zero o n1 n2 c prev p k = refl
stays (suc fuel) o n1 n2 c prev p k =
    rw
      (
        null_test n1 k.pair.n1_pos,
        size_test (o.nodes n1).entry_size k.pair.n1_size,
        k.n1_child,
        k.n1_next,
        not_fits o.nodes c n2 k.n2_other,
        go_upper-n1 o n1 n2 c k,
        null_test n1 k.pair.n1_pos,
        k.red,
      )
      (stays fuel o n1 n2 c n1 p k)

search-stays :
    (fuel : ℕ) (o : Owner) (n1 n2 c : ℕ)
    → IsChain o n1 n2 c
    → find_spot fuel o.nodes c o.heap_tree o.heap_tree false ≡ none
unfolding find_spot
search-stays zero o n1 n2 c k = refl
search-stays (suc fuel) o n1 n2 c k =
    rw
      (
        null_test o.heap_tree k.pair.root_pos,
        size_test (o.nodes o.heap_tree).entry_size k.pair.root_size,
        k.pair.root_child,
        k.pair.root_next,
        not_fits o.nodes c n1 k.n1_other,
        go_upper-root o n1 k.pair,
        null_test n1 k.pair.n1_pos,
        k.red,
      )
      (stays fuel o n1 n2 c o.heap_tree false k)

-- In a tree whose root is followed by two entries of sizes other than the one asked for, with the
-- first of them red and below the root, as three requests of which the last two have the same size
-- leave it, the loop of `New` does not end: no fuel is enough.
pub new-never_ends :
    (fuel ptr fresh c pad : ℕ) (o : Owner) (n1 n2 : ℕ)
    → IsChain o n1 n2 c
    → new fuel ptr fresh c pad o ≡ none
unfolding new
new-never_ends fuel ptr fresh c pad o n1 n2 k =
    rw (k.pair.memory_left, null_test o.heap_tree k.pair.root_pos, search-stays fuel o n1 n2 c k)
      refl

-- The search stops at the first neighbour when that is black and of another size.
search-n1 :
    (fuel : ℕ) (o : Owner) (n1 c : ℕ)
    → IsPair o n1
    → (o.nodes n1).color ≡ black_tree
    → (o.nodes n1).entry_size ≢ c
    → find_spot (suc fuel) o.nodes c o.heap_tree o.heap_tree false
      ≡ some (record { at = n1; before = o.heap_tree; is_parent = false })
unfolding find_spot
search-n1 fuel o n1 c p black other =
    rw
      (
        null_test o.heap_tree p.root_pos,
        size_test (o.nodes o.heap_tree).entry_size p.root_size,
        p.root_child,
        p.root_next,
        not_fits o.nodes c n1 other,
        go_upper-root o n1 p,
        null_test n1 p.n1_pos,
        black,
      )
      refl

-- The process after `New` has put a node over the first neighbour.
abbrev replaced : ℕ → ℕ → ℕ → ℕ → ℕ → Owner → Owner
replaced ptr fresh c pad n1 o = record o {
  nodes =
      set_node fresh (record (new_node ptr c pad n1) { prev = o.heap_tree })
        (set_node o.heap_tree (record (o.nodes o.heap_tree) { color = red_tree; next = fresh })
          o.nodes);
  used_memory = add64 o.used_memory c;
}

new-replaces :
    (fuel ptr fresh c pad n1 : ℕ) (o : Owner)
    → IsPair o n1
    → (o.nodes n1).color ≡ black_tree
    → (o.nodes n1).entry_size ≢ c
    → fresh ≢ 0
    → new (suc fuel) ptr fresh c pad o ≡ some (some ptr, replaced ptr fresh c pad n1 o)
unfolding new
new-replaces fuel ptr fresh c pad n1 o p black other there =
    rw
      (
        p.memory_left,
        null_test o.heap_tree p.root_pos,
        search-n1 fuel o n1 c p black other,
        null_test fresh there,
      )
      refl

node_self : (p : ℕ) (n : Node) (nodes : ℕ → Node) → set_node p n nodes p ≡ n
node_self p n nodes = ground arith

node_ne : (p a : ℕ) (n : Node) (nodes : ℕ → Node) → a ≢ p → set_node p n nodes a ≡ nodes a
node_ne p a n nodes h = ground arith

find_entry-two :
    (fuel ptr root fresh : ℕ) (nodes : ℕ → Node)
    → root ≢ 0
    → fresh ≢ 0
    → (nodes root).entry ≢ ptr
    → (nodes root).next ≡ fresh
    → (nodes fresh).entry ≢ ptr
    → (nodes fresh).next ≡ 0
    → find_entry (suc (suc (suc fuel))) nodes ptr root ≡ some 0
unfolding find_entry
find_entry-two fuel ptr root fresh nodes r f er nr ef nf =
    rw
      (
        null_test root r,
        other_test (nodes root).entry ptr er,
        nr,
        null_test fresh f,
        other_test (nodes fresh).entry ptr ef,
        nf,
      )
      refl

-- When a process has a root entry and one entry behind it, `New` of a third size puts its node in
-- the place of the second: `Delete` of the second pointer, which the process still holds, then
-- finds nothing, frees nothing and crashes the process.
pub new-delete_crashes :
    (fuel ptr fresh c pad n1 : ℕ) (freed : Bool) (o : Owner)
    → IsPair o n1
    → (o.nodes n1).color ≡ black_tree
    → (o.nodes n1).entry_size ≢ c
    → fresh ≢ 0
    → fresh ≢ o.heap_tree
    → (o.nodes n1).entry ≢ 0
    → (o.nodes o.heap_tree).entry ≢ (o.nodes n1).entry
    → ptr ≢ (o.nodes n1).entry
    → (o' : Owner) × (new (suc fuel) ptr fresh c pad o ≡ some (some ptr, o'))
      × (delete 3 freed (o.nodes n1).entry o'
          ≡ some (false, record o' { process = crash o'.process }))
unfolding delete
new-delete_crashes fuel ptr fresh c pad n1 freed o p black other there apart held unlike fresh_ptr =
    let after = replaced ptr fresh c pad n1 o in
    let root =
      node_ne fresh o.heap_tree (record (new_node ptr c pad n1) { prev = o.heap_tree })
        (set_node o.heap_tree (record (o.nodes o.heap_tree) { color = red_tree; next = fresh })
          o.nodes)
        (λ e. apart (sym e))
      ∙ node_self o.heap_tree (record (o.nodes o.heap_tree) { color = red_tree; next = fresh })
          o.nodes in
    let third =
      node_self fresh (record (new_node ptr c pad n1) { prev = o.heap_tree })
        (set_node o.heap_tree (record (o.nodes o.heap_tree) { color = red_tree; next = fresh })
          o.nodes) in
    let missing =
      find_entry-two 0 (o.nodes n1).entry o.heap_tree fresh after.nodes p.root_pos there
        (λ e. unlike (sym (ap (λ n. n.entry) root) ∙ e)) (ap (λ n. n.next) root)
        (λ e. fresh_ptr (sym (ap (λ n. n.entry) third) ∙ e)) (ap (λ n. n.next) third) in
    (
      after,
      new-replaces fuel ptr fresh c pad n1 o p black other there,
      rw (null_test (o.nodes n1).entry held, null_test o.heap_tree p.root_pos, missing) refl,
    )
