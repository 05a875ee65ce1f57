-- ===== src/Sched/Tree/Tests.antt =====
-- Requests in a process with an empty heap tree.
use nekrnl.Prelude.{ℕ, ◌≡◌, refl, true, arith, Option, none, some, [], ◌∷◌}
use nekrnl.Prelude.Int.{pos}
use nekrnl.Sched.Core.{standard, running, executable}
use nekrnl.Sched.Process.{no_frame, Process}
use nekrnl.Sched.Tree.{free_tree, Node, Owner, new, new_node, find_spot, go_upper}
use nekrnl.Sched.Tree.Walk.{IsPair, IsChain}

abbrev program : Process
program = record {
  name = b'p' ∷ [];
  stack_frame = no_frame;
  affinity = standard;
  status = running;
  stack_size = 8192;
  dylib_delegate = 0;
  signal_id = 0;
  code = 64;
  blob = 0;
  blob_size = 0;
  file_tree = 0;
  heap_tree = 0;
  vm_register = 0;
  ptime = 0;
  rtime = 0;
  utime = 0;
  stime = 0;
  process_id = 0;
  kind = executable;
  parent = true;
  last_exit_code = pos 0;
}

abbrev no_node : Node
no_node = new_node 0 0 0 0

abbrev empty : Owner
empty = record { nodes = λ a. no_node; heap_tree = 0; used_memory = 0; process = program }

-- The owner after a request, or the empty one if there is none.
abbrev owner_of : Option (Option ℕ × Owner) → Owner
owner_of none = empty
owner_of (some (r, o)) = o

abbrev one : Owner
one = owner_of (new 9 1000 16 32 0 empty)

abbrev two : Owner
two = owner_of (new 9 2000 24 48 0 one)

abbrev three : Owner
three = owner_of (new 9 3000 32 48 0 two)

two-IsPair : IsPair two 24
unfolding new find_spot go_upper
two-IsPair = record {
  root_pos = omega arith;
  n1_pos = omega arith;
  apart = omega arith;
  root_size = omega arith;
  n1_size = omega arith;
  root_parent = refl;
  root_child = refl;
  root_next = refl;
  memory_left = refl;
}

three-IsChain : IsChain three 24 32 64
unfolding new find_spot go_upper
three-IsChain = record {
  pair = record {
    root_pos = omega arith;
    n1_pos = omega arith;
    apart = omega arith;
    root_size = omega arith;
    n1_size = omega arith;
    root_parent = refl;
    root_child = refl;
    root_next = refl;
    memory_left = refl;
  };
  red = refl;
  n1_parent = refl;
  n1_child = refl;
  n1_next = refl;
  n1_other = omega arith;
  n2_other = omega arith;
}

-- `Exit` frees the entries and the nodes of three requests.
three_freed :
    free_tree (λ a. true) 4 three.nodes three.heap_tree
    ≡ some (1000 ∷ 16 ∷ 2000 ∷ 24 ∷ 3000 ∷ 32 ∷ [])
unfolding free_tree new find_spot go_upper
three_freed = refl
