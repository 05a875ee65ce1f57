-- ===== src/Sched/Process.antt =====
-- `UserProcess`: private/minkernel/KernelKit/UserProcessScheduler.h and private/minkernel/src/UserProcessScheduler.cpp.
use nekrnl.Prelude.{
  ℕ, zero, suc, ◌/◌, Bool, true, false, not, ◌&&◌, ◌||◌, ltb, ◌==◌, if◌then◌else◌, add64, sub64,
  List, [], ◌∷◌, ◌++◌, Option, none, some,
}
use nekrnl.Prelude.Int.{ℤ}
use nekrnl.Heap.Mgr.{Result, success, not_present, stopped}
use nekrnl.Sched.Core.{
  Status, running, killed, frozen, finished, is_status, Affinity, no_affinity, ultra_high,
  very_high, high, standard, low_usage, level, is_affinity, ExecutableKind, executable,
  executable_dylib, invalid_executable, max_stack_size,
}

-- `HAL::StackFrame`, as far as the scheduler reads it; `at` is its address, 0 for no frame.
pub record StackFrame : Type 0 where
  pub at : ℕ
  pub ip : ℕ
  pub sp : ℕ

abbrev pub no_frame : StackFrame
no_frame = record { at = 0; ip = 0; sp = 0 }

-- A `UserProcess`. Pointers are addresses, 0 for null; counters are 64-bit words;
-- `parent` tells that `Parent` points to the scheduler's team, which `Spawn` sees to.
pub record Process : Type 0 where
  pub name : List ℕ
  pub stack_frame : StackFrame
  pub affinity : Affinity
  pub status : Status
  pub stack_size : ℕ
  pub dylib_delegate : ℕ
  pub signal_id : ℕ
  pub code : ℕ
  pub blob : ℕ
  pub blob_size : ℕ
  pub file_tree : ℕ
  pub heap_tree : ℕ
  pub vm_register : ℕ
  pub ptime : ℕ
  pub rtime : ℕ
  pub utime : ℕ
  pub stime : ℕ
  pub process_id : ℕ
  pub kind : ExecutableKind
  pub parent : Bool
  pub last_exit_code : ℤ

-- `UserProcess::operator bool`
unfoldable pub is_running : Process → Bool
is_running p = is_status p.status running

-- `UserProcess::Crash`
unfoldable pub crash : Process → Process
crash p = if not (is_status p.status running) then p else record p { status = killed }

-- `UserProcess::Wake`
unfoldable pub wake : Bool → Process → Process
wake should_wakeup p = record p { status = if should_wakeup then running else frozen }

-- `UserProcess::InitDylib`; `delegate` is what `rtl_init_dylib_pef` returns.
unfoldable pub init_dylib : ℕ → Process → Bool × Process
init_dylib delegate p = elim p.kind [
  | executable_dylib ↦
      let loaded = record p { dylib_delegate = delegate } in
      if delegate == 0 then (false, crash loaded) else (true, loaded)
  | executable ↦ (false, p)
  | invalid_executable ↦ (false, crash p)
]

-- The name's first character, 0 for an empty name.
abbrev pub first_char : List ℕ → ℕ
first_char [] = 0
first_char (c ∷ cs) = c

-- `UserProcessHelper::CanBeScheduled`; `trap` is the number of the trap signal.
unfoldable pub can_be_scheduled : ℕ → Process → Bool
can_be_scheduled trap p =
    if is_affinity p.affinity ultra_high
    then true
    else if not (is_status p.status running)
    then false
    else if is_affinity p.affinity no_affinity
    then false
    else if ltb max_stack_size p.stack_size
    then false
    else if first_char p.name == 0
    then false
    else if p.signal_id == trap
    then false
    else ltb p.ptime 1

-- The used time and the boost that `Run` gives before the switch.
unfoldable pub charge : Process → Process
charge p = if ltb p.utime p.ptime then record p { utime = add64 p.utime 1 } else p

unfoldable pub boost : Process → Process
boost p =
    if ltb 0 p.stime
    then (let gain = p.stime / 10 in
        let capped = if ltb (level high) gain then level high else gain in
        record p { ptime = add64 p.ptime capped; stime = 0 })
    else p

-- The run time that the cooldown takes off.
unfoldable pub cooldown_rtime : ℕ → ℕ
cooldown_rtime rtime =
    if ltb rtime (level very_high)
    then add64 rtime (level low_usage)
    else if ltb rtime (level high)
    then add64 rtime (level standard)
    else if ltb rtime (level standard)
    then add64 rtime (level high)
    else rtime

-- What `Run` does to a process that a core has taken.
unfoldable pub cooldown : Process → Process
cooldown p =
    if ltb p.ptime p.rtime && not (is_affinity ultra_high p.affinity)
    then record p { ptime = sub64 p.ptime (cooldown_rtime p.rtime); rtime = 0 }
    else if not (is_affinity ultra_high p.affinity)
    then record p { ptime = add64 p.ptime (level ultra_high) }
    else p

-- What `Run` does to a process that cannot be scheduled.
unfoldable pub pass_over : Process → Process
pass_over p = record p {
  stime = if is_status p.status frozen then add64 p.stime 1 else p.stime;
  rtime = add64 p.rtime 1;
  ptime = sub64 p.ptime 1;
}

-- A `PROCESS_HEAP_TREE` or `PROCESS_FILE_TREE`, as far as `sched_free_ptr_tree` reads it.
pub record TreeNode : Type 0 where
  pub entry : ℕ
  pub next : ℕ
  pub child : ℕ

-- What `Exit` meets in the other managers: the nodes of its trees by their addresses, which
-- pointers are valid, how `mm_free_ptr` of a pointer ends, and which calls of `mm_free_bitmap`
-- succeed.
pub record ExitEnv : Type 0 where
  pub node : ℕ → TreeNode
  pub is_valid_ptr : ℕ → Bool
  pub free_ptr : ℕ → Result
  pub frees_bit_map : ℕ → Bool
  pub fini_dylib_ok : Bool

-- `next->Child`, null when `next` is.
abbrev pub child_of : ExitEnv → ℕ → ℕ
child_of env next = if next == 0 then 0 else (env.node next).child

abbrev pub is_freed : Result → Bool
is_freed success = true
is_freed not_present = false
is_freed stopped = false

abbrev pub is_stopped : Result → Bool
is_stopped success = false
is_stopped not_present = false
is_stopped stopped = true

-- `MUST_PASS` of the entry of a node.
abbrev pub keeps_entry : ExitEnv → ℕ → Bool
keeps_entry env entry = not (entry == 0) && not (is_freed (env.free_ptr entry))

-- One walk behind another: `none` is the missing fuel, `some false` a panic.
abbrev pub and_also : Option Bool → Option Bool → Option Bool
and_also none rest = none
and_also (some false) rest = some false
and_also (some true) rest = rest

-- `sched_free_ptr_tree`. A node is not read again once it is freed, so its `Child` need not be
-- cleared here.
unfoldable pub free_ptr_tree : ℕ → ExitEnv → ℕ → Option Bool
free_ptr_tree zero env tree = none
free_ptr_tree (suc fuel) env tree =
    let next = (env.node tree).next in
    let below = free_ptr_tree fuel env (child_of env next) in
    let rest = free_ptr_tree fuel env next in
    if tree == 0
    then some true
    else if keeps_entry env (env.node tree).entry
    then some false
    else and_also (if child_of env next == 0 then some true else below)
        (if is_stopped (env.free_ptr tree) then some false else rest)

-- The pointers that `Exit` hands to `mm_free_ptr` besides the trees, in the order of the calls.
unfoldable pub exit_frees : ExitEnv → Process → List ℕ
exit_frees env p = freed p.code ++ freed p.blob ++ freed p.stack_frame.at
  where
    freed : ℕ → List ℕ
    freed ptr = if not (ptr == 0) && env.is_valid_ptr ptr then ptr ∷ [] else []

-- Whether one of the calls of `mm_free_ptr` stops the kernel.
abbrev pub any_stopped : ExitEnv → List ℕ → Bool
any_stopped env [] = false
any_stopped env (ptr ∷ ptrs) = is_stopped (env.free_ptr ptr) || any_stopped env ptrs

-- What follows a walk: nothing, when it panics or the fuel ends.
abbrev pub behind_walk : Option Bool → Option Process → Option Process
behind_walk none rest = none
behind_walk (some false) rest = none
behind_walk (some true) rest = rest

-- The page directory and the library of the process, which is left as `closed`.
abbrev pub unload : ExitEnv → ExecutableKind → Process → Option Process
unload env executable_dylib closed =
    if env.fini_dylib_ok then some (record closed { dylib_delegate = 0 }) else none
unload env executable closed = some closed
unload env invalid_executable closed = some closed

abbrev pub unmap : ExitEnv → ℕ → Option Process → Option Process
unmap env vm_register rest =
    if not (vm_register == 0) && not (env.frees_bit_map vm_register) then none else rest

-- `UserProcess::Exit` on the process itself; `none` is a panic: an entry of a tree, or the page
-- directory, that is not freed, a call of `mm_free_ptr` that stops the kernel, or a library that
-- will not unload. The fuel is for the trees.
unfoldable pub exit_process : ℕ → ExitEnv → ℤ → Process → Option Process
exit_process fuel env exit_code p =
    let closed = record p {
      last_exit_code = exit_code;
      heap_tree = 0;
      file_tree = 0;
      blob = 0;
      code = 0;
      stack_frame = no_frame;
      process_id = 0;
      status = finished;
    } in
    behind_walk (free_ptr_tree fuel env p.heap_tree) (
      behind_walk (free_ptr_tree fuel env p.file_tree) (
        unmap env p.vm_register
          (if any_stopped env (exit_frees env p) then none else unload env p.kind closed)))
