-- ===== src/Sched/Team/Tests.antt =====
-- The scheduler on a small team and eight cores.
use nekrnl.Prelude.{
  ℕ, ◌≡◌, refl, Bool, true, false, ◌==◌, ltb, if◌then◌else◌, arith, [], ◌∷◌, none, ◌<◌,
}
use nekrnl.Prelude.Int.{pos}
use nekrnl.Heap.Mgr.{success}
use nekrnl.Sched.Core.{standard, killed, running, executable}
use nekrnl.Sched.Process.{StackFrame, no_frame, Process, ExitEnv, exit_frees, can_be_scheduled}
use nekrnl.Sched.Threads.{
  Thread, Threads, ap_standard, ap_boot, switch, switch_from, thread_switch, check_task,
}
use nekrnl.Sched.Team.{
  Team, new_team, SpawnEnv, fill_slot, remove, Scheduler, run, any_scheduled, none_scheduled,
  set_process, dispatch,
}
use nekrnl.Sched.Team.Reuse.{IsClosable, leaf, link, Removed, remove-IsClosed}
use nekrnl.Sched.Team.Dispatch.{run_times, run_times-behind}
use nekrnl.Sched.Cores.{is_blocked, switch-IsTaken}
use nekrnl.Sched.Switch.{IsTaken}

abbrev blank : Process
blank = record {
  name = [];
  stack_frame = no_frame;
  affinity = standard;
  status = killed;
  stack_size = 8192;
  dylib_delegate = 0;
  signal_id = 0;
  code = 0;
  blob = 0;
  blob_size = 0;
  file_tree = 0;
  heap_tree = 0;
  vm_register = 0;
  ptime = 0;
  rtime = 0;
  utime = 0;
  stime = 0;
  process_id = 0;
  kind = executable;
  parent = false;
  last_exit_code = pos 0;
}

abbrev shell : Process
shell = record blank {
  name = b's' ∷ [];
  status = running;
  parent = true;
  code = 64;
  heap_tree = 8192;
}

abbrev empty_team : Team
empty_team = record {
  process_list = λ i. blank;
  current_process = blank;
  team_id = 0;
  process_cur = 0;
}

-- Two running processes, in the slots 0 and 1.
abbrev two_running : Team
two_running = record empty_team {
  process_list = λ i. if ltb i 2 then shell else blank;
  process_cur = 2;
}

abbrev spawn_env : SpawnEnv
spawn_env = record {
  new_frame = 4096;
  new_file_tree = 8192;
  stack_reserve = λ i. 65536;
  kernel_vm = 0;
}

abbrev exit_env : ExitEnv
exit_env = record {
  node = λ a.
      if a == 8192
      then record { entry = 640; next = 8256; child = 0 }
      else record { entry = 0; next = 0; child = 0 };
  is_valid_ptr = λ a. true;
  free_ptr = λ a. success;
  frees_bit_map = λ a. true;
  fini_dylib_ok = true;
}

abbrev idle_core : Thread
idle_core = record {
  stack = no_frame;
  kind = ap_standard;
  id = 1;
  wakeup = false;
  busy = false;
  ptime = 0;
}

-- The boot core and seven others.
abbrev cores : Threads
cores = record {
  thread_list = λ i. if i == 0 then record idle_core { kind = ap_boot } else idle_core;
  current_idx = 0;
}

abbrev accepts : StackFrame → ℕ → Bool
accepts frame id = true

abbrev frame : StackFrame
frame = record { at = 4096; ip = 64; sp = 73728 }

shell-IsClosable : IsClosable 3 exit_env shell
unfolding exit_frees
shell-IsClosable = record {
  status_known = refl;
  has_parent = refl;
  heap = link refl refl refl leaf (link refl refl refl leaf leaf);
  files = leaf;
  unmaps = refl;
  frees = refl;
  unloads = λ e. refl;
}

remove-IsClosed_example : Removed 0 two_running (remove 3 exit_env 0 two_running)
remove-IsClosed_example = remove-IsClosed 3 exit_env 0 two_running (omega arith) shell-IsClosable

abbrev worn : Process
worn = record shell { rtime = 100 }

abbrev machine : Scheduler
machine = record { team = two_running; process_index = 0; threads = cores }

run_times-behind_example : run_times accepts 4 32 machine ≡ none
run_times-behind_example = run_times-behind accepts 4 31 machine (omega arith, omega arith) refl

two_scheduled : any_scheduled 4 two_running ≡ true
unfolding any_scheduled nekrnl.Sched.Team.any_from can_be_scheduled
two_scheduled = refl

switch_runs : (switch accepts frame 0 cores).0 ≡ true
unfolding switch switch_from thread_switch check_task
switch_runs = refl

switch-IsTaken_example :
    ((i : ℕ) × (i < 8)
      × IsTaken frame 0 (cores.thread_list i) ((switch accepts frame 0 cores).1.thread_list i))
    × ((j : ℕ)
        → is_blocked (cores.thread_list j) ≡ true
        → (switch accepts frame 0 cores).1.thread_list j ≡ cores.thread_list j)
switch-IsTaken_example = switch-IsTaken accepts frame 0 cores switch_runs

-- A null frame is refused by every core.
switch_refused : (switch accepts no_frame 0 cores).0 ≡ false
unfolding switch switch_from thread_switch check_task
switch_refused = refl
