-- ===== src/Sched/Team.antt =====
-- `UserProcessTeam` and `UserProcessScheduler`: private/minkernel/src/UserProcessTeam.cpp and
-- private/minkernel/src/UserProcessScheduler.cpp.
pub mod Dispatch
pub mod Lifecycle
pub mod Reuse
pub mod Starve
mod Tests
use nekrnl.Prelude.{
  ℕ, zero, suc, ◌+◌, ◌^◌, Bool, true, false, not, ◌&&◌, ◌||◌, ltb, leb, ◌==◌, if◌then◌else◌, add64,
  sub64, List, [], ◌∷◌, ◌++◌, length, drop, Option, none, some,
}
use nekrnl.Prelude.Int.{ℤ, pos}
use nekrnl.Sched.Core.{
  Status, invalid, running, killed, is_status, standard, executable, process_limit, max_stack_size,
  name_len, process_fault, heap_out_of_memory,
}
use nekrnl.Sched.Process.{
  StackFrame, no_frame, Process, is_running, crash, first_char, can_be_scheduled, charge, boost,
  cooldown, pass_over, ExitEnv, exit_process,
}
use nekrnl.Sched.Threads.{Threads, switch}

-- A team. `process_cur` is the 64-bit word of a signed counter. The array has the slots below
-- `process_limit`; an operation that goes on with another index reads or writes what lies behind
-- it, and answers `none`. (`Run` also uses the id of the process that it dispatches as an index;
-- `Spawn` sets ids below the limit.)
pub record Team : Type 0 where
  pub process_list : ℕ → Process
  pub current_process : Process
  pub team_id : ℕ
  pub process_cur : ℕ

-- Signed readings of a 64-bit word.
abbrev pub is_negative : ℕ → Bool
is_negative w = leb (2 ^ 63) w

abbrev pub above : ℕ → ℕ → Bool
above w n = not (is_negative w) && ltb n w

abbrev pub set_process : ℕ → Process → Team → Team
set_process i p t = record t { process_list = λ j. if j == i then p else t.process_list j }

-- `UserProcessTeam::UserProcessTeam`; `fresh` is a process with the member initialisers.
unfoldable pub new_team : Process → Team
new_team fresh = record {
  process_list = λ i. record fresh { ptime = 0; rtime = 0; utime = 0; stime = 0; status = killed };
  current_process = fresh;
  team_id = 0;
  process_cur = 0;
}

-- What `Spawn` takes from the rest of the kernel: the two objects that it allocates, 0 when
-- there is no memory, the address of a slot's stack, and the page tables.
pub record SpawnEnv : Type 0 where
  pub new_frame : ℕ
  pub new_file_tree : ℕ
  pub stack_reserve : ℕ → ℕ
  pub kernel_vm : ℕ

-- The slot with its image, before the name is looked at.
abbrev pub load_image : ℕ → ℕ → ℕ → Process → Process
load_image code image image_sz p = record p { code = code; blob = image; blob_size = image_sz }

-- The slot with its name and its stack frame.
abbrev pub load_frame : SpawnEnv → ℕ → List ℕ → ℕ → Process → Process
load_frame env pid name code p = record p {
  name = name ++ drop (length name) p.name;
  vm_register = env.kernel_vm;
  stack_frame = record {
    at = env.new_frame;
    ip = code;
    sp = add64 (env.stack_reserve pid) p.stack_size;
  };
}

-- The slot as a running process.
abbrev pub start_process : ℕ → Process → Process
start_process pid p = record p {
  stack_size = max_stack_size;
  parent = true;
  process_id = pid;
  status = running;
  ptime = 0;
  affinity = standard;
  rtime = 0;
  utime = 0;
  stime = 0;
}

-- `Spawn` once it has a slot: the process it leaves there and the result.
unfoldable pub fill_slot : SpawnEnv → ℕ → List ℕ → ℕ → ℕ → ℕ → Process → ℕ × Process
fill_slot env pid name code image image_sz slot =
    let loaded = load_image code image image_sz slot in
    let framed = load_frame env pid name code loaded in
    let started = start_process pid framed in
    if ltb name_len (length name)
    then (sub64 0 process_fault, loaded)
    else if env.new_frame == 0
    then (sub64 0 process_fault, crash (record framed { stack_frame = no_frame }))
    else if started.file_tree == 0
    then if env.new_file_tree == 0
      then (sub64 0 heap_out_of_memory, crash started)
      else (pid, record started { file_tree = env.new_file_tree })
    else (pid, started)

-- `UserProcessScheduler::Spawn`; a name is its characters, `none` for a null pointer. The result
-- is `none` when it writes behind the array.
unfoldable pub spawn : SpawnEnv → Option (List ℕ) → ℕ → ℕ → ℕ → Team → Option (ℕ × Team)
spawn env none code image image_sz t = some (sub64 0 process_fault, t)
spawn env (some name) code image image_sz t =
    let pid = t.process_cur in
    if code == 0 || first_char name == 0
    then some (sub64 0 process_fault, t)
    else if above pid process_limit
    then some (sub64 0 process_fault, t)
    else if not (ltb pid process_limit)
    then none
    else let (result, p) = fill_slot env pid name code image image_sz (t.process_list pid) in
      some (result, set_process pid p (record t { process_cur = add64 pid 1 }))

-- `--this->Parent->mProcessCur`, the end of `Exit`, with the process that it leaves.
abbrev pub leave_team : ℕ → Team → Option Process → Option Team
leave_team i t none = none
leave_team i t (some p) =
    if p.parent
    then some (set_process i p (record t { process_cur = sub64 t.process_cur 1 }))
    else none

-- `UserProcess::Exit` in its slot. `none`: a panic, or a process without a team.
unfoldable pub exit_slot : ℕ → ExitEnv → ℤ → ℕ → Team → Option Team
exit_slot fuel env exit_code i t =
    leave_team i t (exit_process fuel env exit_code (t.process_list i))

-- `UserProcessScheduler::Remove`; `none` also when it reads behind the array.
unfoldable pub remove : ℕ → ExitEnv → ℕ → Team → Option Team
remove fuel env pid t =
    if is_negative pid || above pid process_limit
    then some t
    else if not (ltb pid process_limit)
    then none
    else if is_status (t.process_list pid).status invalid
    then some t
    else exit_slot fuel env (pos 0) pid t

-- `UserProcessHelper::TheCurrentPID`; `none` is the error.
unfoldable pub current_pid : Team → Option ℕ
current_pid t =
    if not (is_running t.current_process) then none else some t.current_process.process_id

-- `UserProcessScheduler::operator bool` and `operator!`, with the indices left.
unfoldable pub any_from : ℕ → Team → ℕ → ℕ → Bool
any_from trap t zero i = false
any_from trap t (suc n) i =
    let rest = any_from trap t n (i + 1) in
    if can_be_scheduled trap (t.process_list i) then true else rest

unfoldable pub any_scheduled : ℕ → Team → Bool
any_scheduled trap t = any_from trap t process_limit 0

unfoldable pub count_from : ℕ → Team → ℕ → ℕ → ℕ → ℕ
count_from trap t zero i cnt = cnt
count_from trap t (suc n) i cnt =
    let found = count_from trap t n (i + 1) (cnt + 1) in
    let missed = count_from trap t n (i + 1) cnt in
    if can_be_scheduled trap (t.process_list i) then found else missed

unfoldable pub none_scheduled : ℕ → Team → Bool
none_scheduled trap t = count_from trap t process_limit 0 0 == 0

-- `UserProcessScheduler` with the static index of `Run` and the cores.
pub record Scheduler : Type 0 where
  pub team : Team
  pub process_index : ℕ
  pub threads : Threads

-- `UserProcessScheduler::SwitchTeam`: an array's count is its capacity, so a team is never empty.
unfoldable pub switch_team : Team → Scheduler → Bool × Scheduler
switch_team team s = if ltb process_limit 1 then (false, s) else (true, record s { team = team })

-- The slot that `Run` looks at next.
abbrev pub next_index : ℕ → ℕ
next_index i = if ltb process_limit i then 0 else add64 i 1

module _ (register_task : StackFrame → ℕ → Bool) (trap : ℕ) where
  -- `Run` on the process in slot `i`.
  unfoldable pub dispatch : ℕ → Scheduler → Scheduler
  dispatch i s =
      let p = boost (charge (s.team.process_list i)) in
      let t = record s.team { current_process = p } in
      let charged = set_process i p t in
      let time = (charged.process_list p.process_id).ptime in
      let (ran, cores) = switch register_task p.stack_frame time s.threads in
      record s { team = set_process i (if ran then cooldown p else p) t; threads = cores }

  -- `UserProcessScheduler::Run`: the result and the state after it, `none` when it goes on with
  -- a slot behind the array.
  unfoldable pub run : Scheduler → Option (ℕ × Scheduler)
  run s =
      if is_negative s.team.process_cur || ltb s.team.process_cur 1
      then some (0, s)
      else let i = next_index s.process_index in
        let moved = record s { process_index = i } in
        let p = s.team.process_list i in
        if not (ltb i process_limit)
        then none
        else if can_be_scheduled trap p
        then some (i, dispatch i moved)
        else some (i, record moved { team = set_process i (pass_over p) s.team })
