-- ===== src/Sched/Threads.antt =====
-- `HardwareThread`, `HardwareThreadScheduler` and `UserProcessHelper::Switch`:
-- private/minkernel/src/HardwareThreadScheduler.cpp and private/minkernel/src/UserProcessScheduler.cpp.
use nekrnl.Prelude.{
  ℕ, zero, suc, ◌+◌, Bool, true, false, not, ◌&&◌, ◌||◌, ltb, ◌==◌, if◌then◌else◌, Option, none,
  some,
}
use nekrnl.Sched.Core.{max_threads}
use nekrnl.Sched.Process.{StackFrame}

-- `ThreadKind`
pub data ThreadKind : Type 0 where
  ap_invalid : ThreadKind
  ap_system_reserved : ThreadKind
  ap_standard : ThreadKind
  ap_real_time : ThreadKind
  ap_boot : ThreadKind

-- `Kind() == kAPInvalid || Kind() == kAPBoot`
abbrev pub is_skipped : ThreadKind → Bool
is_skipped ap_invalid = true
is_skipped ap_system_reserved = false
is_skipped ap_standard = false
is_skipped ap_real_time = false
is_skipped ap_boot = true

pub record Thread : Type 0 where
  pub stack : StackFrame
  pub kind : ThreadKind
  pub id : ℕ
  pub wakeup : Bool
  pub busy : Bool
  pub ptime : ℕ

-- The list of the cores and the core that was looked up last.
pub record Threads : Type 0 where
  pub thread_list : ℕ → Thread
  pub current_idx : ℕ

abbrev pub set_thread : ℕ → Thread → Threads → Threads
set_thread i t ts = record ts { thread_list = λ j. if j == i then t else ts.thread_list j }

-- `hal_check_task` of private/minkernel/HALKit/AMD64/HalSchedulerCorePrimitives.cpp
unfoldable pub check_task : StackFrame → Bool
check_task frame = if frame.at == 0 then false else ltb 0 frame.sp && ltb 0 frame.ip

-- `HardwareThread::operator bool`
unfoldable pub is_available : Thread → Bool
is_available t = not (t.stack.at == 0) && not t.busy

-- `HardwareThreadScheduler::operator[]`; `none` is the null thread.
unfoldable pub thread_at : ℕ → Threads → Option Thread × Threads
thread_at idx ts =
    if ltb max_threads idx
    then (none, ts)
    else (some (ts.thread_list idx), record ts { current_idx = idx })

-- `HardwareThreadScheduler::Leak`
unfoldable pub current_stack : Threads → StackFrame
current_stack ts = (ts.thread_list ts.current_idx).stack

module _ (register_task : StackFrame → ℕ → Bool) where
  -- `HardwareThread::Switch`; `register_task` is `mp_register_task`, which each machine has its own of.
  unfoldable pub thread_switch : StackFrame → Thread → Bool × Thread
  thread_switch frame t =
      if frame.at == 0
      then (false, t)
      else if not (check_task frame)
      then (false, t)
      else if frame.ip == 0 || frame.sp == 0
      then (false, t)
      else (register_task frame t.id, record t { stack = frame })

  -- `UserProcessHelper::Switch`, with the cores left to look at; `ptime` is the process's time.
  unfoldable pub switch_from : StackFrame → ℕ → ℕ → ℕ → Threads → Bool × Threads
  switch_from frame ptime zero index ts = (false, ts)
  switch_from frame ptime (suc n) index ts =
      let looked = record ts { current_idx = index } in
      let t = ts.thread_list index in
      let (ran, t') = thread_switch frame (record t { busy = true }) in
      let skipped = switch_from frame ptime n (index + 1) looked in
      let failed = switch_from frame ptime n (index + 1) (set_thread index t' looked) in
      if is_skipped t.kind || t.busy
      then skipped
      else if not ran
      then failed
      else (true, set_thread index (record t' { ptime = ptime }) looked)

  unfoldable pub switch : StackFrame → ℕ → Threads → Bool × Threads
  switch frame ptime ts = switch_from frame ptime max_threads 0 ts
