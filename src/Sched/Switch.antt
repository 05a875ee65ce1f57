-- ===== src/Sched/Switch.antt =====
-- What `UserProcessHelper::Switch` of private/minkernel/src/UserProcessScheduler.cpp does to the cores.
use nekrnl.Prelude.{ℕ, suc, ◌+◌, ◌≡◌, ◌≢◌, refl, Bool, true, false, ◌||◌, arith}
use nekrnl.Sched.Process.{StackFrame}
use nekrnl.Sched.Threads.{
  Thread, Threads, is_skipped, set_thread, thread_switch, switch_from, check_task,
}

-- A core that took a task: it was usable and idle, and it is busy with the frame.
pub record IsTaken (frame : StackFrame) (ptime : ℕ) (before after : Thread) : Type 0 where
  pub usable : is_skipped before.kind ≡ false
  pub idle : before.busy ≡ false
  pub is_busy : after.busy ≡ true
  pub runs : after.stack ≡ frame
  pub time_eq : after.ptime ≡ ptime
  pub kind_eq : after.kind ≡ before.kind
  pub id_eq : after.id ≡ before.id
  pub frame_pos : frame.at ≢ 0

pub set_thread_ne :
    (i j : ℕ) (t : Thread) (ts : Threads)
    → j ≢ i
    → (set_thread i t ts).thread_list j ≡ ts.thread_list j
set_thread_ne i j t ts n = ground arith

pub set_thread_self : (i : ℕ) (t : Thread) (ts : Threads) → (set_thread i t ts).thread_list i ≡ t
set_thread_self i t ts = ground arith

module _ (register_task : StackFrame → ℕ → Bool) where
  -- `thread_switch` keeps everything but the frame, which it sets when it succeeds.
  pub thread_switch-kept :
      (frame : StackFrame) (t : Thread)
      → ((thread_switch register_task frame t).1.busy ≡ t.busy)
        × ((thread_switch register_task frame t).1.kind ≡ t.kind)
        × ((thread_switch register_task frame t).1.id ≡ t.id)
  unfolding thread_switch check_task
  thread_switch-kept frame t = (ground arith, ground arith, ground arith)

  pub thread_switch-runs :
      (frame : StackFrame) (t : Thread)
      → (thread_switch register_task frame t).0 ≡ true
      → ((thread_switch register_task frame t).1.stack ≡ frame) × (frame.at ≢ 0)
  unfolding thread_switch check_task
  thread_switch-runs frame t ran = (ground arith, λ z. ground arith)

  module _ (frame : StackFrame) (ptime : ℕ) where
    abbrev pub attempt : ℕ → Threads → Bool × Thread
    attempt index ts =
        thread_switch register_task frame (record (ts.thread_list index) { busy = true })

    abbrev pub looked : ℕ → Threads → Threads
    looked index ts = record ts { current_idx = index }

    abbrev pub failed : ℕ → Threads → Threads
    failed index ts = set_thread index (attempt index ts).1 (looked index ts)

    abbrev pub taken : ℕ → Threads → Threads
    taken index ts =
        set_thread index (record (attempt index ts).1 { ptime = ptime }) (looked index ts)

    -- The three ways a turn of the loop goes.
    pub switch_skip :
        (n index : ℕ) (ts : Threads)
        → (is_skipped (ts.thread_list index).kind || (ts.thread_list index).busy) ≡ true
        → switch_from register_task frame ptime (suc n) index ts
          ≡ switch_from register_task frame ptime n (index + 1) (looked index ts)
    unfolding switch_from
    switch_skip n index ts e = rw e refl

    pub switch_fail :
        (n index : ℕ) (ts : Threads)
        → (is_skipped (ts.thread_list index).kind || (ts.thread_list index).busy) ≡ false
        → (attempt index ts).0 ≡ false
        → switch_from register_task frame ptime (suc n) index ts
          ≡ switch_from register_task frame ptime n (index + 1) (failed index ts)
    unfolding switch_from
    switch_fail n index ts e a = rw (e, a) refl

    pub switch_take :
        (n index : ℕ) (ts : Threads)
        → (is_skipped (ts.thread_list index).kind || (ts.thread_list index).busy) ≡ false
        → (attempt index ts).0 ≡ true
        → switch_from register_task frame ptime (suc n) index ts ≡ (true, taken index ts)
    unfolding switch_from
    switch_take n index ts e a = rw (e, a) refl
