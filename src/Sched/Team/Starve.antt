-- ===== src/Sched/Team/Starve.antt =====
-- The time accounting of `Run` in private/minkernel/src/UserProcessScheduler.cpp.
use nekrnl.Prelude.{ℕ, zero, suc, ◌<◌, ◌≤◌, ◌^◌, ◌≡◌, true, false, arith}
use nekrnl.Sched.Core.{ultra_high, is_affinity, Affinity}
use nekrnl.Sched.Process.{Process, cooldown, cooldown_rtime, can_be_scheduled, wake, pass_over}

cooldown_rtime-bounds : (r : ℕ) → r < 2 ^ 62 → (r ≤ cooldown_rtime r) × (cooldown_rtime r < 2 ^ 63)
unfolding cooldown_rtime
cooldown_rtime-bounds r h = (ground arith, ground arith)

-- A waiting time that no run of the machine counts down.
abbrev pub long_wait : ℕ
long_wait = 2 ^ 62

-- A process that is not of ultra-high affinity and whose allocated time is below its run time (of
-- less than 2 ^ 62) leaves the cooldown with an allocated time of at least 2 ^ 62.
pub cooldown-wraps :
    (p : Process)
    → is_affinity ultra_high p.affinity ≡ false
    → p.ptime < p.rtime
    → p.rtime < 2 ^ 62
    → long_wait ≤ (cooldown p).ptime
unfolding cooldown
cooldown-wraps p affinity less small =
    let (low, high) = cooldown_rtime-bounds p.rtime small in ground arith

waits :
    (trap : ℕ) (p : Process)
    → is_affinity p.affinity ultra_high ≡ false
    → 0 < p.ptime
    → can_be_scheduled trap p ≡ false
unfolding can_be_scheduled
waits trap p affinity wait = ground arith

-- `n` turns of `Run` that pass a process over.
unfoldable pub pass_times : ℕ → Process → Process
pass_times zero p = p
pass_times (suc n) p = pass_times n (pass_over p)

pass_times-waits :
    (trap n : ℕ) (p : Process)
    → is_affinity p.affinity ultra_high ≡ false
    → n < p.ptime
    → p.ptime < 2 ^ 64
    → can_be_scheduled trap (pass_times n p) ≡ false
unfolding pass_times pass_over
pass_times-waits trap zero p affinity more bound = waits trap p affinity (omega arith)
pass_times-waits trap (suc n) p affinity more bound =
    pass_times-waits trap n (pass_over p) affinity (omega arith) (omega arith)

cooldown-affinity : (p : Process) → (cooldown p).affinity ≡ p.affinity
unfolding cooldown
cooldown-affinity p = ground arith

cooldown-lt : (p : Process) → p.ptime < 2 ^ 64 → (cooldown p).ptime < 2 ^ 64
unfolding cooldown
cooldown-lt p bound = ground arith

-- A process that is not of ultra-high affinity and that a core takes while its allocated time is
-- below its run time (of less than 2 ^ 62) cannot be scheduled at any of its next 2 ^ 62 turns.
pub cooldown-starves :
    (trap n : ℕ) (p : Process)
    → is_affinity ultra_high p.affinity ≡ false
    → p.ptime < p.rtime
    → p.rtime < 2 ^ 62
    → n < long_wait
    → can_be_scheduled trap (pass_times n (cooldown p)) ≡ false
cooldown-starves trap n p affinity less small turns =
    let wrapped = cooldown-wraps p affinity less small in
    let bound = cooldown-lt p (omega arith) in
    pass_times-waits trap n (cooldown p) (rw (cooldown-affinity p) (flip p.affinity affinity))
      (omega arith) bound
  where
    flip : (a : Affinity) → is_affinity ultra_high a ≡ false → is_affinity a ultra_high ≡ false
    flip a e = ground arith

-- A process with no allocated time left that is not of ultra-high affinity and that `Run` passes
-- over once, frozen or not, cannot be scheduled at any of its next 2 ^ 62 turns after it is woken.
pub wake-starves :
    (trap n : ℕ) (p : Process)
    → is_affinity p.affinity ultra_high ≡ false
    → p.ptime ≡ 0
    → n < long_wait
    → can_be_scheduled trap (pass_times n (wake true (pass_over p))) ≡ false
unfolding pass_over wake
wake-starves trap n p affinity none_left turns =
    pass_times-waits trap n (wake true (pass_over p)) affinity (omega arith) (omega arith)
