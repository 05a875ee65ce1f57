-- ===== src/Sched/Team/Dispatch.antt =====
-- `Run`, `operator bool` and `operator!` of private/minkernel/src/UserProcessScheduler.cpp.
use nekrnl.Prelude.{
  ℕ, zero, suc, ◌+◌, ◌<◌, ◌≤◌, ◌^◌, ◌≡◌, ◌≢◌, refl, sym, ap, ◌∙◌, subst, Bool, true, false, not,
  ◌||◌, ◌==◌, ltb, leb, if◌then◌else◌, arith, Bool-cases, inl, inr, Option, none, some,
}
use nekrnl.Sched.Core.{process_limit}
use nekrnl.Sched.Process.{StackFrame, Process, can_be_scheduled, charge, boost, cooldown, pass_over}
use nekrnl.Sched.Threads.{switch}
use nekrnl.Sched.Team.{
  Team, Scheduler, set_process, next_index, dispatch, run, any_from, any_scheduled, count_from,
  none_scheduled,
}

abbrev pub IsActive : Scheduler → Type 0
IsActive s = (0 < s.team.process_cur) × (s.team.process_cur < 2 ^ 63)

-- What one turn of `Run` makes of a process: one that cannot be scheduled is passed over, another
-- is charged and boosted, and cooled down when a core takes it.
pub data Turned (trap : ℕ) (p q : Process) : Type 0 where
  passed : can_be_scheduled trap p ≡ false → q ≡ pass_over p → Turned trap p q
  refused : can_be_scheduled trap p ≡ true → q ≡ boost (charge p) → Turned trap p q
  taken : can_be_scheduled trap p ≡ true → q ≡ cooldown (boost (charge p)) → Turned trap p q

-- What `n` turns of `Run` leave: each of the `n` slots behind the index has had one turn, and the
-- other slots are as they were.
pub record IsTurned (trap n : ℕ) (s s' : Scheduler) : Type 0 where
  pub index : s'.process_index ≡ s.process_index + n
  pub count : s'.team.process_cur ≡ s.team.process_cur
  pub turned :
      (j : ℕ)
      → s.process_index < j
      → j ≤ s.process_index + n
      → Turned trap (s.team.process_list j) (s'.team.process_list j)
  pub before : (j : ℕ) → j ≤ s.process_index → s'.team.process_list j ≡ s.team.process_list j
  pub behind : (j : ℕ) → s.process_index + n < j → s'.team.process_list j ≡ s.team.process_list j

next_index-suc : (i : ℕ) → i < process_limit → next_index i ≡ i + 1
next_index-suc i h = ground arith

self : (n : ℕ) → (n == n) ≡ true
self n = ground arith

other : (i j : ℕ) → j ≢ i → (j == i) ≡ false
other i j n = ground arith

active_test : (c : ℕ) → 0 < c → c < 2 ^ 63 → (leb (2 ^ 63) c || ltb c 1) ≡ false
active_test c low high = ground arith

abbrev then_run : Option (ℕ × Scheduler) → (Scheduler → Option Scheduler) → Option Scheduler
then_run none rest = none
then_run (some (i, s)) rest = rest s

module _ (register_task : StackFrame → ℕ → Bool) (trap : ℕ) where
  -- A slot within the array.
  dispatch-Turned :
      (i : ℕ) (s : Scheduler)
      → can_be_scheduled trap (s.team.process_list i) ≡ true
      → Turned trap (s.team.process_list i) ((dispatch register_task trap i s).team.process_list i)
  unfolding dispatch
  dispatch-Turned i s able =
      let p = boost (charge (s.team.process_list i)) in
      let t = set_process i p (record s.team { current_process = p }) in
      let time = (t.process_list p.process_id).ptime in
      elim (Bool-cases (switch register_task p.stack_frame time s.threads).0) [
        | inl e ↦ rw (self i, e) (taken able refl)
        | inr e ↦ rw (self i, e) (refused able refl)
      ]

  dispatch-other :
      (i j : ℕ) (s : Scheduler)
      → j ≢ i
      → (dispatch register_task trap i s).team.process_list j ≡ s.team.process_list j
  unfolding dispatch
  dispatch-other i j s n = rw (other i j n) refl

  dispatch-index :
      (i : ℕ) (s : Scheduler)
      → ((dispatch register_task trap i s).process_index ≡ s.process_index)
        × ((dispatch register_task trap i s).team.process_cur ≡ s.team.process_cur)
  unfolding dispatch
  dispatch-index i s = (refl, refl)

  -- A call of `Run` with a slot of the array behind the index, and one with none.
  run-slot :
      (s : Scheduler)
      → IsActive s
      → s.process_index + 1 < process_limit
      → run register_task trap s ≡ (
          let i = s.process_index + 1 in
          let moved = record s { process_index = i } in
          let p = s.team.process_list i in
          if can_be_scheduled trap p
          then some (i, dispatch register_task trap i moved)
          else some (i, record moved { team = set_process i (pass_over p) s.team }))
  unfolding run
  run-slot s (low, high) room =
      rw
        (
          active_test s.team.process_cur low high,
          next_index-suc s.process_index (omega arith),
          inside (s.process_index + 1) room,
        )
        refl
    where
      inside : (i : ℕ) → i < 32 → ltb i 32 ≡ true
      inside i h = ground arith

  run-behind :
      (s : Scheduler)
      → IsActive s
      → s.process_index + 1 ≡ process_limit
      → run register_task trap s ≡ none
  unfolding run
  run-behind s (low, high) last =
      rw
        (
          active_test s.team.process_cur low high,
          next_index-suc s.process_index (omega arith),
          last,
        )
        refl

  run-IsTurned :
      (s : Scheduler)
      → IsActive s
      → s.process_index + 1 < process_limit
      → (s' : Scheduler) × (run register_task trap s ≡ some (s.process_index + 1, s'))
        × IsTurned trap 1 s s'
  run-IsTurned s active room =
      let i = s.process_index + 1 in
      let moved = record s { process_index = i } in
      let p = s.team.process_list i in
      elim (Bool-cases (can_be_scheduled trap p)) [
        | inl e ↦ (
          dispatch register_task trap i moved,
          run-slot s active room ∙ rw e refl,
          record {
            index = (dispatch-index i moved).0;
            count = (dispatch-index i moved).1;
            turned = λ j a b.
                subst
                  (λ j.
                    Turned trap (s.team.process_list j)
                      ((dispatch register_task trap i moved).team.process_list j))
                  (between j a b) (dispatch-Turned i moved e);
            before = λ j a. dispatch-other i j moved (λ z. omega arith);
            behind = λ j a. dispatch-other i j moved (λ z. omega arith);
          },
        )
        | inr e ↦ (
          record moved { team = set_process i (pass_over p) s.team },
          run-slot s active room ∙ rw e refl,
          record {
            index = refl;
            count = refl;
            turned = λ j a b.
                subst
                  (λ j.
                    Turned trap (s.team.process_list j)
                      ((set_process i (pass_over p) s.team).process_list j))
                  (between j a b) (passed e (rw (self i) refl));
            before = λ j a. rw (other i j (λ z. omega arith)) refl;
            behind = λ j a. rw (other i j (λ z. omega arith)) refl;
          },
        )
      ]
    where
      between : (j : ℕ) → s.process_index < j → j ≤ s.process_index + 1 → s.process_index + 1 ≡ j
      between j a b = omega arith

  -- `n` calls of `Run`; `none` when one of them goes on behind the array.
  unfoldable pub run_times : ℕ → Scheduler → Option Scheduler
  run_times zero s = some s
  run_times (suc n) s = then_run (run register_task trap s) (run_times n)

  run_times-run :
      (n i : ℕ) (s t : Scheduler)
      → run register_task trap s ≡ some (i, t)
      → run_times (suc n) s ≡ run_times n t
  unfolding run_times
  run_times-run n i s t e = ap (λ o. then_run o (run_times n)) e

  still-IsActive : (n : ℕ) (s t : Scheduler) → IsTurned trap n s t → IsActive s → IsActive t
  still-IsActive n s t r (low, high) =
      (subst (λ c. 0 < c) (sym r.count) low, subst (λ c. c < 2 ^ 63) (sym r.count) high)

  -- From any index below 32, `Run` ends behind the array of processes: it increments the index to
  -- 32 before it tests it, so the call that follows the turn of slot 31 goes on with a slot that
  -- the team does not have, while the team counts a process.
  pub run_times-behind :
      (n : ℕ) (s : Scheduler)
      → IsActive s
      → s.process_index + suc n ≡ process_limit
      → run_times (suc n) s ≡ none
  unfolding run_times
  run_times-behind zero s active last =
      ap (λ o. then_run o (run_times zero)) (run-behind s active (omega arith))
  run_times-behind (suc n) s active last =
      let (t, ends, one) = run-IsTurned s active (omega arith) in
      run_times-run (suc n) (s.process_index + 1) s t ends
      ∙ run_times-behind n t (still-IsActive 1 s t one active) (omega (arith, one.index))

count_from-ge : (trap : ℕ) (t : Team) (n i cnt : ℕ) → cnt ≤ count_from trap t n i cnt
unfolding count_from
count_from-ge trap t zero i cnt = omega arith
count_from-ge trap t (suc n) i cnt =
    let found = count_from-ge trap t n (i + 1) (cnt + 1) in
    let missed = count_from-ge trap t n (i + 1) cnt in
    elim (Bool-cases (can_be_scheduled trap (t.process_list i))) [
      | inl e ↦ rw e (omega arith)
      | inr e ↦ rw e (omega arith)
    ]

count-any :
    (trap : ℕ) (t : Team) (n i : ℕ) → (count_from trap t n i 0 == 0) ≡ not (any_from trap t n i)
unfolding count_from any_from
count-any trap t zero i = refl
count-any trap t (suc n) i =
    let found = count_from-ge trap t n (i + 1) 1 in
    elim (Bool-cases (can_be_scheduled trap (t.process_list i))) [
      | inl e ↦ rw (e) (ground arith)
      | inr e ↦ rw (e) (count-any trap t n (i + 1))
    ]

-- On every team `operator!` of the scheduler is the negation of its `operator bool`, although the
-- one counts the processes that can be scheduled and the other stops at the first.
pub none-any : (trap : ℕ) (t : Team) → none_scheduled trap t ≡ not (any_scheduled trap t)
unfolding none_scheduled any_scheduled
none-any trap t = count-any trap t process_limit 0
