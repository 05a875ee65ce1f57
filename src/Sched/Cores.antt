-- ===== src/Sched/Cores.antt =====
-- The outcome of `UserProcessHelper::Switch` of private/minkernel/src/UserProcessScheduler.cpp.
use nekrnl.Prelude.{
  ℕ, zero, suc, ◌+◌, ◌<◌, ◌≤◌, ◌≡◌, ◌≢◌, refl, ap, sym, ◌∙◌, Bool, true, false, ◌||◌, arith,
  Bool-cases, inl, inr, ℕ_discrete, subst,
}
use nekrnl.Sched.Core.{max_threads}
use nekrnl.Sched.Process.{StackFrame}
use nekrnl.Sched.Threads.{Thread, Threads, is_skipped, switch_from, switch}
use nekrnl.Sched.Switch.{
  IsTaken, set_thread_ne, set_thread_self, thread_switch-kept, thread_switch-runs, attempt, looked,
  failed, switch_skip, switch_fail, switch_take,
}

-- A core that the loop passes by.
abbrev pub is_blocked : Thread → Bool
is_blocked t = is_skipped t.kind || t.busy

-- What the loop over the cores from `index` to `stop` leaves.
pub record Outcome (frame : StackFrame) (ptime index stop : ℕ) (ts : Threads) (r : Bool × Threads)
    : Type 0 where
  pub on_true :
      r.0 ≡ true → (i : ℕ) × (i < stop) × IsTaken frame ptime (ts.thread_list i) (r.1.thread_list i)
  pub on_false :
      r.0 ≡ false → (j : ℕ) → index ≤ j → j < stop → is_blocked (r.1.thread_list j) ≡ true
  pub blocked_kept :
      (j : ℕ) → is_blocked (ts.thread_list j) ≡ true → r.1.thread_list j ≡ ts.thread_list j
  pub before_kept : (j : ℕ) → j < index → r.1.thread_list j ≡ ts.thread_list j

blocked_or : (a b : Bool) → (a || b) ≡ false → (a ≡ false) × (b ≡ false)
blocked_or a b e = (ground arith, ground arith)

busy_blocked : (a b : Bool) → b ≡ true → (a || b) ≡ true
busy_blocked a b e = ground arith

clash : (b : Bool) → b ≡ true → b ≡ false → ⊥
clash b t f = ground arith

module _ (register_task : StackFrame → ℕ → Bool) (frame : StackFrame) (ptime : ℕ) where
  attempt-busy : (i : ℕ) (ts : Threads) → (attempt register_task frame ptime i ts).1.busy ≡ true
  attempt-busy i ts =
      (thread_switch-kept register_task frame (record (ts.thread_list i) { busy = true })).0

  attempt-IsTaken :
      (i : ℕ) (ts : Threads)
      → is_blocked (ts.thread_list i) ≡ false
      → (attempt register_task frame ptime i ts).0 ≡ true
      → IsTaken frame ptime
          (ts.thread_list i)
          (record (attempt register_task frame ptime i ts).1 { ptime = ptime })
  attempt-IsTaken i ts free ran =
      let marked = record (ts.thread_list i) { busy = true } in
      let (busy, kind, id) = thread_switch-kept register_task frame marked in
      let (runs, pos) = thread_switch-runs register_task frame marked ran in
      record {
        usable = (blocked_or _ _ free).0;
        idle = (blocked_or _ _ free).1;
        is_busy = busy;
        runs = runs;
        time_eq = refl;
        kind_eq = kind;
        id_eq = id;
        frame_pos = pos;
      }

  module _ (n index stop : ℕ) (ts : Threads) (e : stop ≡ index + suc n) where
    after_skip :
        is_blocked (ts.thread_list index) ≡ true
        → Outcome frame ptime (index + 1) stop (looked register_task frame ptime index ts) (
            switch_from register_task frame ptime n
              (index + 1)
              (looked register_task frame ptime index ts))
        → Outcome frame ptime index stop ts (switch_from register_task frame ptime (suc n) index ts)
    after_skip blocked o =
        subst (Outcome frame ptime index stop ts)
          (sym (switch_skip register_task frame ptime n index ts blocked))
          record {
            on_true = o.on_true;
            on_false = λ f j l h. elim (ℕ_discrete j index) [
              | yes same ↦
                  subst (λ k. is_blocked k ≡ true)
                    (sym (
                      o.blocked_kept j
                        (subst (λ k. is_blocked (ts.thread_list k) ≡ true) (sym same) blocked)))
                    (subst (λ k. is_blocked (ts.thread_list k) ≡ true) (sym same) blocked)
              | no other ↦ o.on_false f j (omega arith) h
            ];
            blocked_kept = o.blocked_kept;
            before_kept = λ j h. o.before_kept j (omega arith);
          }

    after_fail :
        is_blocked (ts.thread_list index) ≡ false
        → (attempt register_task frame ptime index ts).0 ≡ false
        → Outcome frame ptime (index + 1) stop (failed register_task frame ptime index ts) (
            switch_from register_task frame ptime n
              (index + 1)
              (failed register_task frame ptime index ts))
        → Outcome frame ptime index stop ts (switch_from register_task frame ptime (suc n) index ts)
    after_fail free fails o =
        let after = (attempt register_task frame ptime index ts).1 in
        let now = failed register_task frame ptime index ts in
        let here : (now.thread_list index) ≡ after =
          set_thread_self index after (looked register_task frame ptime index ts) in
        let there : (j : ℕ) → j ≢ index → now.thread_list j ≡ ts.thread_list j =
          λ j n. set_thread_ne index j after (looked register_task frame ptime index ts) n in
        let busy = attempt-busy index ts in
        let apart : (j : ℕ) → is_blocked (ts.thread_list j) ≡ true → j ≢ index = λ j b same.
          clash (is_blocked (ts.thread_list j)) b
            (subst (λ k. is_blocked (ts.thread_list k) ≡ false) (sym same) free) in
        let elsewhere : (i : ℕ) → (now.thread_list i).busy ≡ false → i ≢ index = λ i idle same.
          clash (now.thread_list i).busy
            (subst (λ k. (now.thread_list k).busy ≡ true) (sym same)
              (subst (λ t. t.busy ≡ true) (sym here) busy))
            idle in
        let rest = switch_from register_task frame ptime n (index + 1) now in
        let shut : is_blocked (now.thread_list index) ≡ true =
          subst (λ t. is_blocked t ≡ true) (sym here)
            (busy_blocked (is_skipped after.kind) after.busy busy) in
        subst (Outcome frame ptime index stop ts)
          (sym (switch_fail register_task frame ptime n index ts free fails))
          record {
            on_true = λ t.
                let (i, h, took) = o.on_true t in
                (
                  i,
                  h,
                  subst (λ b. IsTaken frame ptime b (rest.1.thread_list i))
                      (there i (elsewhere i took.idle)) took,
                );
            on_false = λ f j l h. elim (ℕ_discrete j index) [
              | yes same ↦
                  subst (λ k. is_blocked (rest.1.thread_list k) ≡ true) (sym same)
                    (subst (λ t. is_blocked t ≡ true) (sym (o.blocked_kept index shut)) shut)
              | no other ↦ o.on_false f j (omega arith) h
            ];
            blocked_kept = λ j b.
                o.blocked_kept j (subst (λ t. is_blocked t ≡ true) (sym (there j (apart j b))) b)
                ∙ there j (apart j b);
            before_kept = λ j h. o.before_kept j (omega arith) ∙ there j (λ same. omega arith);
          }

    after_take :
        is_blocked (ts.thread_list index) ≡ false
        → (attempt register_task frame ptime index ts).0 ≡ true
        → Outcome frame ptime index stop ts (switch_from register_task frame ptime (suc n) index ts)
    after_take free ran =
        let after = record (attempt register_task frame ptime index ts).1 { ptime = ptime } in
        subst (Outcome frame ptime index stop ts)
          (sym (switch_take register_task frame ptime n index ts free ran))
          record {
            on_true = λ t. (
              index,
              omega arith,
              subst (IsTaken frame ptime (ts.thread_list index))
                  (sym (set_thread_self index after (looked register_task frame ptime index ts)))
                  (attempt-IsTaken index ts free ran),
            );
            on_false = λ f. absurd (clash true refl f);
            blocked_kept = λ j b.
                set_thread_ne index j after (looked register_task frame ptime index ts) (λ same.
                  clash (is_blocked (ts.thread_list j)) b
                    (subst (λ k. is_blocked (ts.thread_list k) ≡ false) (sym same) free));
            before_kept = λ j h.
                set_thread_ne index j after (looked register_task frame ptime index ts)
                  (λ same. omega arith);
          }

  switch_from-Outcome :
      (n index stop : ℕ) (ts : Threads)
      → stop ≡ index + n
      → Outcome frame ptime index stop ts (switch_from register_task frame ptime n index ts)
  unfolding switch_from
  switch_from-Outcome zero index stop ts e = record {
    on_true = λ t. absurd (clash false t refl);
    on_false = λ f j l h. absurd (omega arith);
    blocked_kept = λ j b. refl;
    before_kept = λ j h. refl;
  }
  switch_from-Outcome (suc n) index stop ts e =
      elim (Bool-cases (is_blocked (ts.thread_list index))) [
        | inl blocked ↦ after_skip n index stop ts e blocked (
            switch_from-Outcome n (index + 1) stop (looked register_task frame ptime index ts)
              (omega arith))
        | inr free ↦ elim (Bool-cases (attempt register_task frame ptime index ts).0) [
          | inl ran ↦ after_take n index stop ts e free ran
          | inr fails ↦ after_fail n index stop ts e free fails (
              switch_from-Outcome n (index + 1) stop (failed register_task frame ptime index ts)
                (omega arith))
        ]
      ]

  -- When `Switch` succeeds, one of the 8 cores was usable and idle, and is now busy with the
  -- frame, which is not null, and has the process's time; a core that was busy, invalid or the
  -- boot core is as it was.
  pub switch-IsTaken :
      (ts : Threads)
      → (switch register_task frame ptime ts).0 ≡ true
      → ((i : ℕ) × (i < max_threads)
          × IsTaken frame ptime
              (ts.thread_list i)
              ((switch register_task frame ptime ts).1.thread_list i))
        × ((j : ℕ)
            → is_blocked (ts.thread_list j) ≡ true
            → (switch register_task frame ptime ts).1.thread_list j ≡ ts.thread_list j)
  unfolding switch
  switch-IsTaken ts ran =
      let o = switch_from-Outcome max_threads 0 max_threads ts refl in
      (o.on_true ran, o.blocked_kept)

  all_blocked :
      (n index : ℕ) (ts : Threads)
      → ((j : ℕ) → index ≤ j → j < index + n → is_blocked (ts.thread_list j) ≡ true)
      → (switch_from register_task frame ptime n index ts).0 ≡ false
  unfolding switch_from
  all_blocked zero index ts shut = refl
  all_blocked (suc n) index ts shut =
      ap (λ r. r.0)
        (switch_skip register_task frame ptime n index ts (shut index (omega arith) (omega arith)))
      ∙ all_blocked n (index + 1) (looked register_task frame ptime index ts)
          (λ j l h. shut j (omega arith) (omega arith))

-- After one `Switch` that fails, every later one fails too, whatever frame and time it is for: the
-- first leaves all the usable cores busy, and nothing in the kernel clears that mark.
pub switch_failed-fails :
    (register_task : StackFrame → ℕ → Bool) (frame : StackFrame) (ptime : ℕ) (ts : Threads)
    → (switch register_task frame ptime ts).0 ≡ false
    → (later : StackFrame) (time : ℕ)
    → (switch register_task later time (switch register_task frame ptime ts).1).0 ≡ false
unfolding switch
switch_failed-fails register_task frame ptime ts failed later time =
    let o = switch_from-Outcome register_task frame ptime max_threads 0 max_threads ts refl in
    all_blocked register_task later time max_threads 0 _ (o.on_false failed)
