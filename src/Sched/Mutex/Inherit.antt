-- ===== src/Sched/Mutex/Inherit.antt =====
-- Exclusion and priority inheritance in private/minkernel/src/BinaryMutex.cpp.
use nekrnl.Prelude.{
  ℕ, ◌≤◌, ◌<◌, ◌≡◌, ◌≢◌, refl, ap, sym, ◌∙◌, Bool, true, false, not, ◌==◌, if◌then◌else◌, Option,
  none, some, arith, Bool-cases, ◌⊎◌, inl, inr, subst,
}
use nekrnl.Sched.Core.{Affinity, no_affinity, running, is_affinity, lt_affinity, level}
use nekrnl.Sched.Mutex.{Mutex, set_affinity, release, unlock, inherit, lock, lock_behind}

-- A running process holds the mutex.
pub record IsHeld (owner : ℕ) (m : Mutex) : Type 0 where
  pub owner_eq : m.locking ≡ some owner
  pub owner_runs : (m.processes owner).status ≡ running

self_eq : (n : ℕ) → (n == n) ≡ true
self_eq n = ground arith

pub lock_held :
    (owner process : ℕ) (m : Mutex)
    → IsHeld owner m
    → lock (some process) m ≡ (false, inherit owner process m)
unfolding lock
lock_held owner process m held =
    ap (λ l. lock_behind l process m) held.owner_eq ∙ rw held.owner_runs refl

status_kept :
    (o i : ℕ) (a : Affinity) (m : Mutex)
    → ((set_affinity o a m).processes i).status ≡ (m.processes i).status
status_kept o i a m = elim (Bool-cases (i == o)) [ inl e ↦ rw e refl | inr e ↦ rw e refl ]

pub inherit-IsHeld :
    (owner process : ℕ) (m : Mutex) → IsHeld owner m → IsHeld owner (inherit owner process m)
inherit-IsHeld owner process m held =
    elim (Bool-cases (lt_affinity (m.processes process).affinity (m.processes owner).affinity)) [
      | inl e ↦ rw e record {
        owner_eq = held.owner_eq;
        owner_runs = status_kept owner owner (m.processes process).affinity m ∙ held.owner_runs;
      }
      | inr e ↦ rw e held
    ]

inherit-level :
    (owner process : ℕ) (m : Mutex)
    → level ((inherit owner process m).processes owner).affinity
      ≤ level (m.processes process).affinity
inherit-level owner process m =
    elim (Bool-cases (lt_affinity (m.processes process).affinity (m.processes owner).affinity)) [
      | inl e ↦ rw (e, self_eq owner) (omega arith)
      | inr e ↦ rw e (ground arith)
    ]

-- While a running process holds the mutex, `Lock` by any process fails, the owner still holds the
-- mutex and runs, and its affinity is at least as urgent as that of the process that asked.
pub lock-IsHeld :
    (owner process : ℕ) (m : Mutex)
    → IsHeld owner m
    → ((lock (some process) m).0 ≡ false)
      × IsHeld owner (lock (some process) m).1
      × (level ((lock (some process) m).1.processes owner).affinity
          ≤ level (m.processes process).affinity)
lock-IsHeld owner process m held =
    rw (lock_held owner process m held)
      (refl, inherit-IsHeld owner process m held, inherit-level owner process m)

unlock_held : (owner : ℕ) (m : Mutex) → IsHeld owner m → unlock m ≡ (true, release owner m)
unfolding unlock
unlock_held owner m held = rw held.owner_eq refl

-- A known affinity is not the invalid one.
level_pos : (a : Affinity) → 0 < level a → is_affinity a no_affinity ≡ false
level_pos a h = ground arith

-- When a running process of a known affinity holds the mutex and has not been boosted, a failed
-- `Lock` by another process and then `Unlock` leave the owner with the affinity it had, and nobody
-- holds the mutex.
pub lock-unlock_restores :
    (owner process : ℕ) (m : Mutex)
    → IsHeld owner m
    → m.original ≡ no_affinity
    → 0 < level (m.processes owner).affinity
    → (((unlock (lock (some process) m).1).1.processes owner).affinity
        ≡ (m.processes owner).affinity)
      × ((unlock (lock (some process) m).1).1.locking ≡ none)
lock-unlock_restores owner process m held fresh known =
    let e = lock_held owner process m held in
    let u = unlock_held owner (inherit owner process m) (inherit-IsHeld owner process m held) in
    rw (e, u) (restored, refl)
  where
    restored :
        ((release owner (inherit owner process m)).processes owner).affinity
        ≡ (m.processes owner).affinity
    restored =
        elim (Bool-cases
          (lt_affinity (m.processes process).affinity (m.processes owner).affinity)) [
            | inl e ↦ rw (e, level_pos (m.processes owner).affinity known, self_eq owner) refl
            | inr e ↦ rw (e, fresh) refl
          ]

boosts :
    (owner process : ℕ) (m : Mutex)
    → level (m.processes process).affinity < level (m.processes owner).affinity
    → inherit owner process m
      ≡ set_affinity owner
          (m.processes process).affinity
          (record m { original = (m.processes owner).affinity })
boosts owner process m urgent =
    rw
      (urgent_lt (level (m.processes process).affinity) (level (m.processes owner).affinity) urgent)
      refl
  where
    urgent_lt : (a b : ℕ) → a < b → nekrnl.Prelude.ltb a b ≡ true
    urgent_lt a b h = ground arith

affinity_self : (o : ℕ) (a : Affinity) (m : Mutex) → ((set_affinity o a m).processes o).affinity ≡ a
affinity_self o a m = rw (self_eq o) refl

affinity_other :
    (o i : ℕ) (a : Affinity) (m : Mutex)
    → i ≢ o
    → ((set_affinity o a m).processes i).affinity ≡ (m.processes i).affinity
affinity_other o i a m n = rw (other_eq i o n) refl
  where
    other_eq : (i o : ℕ) → i ≢ o → (i == o) ≡ false
    other_eq i o n = ground arith

release-restores :
    (owner : ℕ) (m : Mutex)
    → 0 < level m.original
    → ((release owner m).processes owner).affinity ≡ m.original
release-restores owner m known = rw (level_pos m.original known, self_eq owner) refl

-- When two processes ask in turn for a mutex that a running process holds, each more urgent than
-- what the owner has by then, `Unlock` leaves the owner with the affinity of the first of the two,
-- and not with the one it had.
pub lock_twice-unlock_boosted :
    (owner first second : ℕ) (m : Mutex)
    → IsHeld owner m
    → second ≢ owner
    → level (m.processes first).affinity < level (m.processes owner).affinity
    → level (m.processes second).affinity < level (m.processes first).affinity
    → let m1 = (lock (some first) m).1 in
      let m2 = (lock (some second) m1).1 in
      ((unlock m2).1.processes owner).affinity ≡ (m.processes first).affinity
lock_twice-unlock_boosted owner first second m held other urgent more =
    let e1 = lock_held owner first m held in
    let h1 = inherit-IsHeld owner first m held in
    let e2 = lock_held owner second (inherit owner first m) h1 in
    let h2 = inherit-IsHeld owner second (inherit owner first m) h1 in
    let u = unlock_held owner (inherit owner second (inherit owner first m)) h2 in
    rw (e1, e2, u)
      (ap (λ n. ((release owner n).processes owner).affinity) again
        ∙ release-restores owner twice (rw mid (omega arith))
        ∙ mid)
  where
    once : Mutex
    once =
        set_affinity owner (m.processes first).affinity
          (record m { original = (m.processes owner).affinity })

    mid : (once.processes owner).affinity ≡ (m.processes first).affinity
    mid =
        affinity_self owner (m.processes first).affinity
          (record m { original = (m.processes owner).affinity })

    aside : (once.processes second).affinity ≡ (m.processes second).affinity
    aside =
        affinity_other owner second (m.processes first).affinity
          (record m { original = (m.processes owner).affinity }) other

    twice : Mutex
    twice =
        set_affinity owner (once.processes second).affinity
          (record once { original = (once.processes owner).affinity })

    again : inherit owner second (inherit owner first m) ≡ twice
    again =
        ap (inherit owner second) (boosts owner first m urgent)
        ∙ boosts owner second once (rw (mid, aside) more)
