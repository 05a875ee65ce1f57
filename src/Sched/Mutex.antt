-- ===== src/Sched/Mutex.antt =====
-- `BinaryMutex`: private/minkernel/KernelKit/BinaryMutex.h and private/minkernel/src/BinaryMutex.cpp.
pub mod Inherit
mod Tests
use nekrnl.Prelude.{ℕ, Bool, true, false, not, ◌&&◌, ◌==◌, if◌then◌else◌, Option, none, some}
use nekrnl.Sched.Core.{Affinity, no_affinity, running, is_status, is_affinity, lt_affinity}
use nekrnl.Sched.Process.{Process}

-- The mutex, and the processes that it points into: a process pointer is the slot's index.
pub record Mutex : Type 0 where
  pub processes : ℕ → Process
  pub locking : Option ℕ
  pub original : Affinity

abbrev pub set_affinity : ℕ → Affinity → Mutex → Mutex
set_affinity i a m = record m {
  processes = λ j. if j == i then record (m.processes j) { affinity = a } else m.processes j;
}

-- `BinaryMutex::IsLocked`
unfoldable pub is_locked : Mutex → Bool
is_locked m = elim m.locking [
  | none ↦ false
  | some owner ↦ is_status (m.processes owner).status running
]

-- `Unlock` of a mutex that a process holds.
abbrev pub release : ℕ → Mutex → Mutex
release owner m =
    let restored =
      if not (is_affinity m.original no_affinity)
      then record (set_affinity owner m.original m) { original = no_affinity }
      else m in
    record restored { locking = none }

-- `BinaryMutex::Unlock`
unfoldable pub unlock : Mutex → Bool × Mutex
unlock m = elim m.locking [ none ↦ (false, m) | some owner ↦ (true, release owner m) ]

-- The part of `Lock` for a mutex whose owner runs: the owner may inherit the affinity.
abbrev pub inherit : ℕ → ℕ → Mutex → Mutex
inherit owner process m =
    let held = (m.processes owner).affinity in
    let asked = (m.processes process).affinity in
    if lt_affinity asked held then set_affinity owner asked (record m { original = held }) else m

abbrev pub acquire : ℕ → Mutex → Bool × Mutex
acquire process m = (true, record m { locking = some process; original = no_affinity })

abbrev pub lock_behind : Option ℕ → ℕ → Mutex → Bool × Mutex
lock_behind none process m = acquire process m
lock_behind (some owner) process m =
    if is_status (m.processes owner).status running
    then (false, inherit owner process m)
    else acquire process m

-- `BinaryMutex::Lock`; `none` is a null process.
unfoldable pub lock : Option ℕ → Mutex → Bool × Mutex
lock none m = (false, m)
lock (some process) m = lock_behind m.locking process m

-- `BinaryMutex::LockAndWait`; `wait` is what happens to the mutex and the processes while the
-- timer waits, `none` a null timer.
unfoldable pub lock_and_wait : Option ℕ → Option (Mutex → Mutex) → Mutex → Bool × Mutex
lock_and_wait process none m = (false, m)
lock_and_wait none (some wait) m = (false, m)
lock_and_wait (some process) (some wait) m =
    let (taken, m') = lock (some process) m in
    if taken then (true, m') else lock (some process) (wait m')

-- `BinaryMutex::WaitForProcess`
unfoldable pub wait_for_process : (Mutex → Mutex) → Mutex → Bool × Mutex
wait_for_process wait m = (not (is_locked (wait m)), wait m)
