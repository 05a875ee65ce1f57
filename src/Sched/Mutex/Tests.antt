-- ===== src/Sched/Mutex/Tests.antt =====
-- The mutex between three processes.
use nekrnl.Prelude.{◌≡◌, refl, true, false, ◌==◌, if◌then◌else◌, none, some, arith, [], ◌∷◌, ◌≤◌}
use nekrnl.Prelude.Int.{pos}
use nekrnl.Sched.Core.{standard, high, very_high, no_affinity, running, executable, level}
use nekrnl.Sched.Process.{no_frame, Process}
use nekrnl.Sched.Mutex.{Mutex, lock, unlock, lock_and_wait}
use nekrnl.Sched.Mutex.Inherit.{IsHeld, lock-IsHeld, lock-unlock_restores}

abbrev runner : Process
runner = record {
  name = b'p' ∷ [];
  stack_frame = no_frame;
  affinity = standard;
  status = running;
  stack_size = 8192;
  dylib_delegate = 0;
  signal_id = 0;
  code = 64;
  blob = 0;
  blob_size = 0;
  file_tree = 0;
  heap_tree = 0;
  vm_register = 0;
  ptime = 0;
  rtime = 0;
  utime = 0;
  stime = 0;
  process_id = 0;
  kind = executable;
  parent = true;
  last_exit_code = pos 0;
}

-- Process 0 holds the mutex; 1 and 2 are more and more urgent.
abbrev held_mutex : Mutex
held_mutex = record {
  processes = λ i. record runner {
    affinity = if i == 0 then standard else if i == 1 then high else very_high;
  };
  locking = some 0;
  original = no_affinity;
}

held_mutex-IsHeld : IsHeld 0 held_mutex
held_mutex-IsHeld = record { owner_eq = refl; owner_runs = refl }

lock-IsHeld_example :
    ((lock (some 1) held_mutex).0 ≡ false)
    × IsHeld 0 (lock (some 1) held_mutex).1
    × (level ((lock (some 1) held_mutex).1.processes 0).affinity ≤ 200)
lock-IsHeld_example = lock-IsHeld 0 1 held_mutex held_mutex-IsHeld

lock-unlock_restores_example :
    (((unlock (lock (some 1) held_mutex).1).1.processes 0).affinity ≡ standard)
    × ((unlock (lock (some 1) held_mutex).1).1.locking ≡ none)
lock-unlock_restores_example =
    lock-unlock_restores 0 1 held_mutex held_mutex-IsHeld refl (omega arith)

-- After the owner lets go during the wait, `LockAndWait` takes the mutex.
waited : (lock_and_wait (some 1) (some (λ m. (unlock m).1)) held_mutex).0 ≡ true
unfolding lock_and_wait lock unlock
waited = refl
