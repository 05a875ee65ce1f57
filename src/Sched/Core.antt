-- ===== src/Sched/Core.antt =====
-- The scheduler's enumerations and limits: private/minkernel/KernelKit/CoreProcessScheduler.h.
use nekrnl.Prelude.{ℕ, Bool, ltb, ◌==◌}

-- `ProcessStatusKind`
pub data Status : Type 0 where
  invalid : Status
  starting : Status
  running : Status
  killed : Status
  frozen : Status
  finished : Status

-- The values of the enumeration, by which the code compares.
abbrev pub status_code : Status → ℕ
status_code invalid = 0
status_code starting = 100
status_code running = 101
status_code killed = 102
status_code frozen = 103
status_code finished = 104

abbrev pub is_status : Status → Status → Bool
is_status s t = status_code s == status_code t

-- `AffinityKind`
pub data Affinity : Type 0 where
  no_affinity : Affinity
  ultra_high : Affinity
  very_high : Affinity
  high : Affinity
  standard : Affinity
  low_usage : Affinity
  very_low_usage : Affinity

abbrev pub level : Affinity → ℕ
level no_affinity = 0
level ultra_high = 100
level very_high = 150
level high = 200
level standard = 1000
level low_usage = 1500
level very_low_usage = 2000

abbrev pub is_affinity : Affinity → Affinity → Bool
is_affinity a b = level a == level b

-- `operator<` on affinities: the smaller value is the more urgent.
abbrev pub lt_affinity : Affinity → Affinity → Bool
lt_affinity a b = ltb (level a) (level b)

-- `UserProcess::ExecutableKind`
pub data ExecutableKind : Type 0 where
  invalid_executable : ExecutableKind
  executable : ExecutableKind
  executable_dylib : ExecutableKind

-- `kCPSProcessLimitPerTeam`, `kCPSMaxStackSz`, `kCPSNameLen`, `kMaxAPInsideSched`
abbrev pub process_limit : ℕ
process_limit = 32

abbrev pub max_stack_size : ℕ
max_stack_size = 8192

abbrev pub name_len : ℕ
name_len = 128

abbrev pub max_threads : ℕ
max_threads = 8

-- `-kErrorProcessFault`, `-kErrorHeapOutOfMemory` are the negated codes.
abbrev pub process_fault : ℕ
process_fault = 39

abbrev pub heap_out_of_memory : ℕ
heap_out_of_memory = 44
