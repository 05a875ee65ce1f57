-- ===== src/Sched.antt =====
-- Process scheduling: private/minkernel/KernelKit/CoreProcessScheduler.h, UserProcessScheduler.h and
-- private/minkernel/src/UserProcessScheduler.cpp, UserProcessTeam.cpp, HardwareThreadScheduler.cpp.
pub mod Core
pub mod Process
pub mod Threads
pub mod Team
pub mod Switch
pub mod Cores
pub mod Mutex
pub mod Tree
