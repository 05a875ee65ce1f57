-- ===== src/Heap.antt =====
-- The kernel heap: private/minkernel/src/BitMapMgr.cpp, private/minkernel/src/PageMgr.cpp and
-- private/minkernel/src/HeapMgr.cpp.
pub mod BitMap
pub mod Mgr
pub mod Find
pub mod Pointers
pub mod Alloc
mod Tests
