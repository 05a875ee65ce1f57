-- ===== src/Lib.antt =====
-- NeKernel, the kernel of private/minkernel: its memory management, its process scheduler and the
-- byte, checksum and address routines under them.
--
-- The parts and the files that model them:
--
--   Pmm      private/minkernel/HALKit/Generic/HalPhysicalMemory.cpp. The statics of the frame allocator are
--            the record Frames, with the memory through which the free frames are threaded. `init`,
--            `alloc_frame` and `free_frame` are pmmi_init, pmmi_alloc_frame and pmmi_free_frame.
--   Paging   private/minkernel/HALKit/AMD64/HalPagingMgr.cpp, over Pmm: tables are frames of the same
--            memory. `get_page_addr`, `walk_page`, `map_page_in` and `unmap_page` are the functions
--            mm_get_page_addr, mm_walk_page, mm_map_page_in and mm_unmap_page.
--   Heap     BitMap is private/minkernel/src/BitMapMgr.cpp: entries are walked by their three header words.
--            Mgr is private/minkernel/src/HeapMgr.cpp with PageMgr::Request of private/minkernel/src/PageMgr.cpp:
--            `alloc_ptr`, `free_ptr` and `is_valid_ptr` are mm_alloc_ptr, mm_free_ptr and
--            mm_check_ptr_address.
--   Sched    Core and Process are UserProcess and its enumerations, Threads is
--            private/minkernel/src/HardwareThreadScheduler.cpp with UserProcessHelper::Switch, Team is
--            UserProcessTeam and UserProcessScheduler, Tree is the heap tree of UserProcess::New and
--            Delete (all private/minkernel/src/UserProcessScheduler.cpp), and Mutex is
--            private/minkernel/src/BinaryMutex.cpp, which changes the affinities of the processes.
--   Drive    private/minkernel/src/DriveMgr.cpp and private/minkernel/src/IFS.cpp: `io_drv_input` and
--            `io_drv_output` move one structure between a buffer and the sectors, `fs_ifs_read` and
--            `fs_ifs_write` do so through the mount point. Layout is how a structure lies in sectors.
--   Nefs     private/minkernel/src/FS/NeFS+FileSystemParser.cpp over Drive. Path cuts names out of
--            paths; Nefs itself is FindCatalog and GetCatalog, Catalogs is CreateCatalog and
--            RemoveCatalog, Forks is CreateFork, FindFork, WriteCatalog and ReadCatalog, and Format is
--            Format and fs_init_nefs.
--   Hefs     private/minkernel/src/FS/OpenHeFS+FileSystemParser.cpp over Drive. Hash is hefsi_hash_64,
--            Hefs itself hefsi_fetch_in, Update hefsi_update_in_status, Tree the traversal, rotation
--            and balancing of directory nodes, Folders hefsi_update_ind_status and Format, and
--            Operations the methods of HeFileSystemParser on inodes.
--   Ascii    private/minkernel/src/AsciiUtils.cpp, on a memory that maps an address to a byte.
--   Crc      private/minkernel/src/Crc32.cpp, and the polynomial that its table divides by.
--   Ip       private/minkernel/src/Network/IPAddress.cpp.
--   Ipc      private/minkernel/src/Network/IPCMessage.cpp, over Ascii, and the addresses of
--            private/minkernel/src/Network/IPCAddress.cpp. `construct_packet`, `sanitize_packet` and
--            `pass` are ipc_construct_packet, ipc_sanitize_packet and IPC_MSG::Pass.
--   Prelude  What the parts share: Boolean tests, lists, machine words, finite sets, integers and
--            the laws of bitwise exclusive or.
--
-- Conventions. Addresses, sizes and counters of 64 bits are native numbers with the wrap-around
-- written out where the code can reach it; pointers are addresses with 0 for null. Memory is a
-- function of addresses, and the heap keeps the allocation headers apart from the words that the
-- bitmap allocator reads. A panic, a null pointer or an error code is a value of the result type;
-- an access behind the process array of a team is no result.
-- Masks whose bits do not overlap are quotients and remainders.
--
-- File system. The packed layout of structures is a parameter, the records Disk and Volume, with the laws that
-- what is saved is loaded, and that a save changes no sector outside its width; the tests fill it. A
-- transfer moves a whole structure and fails or succeeds by its address, a failed one changes
-- nothing; block addresses of NeFS, and those that Format of OpenHeFS computes, do not wrap. Names are lists of characters below 256; the program reads
-- outside its arrays for longer ones.
--
-- Loops. Loops over a count are structural recursion. The walk of the bitmap allocator, the search
-- of UserProcess::New and the search for a string's end run on fuel. For the walk a theorem gives
-- the fuel that is enough; for the search of New one shows a tree where none is; the trees
-- that Exit frees need as much as they are deep; the string routines have such theorems for strings that end.
--
-- Left out. Log output, locks (every call runs alone), the hardware behind mp_register_task, which
-- is a parameter of the scheduler, and the page directory that a process's heap calls switch to. The
-- lookup of page tables is proved where the tables are there. The address arithmetic of Ascii does
-- not wrap. The checksums of OpenHeFS are functions of a node, whose bytes are not modelled.
-- The files that messages between processes are swapped to, the loaders of executables, the
-- drivers, the boot loader and the user libraries are not modelled.
pub mod Prelude
pub mod Pmm
pub mod Crc
pub mod Ascii
pub mod Sched
pub mod Heap
pub mod Paging
pub mod Ip
pub mod Drive
pub mod Nefs
pub mod Hefs
pub mod Ipc
