-- ===== src/Hefs.antt =====
-- OpenHeFS: private/minkernel/FSKit/OpenHeFS.h and
-- private/minkernel/src/FS/OpenHeFS+FileSystemParser.cpp.
pub mod Hash
pub mod Update
pub mod Region
pub mod Grown
pub mod Passes
pub mod Made
pub mod Tree
pub mod Operations
pub mod Folders
mod Tests
use nekrnl.Prelude.{
  ℕ, zero, suc, ◌+◌, ◌-◌, ◌/◌, ◌%◌, ◌^◌, ◌≡◌, Bool, true, false, not, ◌&&◌, ◌||◌, ltb, leb, ◌==◌,
  if◌then◌else◌, Option, none, some, List, [], ◌∷◌, length, bit_and, add64,
}
use nekrnl.Drive.{
  Drive, Device, Error, success, file_not_found, disk_read_only, disk_is_full, no_such_disk,
  file_exists, internal, disk_is_corrupted, disk, invalid_data, file_locked, unimplemented,
  directory_not_found, io_drv_input, io_drv_output,
}
use nekrnl.Drive.Layout.{Codec}
use nekrnl.Nefs.{Name, same_name}
use nekrnl.Hefs.Hash.{hash_64}

-- The step from one node to the next, which is the packed size of a node; `kOpenHeFSBlockLen`,
-- `kOpenHeFSVersion`, `kOpenHeFSMagic`, `kOpenHeFSFileNameLen`
abbrev pub node_sz : ℕ
node_sz = 512

abbrev pub block_len : ℕ
block_len = 512

abbrev pub hefs_version : ℕ
hefs_version = 0x0104

abbrev pub hefs_magic : Name
hefs_magic = 79 ∷ 112 ∷ 101 ∷ 110 ∷ 72 ∷ 101 ∷ 70 ∷ 83 ∷ []

abbrev pub file_name_len : ℕ
file_name_len = 256

-- `HEFS_BOOT_NODE`, without the fields that the inodes do not touch
pub record Boot : Type 0 where
  pub magic : Name
  pub version : ℕ
  pub checksum : ℕ
  pub start_ind : ℕ
  pub end_ind : ℕ
  pub ind_count : ℕ
  pub start_in : ℕ
  pub end_in : ℕ
  pub start_block : ℕ
  pub end_block : ℕ

-- `HEFS_INDEX_NODE`, without the times and owners that are always 0
pub record Inode : Type 0 where
  pub hash_path : ℕ
  pub flags : ℕ
  pub kind : ℕ
  pub size : ℕ
  pub checksum : ℕ
  pub created : ℕ
  pub deleted : ℕ
  pub offset_low : ℕ
  pub offset_high : ℕ

-- `HEFS_INDEX_NODE_DIRECTORY`; `slices` has 16 entries
pub record Directory : Type 0 where
  pub hash_path : ℕ
  pub flags : ℕ
  pub entry_count : ℕ
  pub checksum : ℕ
  pub created : ℕ
  pub deleted : ℕ
  pub slices : List ℕ
  pub color : ℕ
  pub next : ℕ
  pub prev : ℕ
  pub child : ℕ
  pub parent : ℕ

-- How the nodes lie in the sectors: a boot node has 513 bytes, the others 512. The sums are
-- `ke_calculate_crc32` over the bytes of a node.
pub record Volume (S : Type 0) : Type 0 where
  pub boot : Codec S Boot
  pub directory : Codec S Directory
  pub inode : Codec S Inode
  pub boot_width : boot.width ≡ 2
  pub directory_width : directory.width ≡ 1
  pub inode_width : inode.width ≡ 1
  pub boot_sum : Boot → ℕ
  pub directory_sum : Directory → ℕ
  pub inode_sum : Inode → ℕ

abbrev pub blank_inode : Inode
blank_inode = record {
  hash_path = 0;
  flags = 0;
  kind = 0;
  size = 0;
  checksum = 0;
  created = 0;
  deleted = 0;
  offset_low = 0;
  offset_high = 0;
}

abbrev pub is_corrupted : Error → Bool
is_corrupted disk_is_corrupted = true
is_corrupted success = false
is_corrupted file_not_found = false
is_corrupted disk_read_only = false
is_corrupted disk_is_full = false
is_corrupted no_such_disk = false
is_corrupted file_exists = false
is_corrupted internal = false
is_corrupted disk = false
is_corrupted invalid_data = false
is_corrupted file_locked = false
is_corrupted unimplemented = false
is_corrupted directory_not_found = false

abbrev pub Fetched : Type 0 → Type 0
Fetched S = Option Inode × (Inode × Drive S)

-- A boot node of this version of the file system.
abbrev pub is_hefs : Boot → Bool
is_hefs boot = same_name boot.magic hefs_magic && boot.version == hefs_version

module _ {S : Type 0} (dev : Device) (vol : Volume S) where
  -- The slices of a directory: the first inode of the hash and the kind; `node` is the buffer.
  unfoldable pub fetch_slices : List ℕ → ℕ → ℕ → Inode → Drive S → Fetched S
  fetch_slices [] hash kind node d = (none, (node, d))
  fetch_slices (lba ∷ slices) hash kind node d =
      let (n, d') = io_drv_input dev vol.inode lba node d in
      let rest = fetch_slices slices hash kind n d' in
      if n.hash_path == hash && n.kind == kind then (some n, (n, d')) else rest

  abbrev pub not_fetched : Drive S → Option Inode × Drive S
  not_fetched d = (none, record d { error = file_not_found })

  -- The inode that the slices gave, or what comes after them.
  abbrev pub or_next : Fetched S → Option (Option Inode × Drive S) → Option (Option Inode × Drive S)
  or_next (some n, (node, d)) rest = some (some n, d)
  or_next (none, r) rest = rest

  -- The loop of `hefsi_fetch_in`, over the directory nodes; `dir` and `node` are its buffers.
  unfoldable pub fetch_from :
      ℕ → Boot → ℕ → ℕ → ℕ → ℕ → Directory → Inode → Drive S → Option (Option Inode × Drive S)
  fetch_from zero boot dir_hash file_hash kind start dir node d = none
  fetch_from (suc fuel) boot dir_hash file_hash kind start dir node d =
      let (x, d₁) = io_drv_input dev vol.directory start dir d in
      let found =
        if dir_hash == x.hash_path
        then fetch_slices x.slices file_hash kind node d₁
        else (none, (node, d₁)) in
      let rest =
        fetch_from fuel boot dir_hash file_hash kind (add64 start node_sz) x found.1.0 found.1.1 in
      if is_corrupted d.error
      then some (none, d)
      else if x.hash_path == 0
      then some (not_fetched d₁)
      else or_next found
          (if leb boot.end_ind (add64 start node_sz) then some (not_fetched found.1.1) else rest)

  -- `hefsi_fetch_in`; `junk` is what the directory buffer holds before it is read.
  unfoldable pub fetch_in :
      ℕ → Boot → Name → Name → ℕ → Directory → Drive S → Option (Option Inode × Drive S)
  fetch_in fuel boot dir_name file_name kind junk d =
      if ltb boot.end_ind boot.start_ind || ltb boot.end_in boot.start_in
      then some (none, d)
      else fetch_from fuel boot (hash_64 dir_name) (hash_64 file_name) kind boot.start_ind junk
          blank_inode d
