-- ===== src/Drive.antt =====
-- Drives: private/minkernel/src/DriveMgr.cpp, private/minkernel/KernelKit/DriveMgr.h and
-- private/minkernel/src/IFS.cpp. The disk is a function of block addresses to sectors.
pub mod Layout
pub mod Memory
pub mod Mount
use nekrnl.Prelude.{
  ℕ, ◌+◌, ◌-◌, ◌≤◌, ◌≡◌, Bool, true, false, not, ◌||◌, ltb, leb, ◌==◌, if◌then◌else◌, Option, none,
  some, List, [], ◌∷◌,
}
use nekrnl.Drive.Layout.{Codec}

-- The error numbers that drives and file systems set.
pub data Error : Type 0 where
  success file_not_found disk_read_only disk_is_full no_such_disk file_exists : Error
  internal disk_is_corrupted disk invalid_data file_locked unimplemented directory_not_found : Error

abbrev pub is_success : Error → Bool
is_success success = true
is_success file_not_found = false
is_success disk_read_only = false
is_success disk_is_full = false
is_success no_such_disk = false
is_success file_exists = false
is_success internal = false
is_success disk_is_corrupted = false
is_success disk = false
is_success invalid_data = false
is_success file_locked = false
is_success unimplemented = false
is_success directory_not_found = false

-- The fields of `fKind`: the table that was found.
pub data Kind : Type 0 where
  invalid_drive epm_drive gpt_drive unformatted_drive : Kind

-- `DriveTrait` with its packet, the sectors of the disk behind it, and `kErrorLocalNumber`.
pub record Drive (S : Type 0) : Type 0 where
  pub kind : Kind
  pub good : Bool
  pub read_only : Bool
  pub lba_start : ℕ
  pub lba_end : ℕ
  pub sector_sz : ℕ
  pub error : Error
  pub sectors : ℕ → S

-- The hardware: whether a transfer at a block address succeeds, the ports that `drv_std_init`
-- finds, and `drv_std_get_sector_count`.
pub record Device : Type 0 where
  pub reads : ℕ → Bool
  pub writes : ℕ → Bool
  pub ports : ℕ
  pub sector_count : ℕ

module _ {S : Type 0} (dev : Device) where
  -- The effect of `drv_std_read` on the buffer and on the error number; `old` is what the buffer
  -- held before.
  abbrev pub drv_std_read : {A : Type 0} → Codec S A → ℕ → A → Drive S → A × Drive S
  drv_std_read c lba old d =
      if dev.reads lba
      then (c.load d.sectors lba, record d { error = success })
      else (old, record d { error = disk })

  -- `put` is the effect of the packet's content on the sectors.
  abbrev pub drv_std_write : ℕ → ((ℕ → S) → ℕ → S) → Drive S → Drive S
  drv_std_write lba put d =
      if dev.writes lba
      then record d { error = success; sectors = put d.sectors }
      else record d { error = disk }

  -- `io_drv_input`
  unfoldable pub io_drv_input : {A : Type 0} → Codec S A → ℕ → A → Drive S → A × Drive S
  io_drv_input c lba old d =
      let (a, d') = drv_std_read c lba old d in
      if is_success d'.error then (a, d') else (a, record d' { good = false })

  -- `io_drv_output`
  unfoldable pub io_drv_output : ℕ → ((ℕ → S) → ℕ → S) → Drive S → Drive S
  io_drv_output lba put d =
      if d.read_only
      then record d { good = false }
      else if lba == 0
      then record d { good = false }
      else let d' = drv_std_write lba put d in
        if is_success d'.error then d' else record d' { good = false }

-- `io_drv_init`, for AHCI
unfoldable pub io_drv_init : {S : Type 0} → Device → Drive S → Drive S
io_drv_init dev d = record d { good = ltb 0 dev.ports }

-- `io_drv_unimplemented`
unfoldable pub io_drv_unimplemented : {S : Type 0} → Drive S → Drive S
io_drv_unimplemented d = d

-- What the first sector says of the disk: the fields of `EPM_PART_BLOCK` and of
-- `GPT_PARTITION_TABLE` that `io_detect_drive` reads.
pub record Table : Type 0 where
  pub has_magic : Bool
  pub sector_size : ℕ
  pub first : ℕ
  pub last : ℕ

-- `Probe::io_detect_drive`; `junk` is what the two buffers hold before they are read.
abbrev pub as_table : {S : Type 0} → Kind → Table → Drive S → Drive S
as_table kind table d = record d {
  read_only = false;
  kind = kind;
  sector_sz = table.sector_size;
  lba_end = table.last;
  lba_start = table.first;
}

abbrev pub as_unformatted : {S : Type 0} → Device → Drive S → Drive S
as_unformatted dev d = record d {
  read_only = true;
  kind = unformatted_drive;
  sector_sz = 0x200;
  lba_end = dev.sector_count - 1;
  lba_start = 0x400;
}

module _ {S : Type 0} (dev : Device) (epm gpt : Codec S Table) where
  unfoldable pub io_detect_drive : Table → Drive S → Drive S
  io_detect_drive junk d =
      let (epm_block, d₁) = io_drv_input dev epm 0 junk (io_drv_init dev d) in
      let (gpt_block, d₂) = io_drv_input dev gpt 0 junk d₁ in
      if epm_block.has_magic
      then as_table epm_drive epm_block d₁
      else if gpt_block.has_magic
      then as_table gpt_drive gpt_block d₂
      else as_unformatted dev d₂

-- `io_construct_blank_drive`: a `DriveTrait` with its initial values.
unfoldable pub blank_drive : {S : Type 0} → Error → (ℕ → S) → Drive S
blank_drive error sectors = record {
  kind = invalid_drive;
  good = true;
  read_only = false;
  lba_start = 0;
  lba_end = 0;
  sector_sz = 512;
  error = error;
  sectors = sectors;
}

-- `io_construct_main_drive`, of a trait with its initial values.
unfoldable pub construct_main_drive :
    {S : Type 0} → Device → Codec S Table → Codec S Table → Table → Drive S → Drive S
construct_main_drive dev epm gpt junk d = io_detect_drive dev epm gpt junk d
