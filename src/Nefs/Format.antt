-- ===== src/Nefs/Format.antt =====
-- `Format` and `fs_init_nefs` of private/minkernel/src/FS/NeFS+FileSystemParser.cpp.
use nekrnl.Prelude.{
  ℕ, ◌+◌, ◌*◌, ◌/◌, ◌%◌, ◌≤◌, ◌<◌, ◌≡◌, Bool, true, false, not, ◌==◌, if◌then◌else◌, Option, none,
  some, [], ◌∷◌, sub64, word,
}
use nekrnl.Drive.{
  Drive, Device, Table, construct_main_drive, success, disk_is_corrupted, io_drv_input,
  io_drv_output, io_drv_unimplemented,
}
use nekrnl.Drive.Layout.{Codec}
use nekrnl.Nefs.{Name, Root, Disk, blank_root, same_name, is_empty, catalog_sz}
use nekrnl.Nefs.Catalogs.{catalog_sectors, copy_name}

-- `kNeFSIdent` and the 0 behind it, `kNeFSVersionInteger`, `kNeFSPartitionTypeStandard`
abbrev pub nefs_ident : Name
nefs_ident = 32 ∷ 32 ∷ 78 ∷ 101 ∷ 70 ∷ 83 ∷ []

abbrev pub version_integer : ℕ
version_integer = 0x0129

abbrev pub partition_type_standard : ℕ
partition_type_standard = 7

-- `rt_string_cmp` of the two identifiers, over `kNeFSIdentLen` characters: a NeFS partition.
abbrev pub is_nefs : Root → Bool
is_nefs part = same_name nefs_ident part.ident

-- The partition block of a disk of `sectors` sectors of `sz` bytes; the fields that `Format` does
-- not set are those of the block that it read.
abbrev pub formatted : ℕ → ℕ → ℕ → Name → Root → Root
formatted start sectors sz part_name part =
    let bytes = sectors * sz % word in
    let entries = bytes / catalog_sz in
    record part {
      ident = nefs_ident;
      partition_name = copy_name 32 part_name;
      version = version_integer;
      kind = partition_type_standard;
      start_catalog = start + catalog_sectors sz;
      flags = 0;
      catalog_count = entries;
      free_catalog = sub64 entries 1;
      sector_count = sectors;
      disk_size = bytes;
      sector_size = sz;
      free_sectors = sub64 sectors (catalog_sectors sz);
    }

module _ {S : Type 0} (dev : Device) (fs : Disk S) where
  -- `Format` of a drive that `io_construct_main_drive` has made.
  unfoldable pub format : Name → Drive S → Bool × Drive S
  format part_name d =
      let d₁ = io_drv_unimplemented d in
      let (part, d₂) = io_drv_input dev fs.root d.lba_start blank_root d₁ in
      let part' = formatted d.lba_start dev.sector_count d.sector_sz part_name part in
      if is_empty part_name
      then (false, d)
      else if not d₁.good
      then (false, record d₁ { error = disk_is_corrupted })
      else if is_nefs part
      then (true, d₂)
      else (true, io_drv_output dev d.lba_start (fs.root.save part' d.lba_start) d₂)

  -- `kNeFSVolumeName`
  abbrev pub volume_name : Name
  volume_name = 78 ∷ 101 ∷ 70 ∷ 83 ∷ 32 ∷ 86 ∷ 111 ∷ 108 ∷ 117 ∷ 109 ∷ 101 ∷ []

  -- `fs_init_nefs`: `none` when the kernel stops.
  unfoldable pub init_nefs :
      Codec S Table → Codec S Table → Table → Drive S → Option (Bool × Drive S)
  init_nefs epm gpt junk d =
      let d' = construct_main_drive dev epm gpt junk d in
      if d'.read_only then none else some (format volume_name d')

  -- The drive works at its first block, and can be written.
  pub record IsWritable (d : Drive S) : Type 0 where
    pub reads_ok : dev.reads d.lba_start ≡ true
    pub writes_ok : dev.writes d.lba_start ≡ true
    pub good : d.good ≡ true
    pub unlocked : d.read_only ≡ false
    pub not_first : (d.lba_start == 0) ≡ false

  abbrev root_at : Drive S → Root
  root_at d = fs.root.load d.sectors d.lba_start

  abbrev formatted_drive : Name → Drive S → Drive S
  formatted_drive n d = record d {
    error = success;
    sectors =
        fs.root.save (formatted d.lba_start dev.sector_count d.sector_sz n (root_at d)) d.lba_start
          d.sectors;
  }

  -- What `Format` leaves of the first block of a disk without NeFS: `r` is the partition, for the
  -- volume `n`; as many catalogs as the disk has room for are counted, and all but one are free.
  pub record IsPartition (d : Drive S) (n : Name) (r : Root) : Type 0 where
    pub ident : r.ident ≡ nefs_ident
    pub named : r.partition_name ≡ copy_name 32 n
    pub versioned : r.version ≡ version_integer
    pub bytes : r.disk_size ≡ dev.sector_count * d.sector_sz % word
    pub sectors : r.sector_count ≡ dev.sector_count
    pub sector : r.sector_size ≡ d.sector_sz
    pub start : r.start_catalog ≡ d.lba_start + catalog_sectors d.sector_sz
    pub fits : r.catalog_count * catalog_sz ≤ r.disk_size
    pub most : r.disk_size < (r.catalog_count + 1) * catalog_sz
    pub unused : r.free_sectors ≡ sub64 dev.sector_count (catalog_sectors d.sector_sz)
    pub standard : r.kind ≡ partition_type_standard
    pub one_taken : 0 < r.catalog_count → r.free_catalog + 1 ≡ r.catalog_count

  -- What one `Format` does to the sectors: a NeFS partition stays, on another disk one is made.
  pub data Formatted (n : Name) (d d' : Drive S) : Type 0 where
    kept : is_nefs (root_at d) ≡ true → d'.sectors ≡ d.sectors → Formatted n d d'
    made :
        is_nefs (root_at d) ≡ false
        → IsPartition d n (fs.root.load d'.sectors d.lba_start)
        → Formatted n d d'
