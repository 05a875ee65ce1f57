-- ===== src/Hefs/Update.antt =====
-- Inodes: `hefsi_update_in_status` and the operations of `HeFileSystemParser` on inodes of
-- private/minkernel/src/FS/OpenHeFS+FileSystemParser.cpp.
use nekrnl.Prelude.{
  ℕ, zero, suc, ◌+◌, ◌-◌, ◌/◌, ◌%◌, ◌^◌, Bool, true, false, not, ◌&&◌, ◌||◌, ltb, ◌==◌,
  if◌then◌else◌, Option, none, some, List, [], ◌∷◌, set, add64,
}
use nekrnl.Drive.{Drive, Device, file_not_found, io_drv_input, io_drv_output}
use nekrnl.Nefs.{Name}
use nekrnl.Hefs.{Boot, Inode, Directory, Volume, node_sz, block_len, blank_inode}
use nekrnl.Hefs.Hash.{hash_64}

-- What an update leaves: its answer, the boot node and the inode in memory, and the drive.
pub record Updated (S : Type 0) : Type 0 where
  pub done : Bool
  pub boot : Boot
  pub node : Inode
  pub drive : Drive S

module _ {S : Type 0} (dev : Device) (vol : Volume S) where
  abbrev pub write_boot : Boot → Drive S → Drive S
  write_boot boot d = io_drv_output dev d.lba_start (vol.boot.save boot d.lba_start) d

  abbrev pub write_inode : ℕ → Inode → Drive S → Drive S
  write_inode lba n d = io_drv_output dev lba (vol.inode.save n lba) d

  abbrev pub write_dir : ℕ → Directory → Drive S → Drive S
  write_dir lba x d = io_drv_output dev lba (vol.directory.save x lba) d

  -- The directory, the inode and the boot node after a creation.
  abbrev pub filed : Boot → Directory → ℕ → Directory
  filed boot x index =
      let x' = record x {
        slices = set x.slices index boot.start_in;
        entry_count = (x.entry_count + 1) % 2 ^ 32;
      } in
      record x' { checksum = vol.directory_sum x' }

  abbrev pub made : Boot → Inode → Inode
  made boot node =
      let n = record node {
        offset_low = boot.start_block % 2 ^ 32;
        offset_high = boot.start_block / 2 ^ 32 % 2 ^ 32;
      } in
      record n { checksum = vol.inode_sum n }

  abbrev pub advanced : Boot → Boot
  advanced boot =
      let b = record boot {
        start_in = add64 boot.start_in node_sz;
        start_block = add64 boot.start_block block_len;
      } in
      record b { checksum = vol.boot_sum b }

  -- The creation, with the slice `index` of the directory `x` at `start`.
  unfoldable pub add_inode : Boot → Inode → ℕ → Directory → ℕ → Drive S → Updated S
  add_inode boot node start x index d = record {
    done = true;
    boot = advanced boot;
    node = made boot node;
    drive =
        write_boot (advanced boot)
          (write_inode boot.start_in (made boot node) (write_dir start (filed boot x index) d));
  }

  -- The deletion of the inode at `lba`, the slice `index` of the directory `x` at `start`.
  unfoldable pub drop_inode : Boot → Inode → ℕ → Directory → ℕ → ℕ → Drive S → Updated S
  drop_inode boot node start x index lba d =
      let n' = record node { offset_low = 0; offset_high = 0 } in
      let b' = record boot { checksum = vol.boot_sum boot } in
      let x₁ = record x {
        slices = set x.slices index 0;
        entry_count = if x.entry_count == 0 then 0 else x.entry_count - 1;
      } in
      let x' = record x₁ { checksum = vol.directory_sum x₁ } in
      record {
        done = true;
        boot = b';
        node = n';
        drive = write_dir start x' (write_inode lba n' (write_boot b' d));
      }

  abbrev pub not_done : Boot → Inode → Drive S → Updated S
  not_done boot node d = record { done = false; boot = boot; node = node; drive = d }

  -- The loop over the slices from `index` on: what it did, or the drive after its reads.
  unfoldable pub update_slices :
      Bool → Boot → Inode → ℕ → Directory → ℕ → List ℕ → Drive S → Updated S
  update_slices deletes boot node start x index [] d = not_done boot node d
  update_slices deletes boot node start x index (lba ∷ slices) d =
      let (tmp, d') = io_drv_input dev vol.inode lba blank_inode d in
      let next = update_slices deletes boot node start x (index + 1) slices d in
      let next' = update_slices deletes boot node start x (index + 1) slices d' in
      if lba == 0 && not deletes
      then add_inode boot node start x index d
      else if not (lba == 0) && deletes
      then if not (tmp.hash_path == node.hash_path)
        then next'
        else drop_inode boot node start x index lba d'
      else next

  -- The loop of `hefsi_update_in_status` over the directory nodes; `dir` is its buffer.
  unfoldable pub update_from :
      ℕ → Bool → Boot → ℕ → Inode → ℕ → Directory → Drive S → Option (Updated S)
  update_from zero deletes boot dir_hash node start dir d = none
  update_from (suc fuel) deletes boot dir_hash node start dir d =
      let (x, d₁) = io_drv_input dev vol.directory start dir d in
      let r =
        if dir_hash == x.hash_path
        then update_slices deletes boot node start x 0 x.slices d₁
        else not_done boot node d₁ in
      let rest = update_from fuel deletes boot dir_hash node (add64 start node_sz) x r.drive in
      if r.done
      then some r
      else if ltb boot.end_ind (add64 start node_sz) || add64 start node_sz == 0
      then some (not_done boot node (record r.drive { error = file_not_found }))
      else rest

  -- `hefsi_update_in_status`; `deletes` is `delete_or_create`.
  unfoldable pub update_in_status :
      ℕ → Bool → Boot → Name → Inode → Directory → Drive S → Option (Updated S)
  update_in_status fuel deletes boot dir_name node junk d =
      if ltb boot.end_ind boot.start_ind
        || ltb boot.end_in boot.start_in
        || ltb boot.end_block boot.start_block
      then some (not_done boot node d)
      else update_from fuel deletes boot (hash_64 dir_name) node boot.start_ind junk d
