-- ===== src/Hefs/Folders.antt =====
-- Directories and the volume itself: `hefsi_update_ind_status`, `INodeDirectoryCtlManip` and
-- `Format` of private/minkernel/src/FS/OpenHeFS+FileSystemParser.cpp.
pub mod Vacant
pub mod Placed
use nekrnl.Prelude.{
  ℕ, zero, suc, ◌+◌, ◌-◌, ◌*◌, ◌/◌, ◌%◌, ◌^◌, Bool, true, false, not, ◌&&◌, ◌||◌, ltb, leb, ◌==◌,
  if◌then◌else◌, Option, none, some, List, [], ◌∷◌, replicate, add64, sub64,
}
use nekrnl.Drive.{
  Drive, Device, success, disk, invalid_data, disk_is_corrupted, io_drv_input, io_drv_output,
  io_drv_unimplemented,
}
use nekrnl.Nefs.{Name, same_name, and_then}
use nekrnl.Hefs.{Boot, Directory, Volume, node_sz, is_hefs, hefs_magic, hefs_version}
use nekrnl.Hefs.Hash.{hash_64}
use nekrnl.Hefs.Tree.{red, black, balance_ind}
use nekrnl.Hefs.Update.{write_boot, write_dir}
use nekrnl.Hefs.Operations.{Junk, too_long, search_all}

-- What an update leaves: its answer, the boot node in memory, and the drive.
pub record Changed (S : Type 0) : Type 0 where
  pub done : Bool
  pub boot : Boot
  pub drive : Drive S

-- A node that holds no directory.
abbrev pub is_unused : Directory → Bool
is_unused x = x.created == 0 && not (x.deleted == 0)

-- The test of the loop: a place for a new directory, or the directory that is deleted.
abbrev pub is_place : Bool → ℕ → Directory → Bool
is_place false hash x = is_unused x || x.hash_path == 0
is_place true hash x = not (x.created == 0) && x.deleted == 0 && hash == x.hash_path

abbrev pub or_start : ℕ → ℕ → ℕ
or_start lba start = if lba == 0 then start else lba

-- The new directory node, from the node `x` that was there, without its child.
abbrev pub new_directory : Bool → Boot → ℕ → ℕ → Directory → Directory
new_directory deletes boot hash flags x = record {
  hash_path = if deletes then 0 else hash;
  flags = flags;
  entry_count = 0;
  checksum = 0;
  created = if deletes then 0 else 1;
  deleted = if deletes then 1 else 0;
  slices = replicate 16 0;
  color = if x.color == 0 then (if x.next == 0 then black else red) else x.color;
  next = x.next;
  prev = or_start x.prev boot.start_ind;
  child = x.child;
  parent = or_start x.parent boot.start_ind;
}

-- The node with the child that was looked for.
abbrev pub with_child : Boot → ℕ → Directory → Directory
with_child boot child x = record x {
  color = red;
  child = if ltb boot.end_ind child then boot.start_ind else child;
}

module _ {S : Type 0} (dev : Device) (vol : Volume S) where
  -- The loop that looks for a child; `x` is the node at the place, `tmp` the loop's buffer.
  unfoldable pub find_child : ℕ → Boot → Directory → ℕ → Directory → Drive S → Option (ℕ × Drive S)
  find_child zero boot x child tmp d = none
  find_child (suc fuel) boot x child tmp d =
      let (y, d') = io_drv_input dev vol.directory child tmp d in
      let rest = find_child fuel boot x (add64 child node_sz) y d' in
      if is_unused y || x.hash_path == 0
      then some (child, d')
      else if ltb boot.end_ind (add64 child node_sz)
      then some (add64 child node_sz, d')
      else rest

  abbrev pub child_for :
      ℕ → Boot → Directory → Directory → Directory → Drive S → Option (Directory × Drive S)
  child_for fuel boot x new tmp d =
      if x.child == 0
      then and_then (find_child fuel boot x (add64 x.next node_sz) tmp d)
          (λ (child, d'). some (with_child boot child new, d'))
      else some (new, d)

  abbrev pub count_directory : Bool → Boot → Boot
  count_directory deletes boot =
      let b = record boot {
        ind_count = if deletes then sub64 boot.ind_count 1 else add64 boot.ind_count 1;
      } in
      record b { checksum = vol.boot_sum b }

  -- The node is written at its place, and the boot node counts it.
  unfoldable pub put_directory : Bool → Boot → ℕ → Directory → Drive S → Changed S
  put_directory deletes boot place new d =
      let new' = record new { checksum = vol.directory_sum new } in
      let boot' = count_directory deletes boot in
      record {
        done = true;
        boot = boot';
        drive =
            write_boot dev vol boot' (record (write_dir dev vol place new' d) { error = success });
      }

  abbrev pub take_node :
      ℕ → Bool → Boot → ℕ → ℕ → ℕ → Directory → Directory → Drive S → Option (Changed S)
  take_node fuel deletes boot hash flags place x tmp d =
      and_then (child_for fuel boot x (new_directory deletes boot hash flags x) tmp d)
        (λ (new, d'). some (put_directory deletes boot place new d'))

  -- The loop of `hefsi_update_ind_status`; `prev` is `prev_location`, `dir` its buffer and `tmp`
  -- that of the loop for a child. Its `parent_location` is 0 throughout, so the part of the
  -- program that wants it otherwise is not reached.
  unfoldable pub update_ind_from :
      ℕ → Bool → Boot → ℕ → ℕ → ℕ → ℕ → Directory → Directory → Drive S → Option (Changed S)
  update_ind_from zero deletes boot hash flags start prev dir tmp d = none
  update_ind_from (suc fuel) deletes boot hash flags start prev dir tmp d =
      let lba = if start == 0 then add64 prev node_sz else start in
      let (x, d') = io_drv_input dev vol.directory lba dir d in
      let next = add64 start node_sz in
      let rest = update_ind_from fuel deletes boot hash flags next start x tmp d' in
      if is_place deletes hash x
      then take_node fuel deletes boot hash flags start x tmp d'
      else if ltb boot.end_ind next || next == 0
      then some (record { done = false; boot = boot; drive = record d' { error = disk } })
      else rest

  -- `hefsi_update_ind_status`: with no result inside when the kernel stops.
  unfoldable pub update_ind_status :
      ℕ → Bool → Boot → Name → ℕ → Directory → Drive S → Option (Option (Changed S))
  update_ind_status fuel deletes boot dir_name flags junk d =
      if not (ltb d.lba_start boot.start_ind)
      then some none
      else and_then
          (update_ind_from fuel deletes boot (hash_64 dir_name) flags boot.start_ind boot.start_ind
            junk junk d)
          (λ r. some (some r))

  abbrev pub then_balance : ℕ → Junk → Option (Changed S) → Option (Option (Bool × Drive S))
  then_balance fuel junk none = some none
  then_balance fuel junk (some r) =
      if r.done
      then and_then (balance_ind dev vol fuel r.boot junk.directory r.drive)
          (λ (ok, d). some (some (true, d)))
      else some (some (false, r.drive))

  -- `INodeDirectoryCtlManip`; its second test of the boot node repeats the first.
  unfoldable pub directory_ctl_manip :
      ℕ → ℕ → Name → Bool → Junk → Drive S → Option (Option (Bool × Drive S))
  directory_ctl_manip fuel flags dir deletes junk d =
      let (boot, d₁) = io_drv_input dev vol.boot d.lba_start junk.boot d in
      if too_long dir
      then some (some (false, record d { error = disk }))
      else if not (is_hefs boot)
      then some (some (true, record d₁ { error = disk }))
      else if same_name dir search_all
      then some (some (false, record d₁ { error = invalid_data }))
      else and_then (update_ind_status fuel deletes boot dir (flags % 2 ^ 16) junk.directory d₁)
          (λ r. then_balance fuel junk r)

  unfoldable pub create_directory : ℕ → ℕ → Name → Junk → Drive S → Option (Option (Bool × Drive S))
  create_directory fuel flags dir junk d = directory_ctl_manip fuel flags dir false junk d

  unfoldable pub remove_directory : ℕ → ℕ → Name → Junk → Drive S → Option (Option (Bool × Drive S))
  remove_directory fuel flags dir junk d = directory_ctl_manip fuel flags dir true junk d

  -- The boot node that `Format` writes over the one that it read.
  abbrev pub formatted_boot : ℕ → ℕ → ℕ → Boot → Boot
  formatted_boot start size sector_sz boot =
      let lbas = size / sector_sz in
      let b = record boot {
        magic = hefs_magic;
        start_ind = start + 513;
        end_ind = start + 513 + lbas / 300;
        start_in = start + 513 + lbas / 300;
        end_in = start + 513 + lbas / 300 + lbas / 400;
        start_block = start + 513 + lbas / 300 + lbas / 400;
        end_block = size;
        ind_count = 0;
        version = hefs_version;
      } in
      record b { checksum = vol.boot_sum b }

  -- The checksum of a boot node that was read is not its sum, and is not 0.
  abbrev pub is_damaged : Boot → Bool
  is_damaged boot = not (vol.boot_sum boot == boot.checksum) && ltb 0 boot.checksum

  -- `kFileMap`, directory by directory.
  abbrev pub next_directory :
      Option (Bool × Drive S) → (Drive S → Option (Option (Drive S))) → Option (Option (Drive S))
  next_directory none rest = some none
  next_directory (some (ok, d)) rest = rest d

  unfoldable pub create_all : ℕ → ℕ → List Name → Junk → Drive S → Option (Option (Drive S))
  create_all fuel flags [] junk d = some (some d)
  create_all fuel flags (dir ∷ dirs) junk d =
      and_then (create_directory fuel flags dir junk d)
        (λ r. next_directory r (λ d'. create_all fuel flags dirs junk d'))

  abbrev pub finish_format : Option (Drive S) → Option (Bool × Drive S)
  finish_format none = none
  finish_format (some d) = some (true, record d { error = success })

  -- `Format`, with `kFileMap` in `dirs` and the encoding in `flags`; with no result inside when the
  -- kernel stops.
  unfoldable pub hefs_format : ℕ → ℕ → List Name → Junk → Drive S → Option (Option (Bool × Drive S))
  hefs_format fuel flags dirs junk d =
      let (boot, d₁) = io_drv_input dev vol.boot d.lba_start junk.boot (io_drv_unimplemented d) in
      let boot' = formatted_boot d.lba_start (dev.sector_count * 512) d.sector_sz boot in
      let d₂ = write_boot dev vol boot' d₁ in
      if not (io_drv_unimplemented d).good || not d₁.good
      then some (some (false, record d₁ { error = disk_is_corrupted }))
      else if is_damaged boot
      then some (some (false, record d₁ { error = disk_is_corrupted }))
      else if is_hefs boot
      then some (some (true, record d₁ { error = success }))
      else if ltb d.lba_end d.lba_start
      then some (some (false, record d₁ { error = disk_is_corrupted }))
      else if d.sector_sz == 0
      then some none
      else if not d₂.good
      then some (some (false, record d₂ { error = disk_is_corrupted }))
      else and_then (create_all fuel flags dirs junk d₂) (λ r. some (finish_format r))
