-- ===== src/Hefs/Tests.antt =====
-- Runs on a volume whose sectors hold one node each: the boot node at 10, directories from 600 on,
-- inodes from 3000 on.
use nekrnl.Prelude.{
  ℕ, ◌+◌, ◌≡◌, refl, true, false, ◌==◌, if◌then◌else◌, some, [], ◌∷◌, replicate, arith,
}
use nekrnl.Drive.{Drive, Device, epm_drive, success}
use nekrnl.Drive.Memory.{one_sector, two_sectors}
use nekrnl.Nefs.{Name}
use nekrnl.Hefs.{Boot, Directory, Inode, Volume, blank_inode, fetch_in}
use nekrnl.Hefs.Hash.{hash_64, hash_from, to_big_endian_64}
use nekrnl.Hefs.Update.{Updated, update_in_status}
use nekrnl.Hefs.Region.{Directories, directory_at, found, past, free}
use nekrnl.Hefs.Made.{update_in_status-fetch_in}
use nekrnl.Hefs.Operations.{Junk}
use nekrnl.Hefs.Folders.{Changed, update_ind_from}
use nekrnl.Hefs.Folders.Vacant.{blank, occupied}
use nekrnl.Hefs.Folders.Placed.{
  update_ind_from-Directories, IsStale, put_directory-hefs_format_refused,
}
use nekrnl.Hefs.Tree.{traverse_tree, traverse_tree_ends}

data Node : Type 0 where
  boot_node : Boot → Node
  directory_node : Directory → Node
  inode_node : Inode → Node
  tail_node : Node

abbrev boot : Boot
boot = record {
  magic = [];
  version = 0;
  checksum = 0;
  start_ind = 600;
  end_ind = 3000;
  ind_count = 2;
  start_in = 3000;
  end_in = 9000;
  start_block = 9000;
  end_block = 90000;
}

abbrev blank_directory : Directory
blank_directory = record {
  hash_path = 0;
  flags = 0;
  entry_count = 0;
  checksum = 0;
  created = 0;
  deleted = 0;
  slices = replicate 16 0;
  color = 0;
  next = 0;
  prev = 0;
  child = 0;
  parent = 0;
}

abbrev as_boot : Node → Boot
as_boot (boot_node b) = b
as_boot (directory_node x) = boot
as_boot (inode_node n) = boot
as_boot tail_node = boot

abbrev as_directory : Node → Directory
as_directory (boot_node b) = blank_directory
as_directory (directory_node x) = x
as_directory (inode_node n) = blank_directory
as_directory tail_node = blank_directory

abbrev as_inode : Node → Inode
as_inode (boot_node b) = blank_inode
as_inode (directory_node x) = blank_inode
as_inode (inode_node n) = n
as_inode tail_node = blank_inode

abbrev volume : Volume Node
volume = record {
  boot = two_sectors as_boot boot_node tail_node (λ b. refl);
  directory = one_sector as_directory directory_node (λ x. refl);
  inode = one_sector as_inode inode_node (λ n. refl);
  boot_width = refl;
  directory_width = refl;
  inode_width = refl;
  boot_sum = λ b. b.start_in + b.checksum + 1;
  directory_sum = λ x. x.entry_count;
  inode_sum = λ n. n.offset_low;
}

-- `/` and `/a`
abbrev root_dir : Name
root_dir = 47 ∷ []

abbrev a_dir : Name
a_dir = 47 ∷ 97 ∷ []

abbrev file : Name
file = 102 ∷ []

abbrev nodes : ℕ → Node
nodes i =
    if i == 600
    then directory_node (record blank_directory { hash_path = hash_64 root_dir })
    else if i == 1112
    then directory_node (record blank_directory { hash_path = hash_64 a_dir })
    else tail_node

abbrev drive : Drive Node
drive = record {
  kind = epm_drive;
  good = true;
  read_only = false;
  lba_start = 10;
  lba_end = 90000;
  sector_sz = 512;
  error = success;
  sectors = nodes;
}

abbrev device : Device
device = record { reads = λ lba. true; writes = λ lba. true; ports = 1; sector_count = 90000 }

abbrev new_file : Inode
new_file = record blank_inode { hash_path = hash_64 file; kind = 1; created = 1 }

update_in_status-fetch_in_example :
    (r : Updated Node) × (e : Drive Node) × (update_in_status device volume 3 false boot a_dir
        new_file blank_directory drive
      ≡ some r)
    × (r.done ≡ true)
    × (fetch_in device volume 3 r.boot a_dir file 1 blank_directory r.drive ≡ some (some r.node, e))
unfolding hash_64 hash_from to_big_endian_64
update_in_status-fetch_in_example =
    update_in_status-fetch_in device volume 3 1 0 1112 boot a_dir file new_file blank_directory
      blank_directory drive
      (record { reads_ok = λ lba. refl; writes_ok = λ lba. refl; unlocked = refl })
      (record {
        not_first = omega arith;
        boot_below = omega arith;
        directories = omega arith;
        inodes_behind = omega arith;
        room = omega arith;
        blocks = omega arith;
        small = omega arith;
        small_inodes = omega arith;
      })
      refl (past (omega arith) refl refl (found (omega arith) refl)) free refl (omega arith)

traverse_tree_ends_example :
    (r : ℕ × Drive Node) × (traverse_tree device volume 4 600 0 blank_directory drive ≡ some r)
traverse_tree_ends_example = traverse_tree_ends device volume 1 600 0 blank_directory drive refl

-- `/b`, at the blank node behind the two directories.
abbrev b_dir : Name
b_dir = 47 ∷ 98 ∷ []

update_ind_from-Directories_example :
    (r : Changed Node) × (update_ind_from device volume 4 false boot
        (hash_64 b_dir)
        0
        600
        600
        blank_directory
        blank_directory
        drive
      ≡ some r)
    × (r.done ≡ true)
    × Directories device volume r.drive.sectors (hash_64 b_dir) 3000 2 600 1624
    × ((directory_at device volume r.drive.sectors 1624).slices ≡ replicate 16 0)
unfolding hash_64 hash_from to_big_endian_64
update_ind_from-Directories_example =
    update_ind_from-Directories device volume 4 2 (hash_64 b_dir) 0 600 1624 600 boot
      blank_directory blank_directory drive
      (record { reads_ok = λ lba. refl; writes_ok = λ lba. refl; unlocked = refl }) (omega arith)
      (omega arith) (omega arith)
      (occupied (omega arith) refl refl refl
        (occupied (omega arith) refl refl refl (blank (omega arith) refl)))
      (omega arith)

abbrev junk : Junk
junk = record { boot = boot; directory = blank_directory }

put_directory-hefs_format_refused_example :
    IsStale device volume 9 80 1624 boot blank_directory (b_dir ∷ []) junk drive
put_directory-hefs_format_refused_example =
    put_directory-hefs_format_refused device volume 9 80 1624 boot blank_directory (b_dir ∷ []) junk
      drive (record { reads_ok = λ lba. refl; writes_ok = λ lba. refl; unlocked = refl }) refl
      (omega arith) (omega arith) (omega arith) (λ e. omega arith)
