-- ===== src/Nefs/Tests/Runs.antt =====
-- Runs of the file system on the tests' disk: the partition block at 1024, catalogs from 2000 on.
use nekrnl.Prelude.{
  ℕ, zero, suc, ◌+◌, ◌/◌, ◌%◌, ◌<◌, ◌≡◌, inl, refl, true, false, ◌==◌, if◌then◌else◌, none, some,
  List, [], ◌∷◌, ◌++◌, drop, get_or, arith,
}
use nekrnl.Drive.{Drive, Device, epm_drive, success, disk, io_drv_input, io_drv_output}
use nekrnl.Drive.Mount.{fs_ifs_read, fs_ifs_write, fs_ifs_read_fails, fs_ifs_write_fails}
use nekrnl.Nefs.{
  Lookup, Name, Catalog, Fork, Root, blank_catalog, blank_fork, blank_root, get_catalog, scan_from,
  is_created, matches, same_name, find_catalog, find_plain,
}
use nekrnl.Nefs.Path.{parent_name, leaf_name, back_to}
use nekrnl.Nefs.Path.Parent.{parent_name_child}
use nekrnl.Nefs.Path.Leaf.{parent_name-leaf_name}
use nekrnl.Nefs.Catalogs.{new_child, delete_catalog, uncount_catalog}
use nekrnl.Nefs.Forks.{linked, create_fork, find_fork, read_from, write_chunks}
use nekrnl.Nefs.Scan.{here, Answered, scan_from_complete, scan_from-IsFound, IsFound}
use nekrnl.Nefs.Chunks.{write_chunks-stored}
use nekrnl.Nefs.Siblings.{free, IsReady}
use nekrnl.Nefs.Siblings.Roundtrip.{create_fork-read_from}
use nekrnl.Nefs.Stale.{create_fork-get_catalog_fails, find_fork_fails}
use nekrnl.Nefs.Place.{Places, vacant, full, root_of}
use nekrnl.Nefs.Remove.{AllApart, delete_catalog-scan_from, deleted}
use nekrnl.Nefs.Tests.{Sector, root_sector, catalog_sector, byte_sector, sample, root_codec}

abbrev device : Device
device = record { reads = λ lba. true; writes = λ lba. true; ports = 1; sector_count = 4096 }

-- `/x`, a file at 2000, whose data forks start at 3000.
abbrev file_x : Catalog
file_x = record blank_catalog {
  name = 47 ∷ 120 ∷ [];
  flags = 71;
  kind = 1;
  data_fork = 3000;
  next_sibling = 2002;
}

abbrev part : Root
part = record blank_root {
  start_catalog = 2000;
  catalog_count = 10;
  free_catalog = 9;
  free_sectors = 100;
  disk_size = 5000;
  sector_count = 4096;
  sector_size = 512;
}

abbrev sectors : ℕ → Sector
sectors i =
    if i == 1024
    then root_sector part
    else if i == 2000
    then catalog_sector file_x
    else byte_sector (λ j. 0)

abbrev drive : Drive Sector
drive = record {
  kind = epm_drive;
  good = true;
  read_only = false;
  lba_start = 1024;
  lba_end = 4096;
  sector_sz = 512;
  error = success;
  sectors = sectors;
}

ready : IsReady device sample drive
ready = record { reads_ok = λ lba. refl; writes_ok = λ lba. refl; good = refl; unlocked = refl }

fs_ifs_read_fails_example :
    ((fs_ifs_read
        (some (λ letter. io_drv_input device root_codec 1024 blank_root))
        0
        blank_root
        drive).0
      ≡ disk)
    × (0 < 4
        → (fs_ifs_read
            (some (λ letter. io_drv_input device root_codec 1024 blank_root))
            0
            blank_root
            drive).1.1.good
          ≡ false)
fs_ifs_read_fails_example = fs_ifs_read_fails device root_codec 0 1024 blank_root drive

fs_ifs_write_fails_example :
    ((fs_ifs_write
        (some (λ letter. io_drv_output device 1024 (root_codec.save part 1024)))
        0
        drive).0
      ≡ disk)
    × (root_codec.load
          (fs_ifs_write
            (some (λ letter. io_drv_output device 1024 (root_codec.save part 1024)))
            0
            drive).1.sectors
          1024
        ≡ part)
fs_ifs_write_fails_example =
    fs_ifs_write_fails device root_codec 0 1024 part drive (omega arith) refl refl refl refl

abbrev disk_name : Name
disk_name = 65 ∷ 66 ∷ []

abbrev other_name : Name
other_name = 67 ∷ []

parents :
    (parent_name (47 ∷ 100 ∷ 47 ∷ 97 ∷ 98 ∷ []) ≡ some (47 ∷ 100 ∷ 47 ∷ []))
    × (parent_name (47 ∷ 100 ∷ 47 ∷ 97 ∷ 98 ∷ 47 ∷ []) ≡ some (47 ∷ 100 ∷ 47 ∷ []))
parents = parent_name_child (47 ∷ 100 ∷ []) (97 ∷ 98 ∷ []) clear (omega arith)
  where
    clear : (i : ℕ) → i < 2 → (get_or (97 ∷ 98 ∷ []) i 0 == 47) ≡ false
    clear zero h = refl
    clear (suc zero) h = refl
    clear (suc (suc i)) h = absurd (omega arith)

-- `/d/ab`
parent_name-leaf_name_example :
    (l : List ℕ) × (leaf_name false (47 ∷ 100 ∷ 47 ∷ 97 ∷ 98 ∷ []) ≡ some l)
    × ((47 ∷ 100 ∷ 47 ∷ []) ++ drop 1 l ≡ 47 ∷ 100 ∷ 47 ∷ 97 ∷ 98 ∷ [])
parent_name-leaf_name_example =
    parent_name-leaf_name false (47 ∷ 100 ∷ 47 ∷ 97 ∷ 98 ∷ []) (47 ∷ 100 ∷ 47 ∷ []) refl split
  where
    split : parent_name (47 ∷ 100 ∷ 47 ∷ 97 ∷ 98 ∷ []) ≡ some (47 ∷ 100 ∷ 47 ∷ [])
    split = parents.0

-- 700 bytes from the sector 3001 on.
write_chunks-stored_example :
    (d' : Drive Sector) × (write_chunks device sample 2 (λ i. i) 3001 700 0 drive ≡ some d')
    × ((i : ℕ) → i < 700 → sample.byte (d'.sectors (3001 + i / 512)) (i % 512) ≡ i)
write_chunks-stored_example =
    write_chunks-stored device sample 2 (λ i. i) 3001 700 drive
      (record { writes_ok = λ lba h. refl; unlocked = refl; not_first = omega arith }) (omega arith)

abbrev x_path : Name
x_path = 47 ∷ 120 ∷ []

scan_from_complete_example :
    (r : Lookup Sector) × (scan_from device sample 1 false x_path part 0 2000 blank_catalog drive
      ≡ some r)
    × Answered device sample false 0 2000 file_x drive r
unfolding matches same_name
scan_from_complete_example =
    scan_from_complete device sample 1 0 false x_path part 0 2000 2000 blank_catalog drive
      (record { reads_ok = λ lba. refl; good = refl }) (here (omega arith) hit) (omega arith)
  where
    hit : matches x_path x_path ≡ true
    hit = refl

scan_from-IsFound_example :
    IsFound device sample sectors false x_path 2000 2000
      (record { found = some file_x; lba = 2000; drive = drive })
      file_x
unfolding scan_from matches same_name io_drv_input is_created
scan_from-IsFound_example =
    scan_from-IsFound device sample 1 false x_path part 0 2000 blank_catalog drive
      (record { found = some file_x; lba = 2000; drive = drive }) file_x
      (record { reads_ok = λ lba. refl; good = refl }) run refl
  where
    run :
        scan_from device sample 1 false x_path part 0 2000 blank_catalog drive
        ≡ some (record { found = some file_x; lba = 2000; drive = drive })
    run = refl

abbrev new_fork : Fork
new_fork = record blank_fork { fork_name = 109 ∷ []; catalog_name = x_path; data_size = 5 }

finds_x : get_catalog device sample 3 x_path drive ≡ some (some file_x, drive)
unfolding get_catalog find_catalog find_plain scan_from matches same_name io_drv_input is_created
    parent_name back_to
finds_x = refl

create_fork-read_from_example :
    (d' : Drive Sector) × (before : ℕ) × (create_fork device sample 3 new_fork drive
      ≡ some (true, d'))
    × (read_from device sample 3 file_x (109 ∷ []) 3000 blank_fork d'
        ≡ some (some (linked 3000 before new_fork), record d' { error = success }))
unfolding is_created
create_fork-read_from_example =
    create_fork-read_from device sample 3 0 3000 file_x blank_fork new_fork drive drive refl refl
      refl finds_x refl ready (free (omega arith) refl) (omega arith)

created_fork : (d' : Drive Sector) × (create_fork device sample 3 new_fork drive ≡ some (true, d'))
created_fork = (create_fork-read_from_example.0, create_fork-read_from_example.2)

create_fork-get_catalog_fails_example :
    (d'' : Drive Sector) × (get_catalog device sample 5 x_path created_fork.0 ≡ some (none, d''))
    × (d''.good ≡ false)
create_fork-get_catalog_fails_example =
    create_fork-get_catalog_fails device sample 3 4 new_fork x_path drive created_fork.0
      created_fork.1

find_fork_fails_example :
    (d' : Drive Sector) × (find_fork device sample 8 0 (some file_x) (109 ∷ []) true drive
      ≡ some (none, d'))
find_fork_fails_example = find_fork_fails device sample 7 0 (some file_x) (109 ∷ []) true drive

-- `/y`, behind `/x`.
abbrev y_path : Name
y_path = 47 ∷ 121 ∷ []

abbrev file_y : Catalog
file_y = new_child y_path 0 1 2000

Places-y : Places device sample sectors y_path 2 2020 1 2000 2002
unfolding is_created same_name
Places-y = full (omega arith) refl refl (vacant (omega arith) refl)

delete_catalog-scan_from_example :
    (d' : Drive Sector) × (scan_from device sample 1 true x_path part 0 2000 blank_catalog
        (delete_catalog device sample 2000 file_x drive)
      ≡ some (record { found = some (deleted device sample file_x); lba = 2000; drive = d' }))
    × (is_created (deleted device sample file_x).flags ≡ true)
    × (root_of device sample d'.sectors ≡ uncount_catalog part)
unfolding matches same_name AllApart
delete_catalog-scan_from_example =
    delete_catalog-scan_from device sample 1 0 2000 2000 0 x_path part blank_catalog drive ready
      (omega arith) (here (omega arith) refl) (inl refl) (omega arith) (omega arith)
