-- ===== src/Nefs/Catalogs.antt =====
-- Creation and removal of catalogs: `CreateCatalog` and `RemoveCatalog` of
-- private/minkernel/src/FS/NeFS+FileSystemParser.cpp.
use nekrnl.Prelude.{
  ℕ, zero, suc, ◌+◌, ◌-◌, ◌*◌, ◌/◌, Bool, true, false, not, ◌&&◌, ◌||◌, ltb, leb, ◌==◌,
  if◌then◌else◌, Option, none, some, length, get_or, add64, sub64, [],
}
use nekrnl.Drive.{Drive, Device, io_drv_input, io_drv_output, file_exists, file_not_found, internal}
use nekrnl.Nefs.Path.{parent_name, leaf_name}
use nekrnl.Nefs.{
  Name, Catalog, Fork, Root, Disk, Lookup, blank_catalog, blank_fork, blank_root, root_start,
  catalog_start, catalog_sz, catalog_name_len, flag_created, kind_file, kind_dir, separator,
  same_name, is_created, mark_deleted, is_empty, root_name, and_then, find_catalog,
}

-- A copy of a name into a field of `size` characters that are 0: a longer name leaves it empty.
abbrev pub copy_name : ℕ → Name → Name
copy_name size name = if leb (length name) size then name else []

abbrev pub catalog_sectors : ℕ → ℕ
catalog_sectors sector_sz = (catalog_sz + sector_sz - 1) / sector_sz

-- The child before its place is known.
abbrev pub new_child : Name → ℕ → ℕ → ℕ → Catalog
new_child leaf flags kind out = record {
  name = copy_name catalog_name_len leaf;
  flags = flag_created;
  status = 0;
  catalog_flags = flags;
  kind = kind;
  data_fork_size = 0;
  resource_fork_size = 0;
  data_fork = 0;
  resource_fork = 0;
  next_sibling = out;
  prev_sibling = out;
  checksum = 0;
}

-- The child at the free place `at`.
abbrev pub placed : ℕ → ℕ → Root → Catalog → Catalog
placed at sectors part child = record child {
  next_sibling = at + sectors;
  data_fork = sub64 part.disk_size at;
  resource_fork = sub64 part.disk_size at;
}

-- The counters of the partition after a catalog of `sectors` sectors is taken.
abbrev pub count_catalog : ℕ → Root → Root
count_catalog sectors part = record part {
  free_sectors = sub64 part.free_sectors sectors;
  catalog_count = add64 part.catalog_count 1;
  free_catalog = sub64 part.free_catalog 1;
}

abbrev pub uncount_catalog : Root → Root
uncount_catalog part = record part {
  catalog_count = if ltb 0 part.catalog_count then part.catalog_count - 1 else 0;
  free_sectors = add64 part.free_sectors 1;
}

abbrev pub Answer : Type 0 → Type 0
Answer S = Option (Option Catalog × Drive S)

module _ {S : Type 0} (dev : Device) (fs : Disk S) where
  abbrev pub write_catalog_at : ℕ → Catalog → Drive S → Drive S
  write_catalog_at at c d = io_drv_output dev at (fs.catalog.save c at) d

  abbrev pub write_root : Root → Drive S → Drive S
  write_root part d = io_drv_output dev root_start (fs.root.save part root_start) d

  -- What is done with a free place `at`: a blank catalog, the child, and the counters.
  unfoldable pub take_place : ℕ → ℕ → Root → Catalog → Drive S → Drive S
  take_place at sectors part child d =
      let d₁ = write_catalog_at at blank_catalog d in
      let d₂ = write_catalog_at at (placed at sectors part child) d₁ in
      let (part', d₃) = io_drv_input dev fs.root root_start part d₂ in
      write_root (count_catalog sectors part') d₃

  -- The loop over the places; `tmp` is its buffer.
  unfoldable pub find_place : ℕ → ℕ → Name → Root → Catalog → ℕ → Catalog → Drive S → Answer S
  find_place zero sectors path part child at tmp d = none
  find_place (suc fuel) sectors path part child at tmp d =
      let (c, d') = io_drv_input dev fs.catalog at tmp d in
      let rest = find_place fuel sectors path part child (at + sectors) c d' in
      if ltb at (part.start_catalog + part.catalog_count * sectors)
      then if not (is_created c.flags)
        then some (some c, take_place at sectors part child d')
        else if same_name c.name path
        then some (some c, d')
        else rest
      else some (none, d)

  -- From the first read of the partition block to the end.
  unfoldable pub create_child : ℕ → Name → Catalog → ℕ → Drive S → Answer S
  create_child fuel path child out d =
      let (part, d₁) = io_drv_input dev fs.root root_start blank_root d in
      let (tmp, d₂) = io_drv_input dev fs.catalog out blank_catalog d₁ in
      if ltb part.free_catalog 1
      then some (none, d₂)
      else find_place fuel (catalog_sectors d.sector_sz) path part child out tmp d₂

  -- The child's name; `none` when the loop over it leaves the string.
  abbrev pub with_leaf : ℕ → Name → ℕ → ℕ → Option Name → ℕ → Drive S → Answer S
  with_leaf fuel path flags kind none out d = none
  with_leaf fuel path flags kind (some leaf) out d =
      create_child fuel path (new_child leaf flags kind out) out d

  abbrev pub create_at : ℕ → Name → ℕ → ℕ → ℕ → Drive S → Answer S
  create_at fuel path flags kind out d =
      if d.read_only
      then some (none, d)
      else with_leaf fuel path flags kind (leaf_name (kind == kind_dir) path) out d

  -- The parent's catalog, or the start of the catalogs.
  abbrev pub below : ℕ → Name → ℕ → ℕ → Option Catalog → Lookup S → Answer S
  below fuel path flags kind (some parent) r =
      if parent.kind == kind_file
      then some (none, r.drive)
      else create_at fuel path flags kind r.lba r.drive
  below fuel path flags kind none r =
      let (part, d') = io_drv_input dev fs.root root_start blank_root r.drive in
      create_at fuel path flags kind part.start_catalog d'

  abbrev pub in_parent : ℕ → Name → ℕ → ℕ → Option Name → Lookup S → Answer S
  in_parent fuel path flags kind none r = some (none, record r.drive { error = file_not_found })
  in_parent fuel path flags kind (some parent) r =
      and_then (find_catalog dev fs fuel true false parent r.lba r.drive)
        (λ p. below fuel path flags kind p.found p)

  abbrev pub unless_there : ℕ → Name → ℕ → ℕ → Option Catalog → Lookup S → Answer S
  unless_there fuel path flags kind (some c) r = some (none, record r.drive { error = file_exists })
  unless_there fuel path flags kind none r =
      if ltb (length path) 2
      then some (none, record r.drive { error = file_not_found })
      else in_parent fuel path flags kind (parent_name path) r

  abbrev pub ends_with_separator : Name → Bool
  ends_with_separator path = get_or path (length path - 1) 0 == separator

  -- `CreateCatalog`
  unfoldable pub create_catalog : ℕ → Name → ℕ → ℕ → Drive S → Answer S
  create_catalog fuel path flags kind d =
      if is_empty path
      then some (none, d)
      else if kind == kind_dir && not (ends_with_separator path)
      then some (none, d)
      else if not (kind == kind_dir) && ends_with_separator path
      then some (none, d)
      else and_then (find_catalog dev fs fuel true false path 0 d)
          (λ r. unless_there fuel path flags kind r.found r)

  -- `CreateCatalog` of a file with no flags
  unfoldable pub create_file : ℕ → Name → Drive S → Answer S
  create_file fuel path d = create_catalog fuel path 0 kind_file d

  -- The loop of `RemoveCatalog` over a chain of forks; `buf` is its buffer.
  unfoldable pub delete_forks : ℕ → ℕ → Fork → Drive S → Option (Fork × Drive S)
  delete_forks zero lba buf d = none
  delete_forks (suc fuel) lba buf d =
      let (f, d') = io_drv_input dev fs.fork lba buf d in
      let f' = record f { flags = mark_deleted 32 f.flags } in
      let rest =
        delete_forks fuel f'.next_sibling f' (io_drv_output dev lba (fs.fork.save f' lba) d') in
      if ltb lba catalog_start then some (buf, d) else rest

  -- The catalog itself, and the counters.
  unfoldable pub delete_catalog : ℕ → Catalog → Drive S → Drive S
  delete_catalog lba c d =
      let d₁ = write_catalog_at lba (record c { flags = mark_deleted 16 c.flags }) d in
      let (part, d₂) = io_drv_input dev fs.root root_start blank_root d₁ in
      write_root (uncount_catalog part) d₂

  abbrev pub finish_remove : ℕ → Catalog → Drive S → Bool × Drive S
  finish_remove lba c d =
      if leb catalog_start lba || is_created c.flags
      then (true, delete_catalog lba c d)
      else (false, d)

  abbrev pub remove_found : ℕ → Option Catalog → Lookup S → Option (Bool × Drive S)
  remove_found fuel none r = some (false, r.drive)
  remove_found fuel (some c) r =
      and_then (delete_forks fuel c.data_fork blank_fork r.drive) (λ (buf, d).
        and_then (delete_forks fuel c.resource_fork buf d)
          (λ (buf', d'). some (finish_remove r.lba c d')))

  -- `RemoveCatalog`
  unfoldable pub remove_catalog : ℕ → Name → Drive S → Option (Bool × Drive S)
  remove_catalog fuel path d =
      if same_name path root_name
      then some (false, record d { error = internal })
      else and_then (find_catalog dev fs fuel true true path 0 d) (λ r. remove_found fuel r.found r)
