-- ===== src/Nefs.antt =====
-- NeFS: private/minkernel/FSKit/NeFS.h and private/minkernel/src/FS/NeFS+FileSystemParser.cpp.
pub mod Path
pub mod Catalogs
pub mod Forks
pub mod Format
pub mod Bits
pub mod Scan
pub mod Remove
pub mod Chunks
pub mod Siblings
pub mod Stale
pub mod Place
pub mod Found
mod Tests
use nekrnl.Prelude.{
  ℕ, zero, suc, ◌+◌, ◌-◌, ◌*◌, ◌/◌, ◌<◌, ◌≡◌, ◌^◌, Bool, true, false, not, ◌&&◌, ◌||◌, ltb, leb,
  ◌==◌, if◌then◌else◌, Option, none, some, List, [], ◌∷◌, length, drop, bit_and, bit_or,
}
use nekrnl.Drive.{Drive, Device, Error, io_drv_input, file_not_found, file_locked, unimplemented}
use nekrnl.Drive.Layout.{Codec}
use nekrnl.Nefs.Path.{parent_name}

-- A C string: its characters up to the 0.
abbrev pub Name : Type 0
Name = List ℕ

-- `kNeFSRootCatalogStartAddress`, `kNeFSCatalogStartAddress`, `kNeFSSectorSz`,
-- `kNeFSCatalogNameLen`, `kNeFSFlagCreated`, `kNeFSFlagDeleted`, `kNeFSStatusLocked`
abbrev pub root_start : ℕ
root_start = 1024

-- A root block has 512 bytes.
abbrev pub catalog_start : ℕ
catalog_start = root_start + 512

abbrev pub nefs_sector_sz : ℕ
nefs_sector_sz = 512

-- The packed size of `NEFS_CATALOG_STRUCT`.
abbrev pub catalog_sz : ℕ
catalog_sz = 535

abbrev pub catalog_name_len : ℕ
catalog_name_len = 256

abbrev pub flag_created : ℕ
flag_created = 71

abbrev pub flag_deleted : ℕ
flag_deleted = 70

abbrev pub status_locked : ℕ
status_locked = 0x19

abbrev pub kind_file : ℕ
kind_file = 1

abbrev pub kind_dir : ℕ
kind_dir = 2

abbrev pub separator : ℕ
separator = 47

-- `NEFS_CATALOG_STRUCT`, without the fields that nothing reads
pub record Catalog : Type 0 where
  pub name : Name
  pub flags : ℕ
  pub status : ℕ
  pub catalog_flags : ℕ
  pub kind : ℕ
  pub data_fork_size : ℕ
  pub resource_fork_size : ℕ
  pub data_fork : ℕ
  pub resource_fork : ℕ
  pub next_sibling : ℕ
  pub prev_sibling : ℕ
  pub checksum : ℕ

-- `NEFS_FORK_STRUCT`
pub record Fork : Type 0 where
  pub fork_name : Name
  pub catalog_name : Name
  pub flags : ℕ
  pub kind : ℕ
  pub data_offset : ℕ
  pub data_size : ℕ
  pub next_sibling : ℕ
  pub previous_sibling : ℕ

-- `NEFS_ROOT_PARTITION_BLOCK`
pub record Root : Type 0 where
  pub ident : Name
  pub partition_name : Name
  pub flags : ℕ
  pub kind : ℕ
  pub start_catalog : ℕ
  pub catalog_count : ℕ
  pub disk_size : ℕ
  pub free_catalog : ℕ
  pub free_sectors : ℕ
  pub sector_count : ℕ
  pub sector_size : ℕ
  pub version : ℕ
  pub epm_block : ℕ

-- The structures with every field 0.
abbrev pub blank_catalog : Catalog
blank_catalog = record {
  name = [];
  flags = 0;
  status = 0;
  catalog_flags = 0;
  kind = 0;
  data_fork_size = 0;
  resource_fork_size = 0;
  data_fork = 0;
  resource_fork = 0;
  next_sibling = 0;
  prev_sibling = 0;
  checksum = 0;
}

abbrev pub blank_fork : Fork
blank_fork = record {
  fork_name = [];
  catalog_name = [];
  flags = 0;
  kind = 0;
  data_offset = 0;
  data_size = 0;
  next_sibling = 0;
  previous_sibling = 0;
}

abbrev pub blank_root : Root
blank_root = record {
  ident = [];
  partition_name = [];
  flags = 0;
  kind = 0;
  start_catalog = 0;
  catalog_count = 0;
  disk_size = 0;
  free_catalog = 0;
  free_sectors = 0;
  sector_count = 0;
  sector_size = 0;
  version = 0;
  epm_block = 0;
}

-- How the structures lie in the sectors: a root and a fork have 512 bytes, a catalog 535, and a
-- file's bytes fill the front of a sector.
pub record Disk (S : Type 0) : Type 0 where
  pub root : Codec S Root
  pub catalog : Codec S Catalog
  pub fork : Codec S Fork
  pub root_width : root.width ≡ 1
  pub catalog_width : catalog.width ≡ 2
  pub fork_width : fork.width ≡ 1
  pub byte : S → ℕ → ℕ
  pub put_bytes : ℕ → (ℕ → ℕ) → S → S
  pub byte-put_bytes :
      (n i : ℕ) (buf : ℕ → ℕ) (s : S) → i < n → n < 513 → byte (put_bytes n buf s) i ≡ buf i

-- `KStringBuilder::Equals`
unfoldable pub same_name : Name → Name → Bool
same_name [] [] = true
same_name [] (y ∷ ys) = false
same_name (x ∷ xs) [] = false
same_name (x ∷ xs) (y ∷ ys) = let rest = same_name xs ys in x == y && rest

-- `Flags & kNeFSFlagCreated`
unfoldable pub is_created : ℕ → Bool
is_created flags = not (bit_and flags flag_created == 0)

-- `Flags &= (~kNeFSFlagCreated); Flags |= kNeFSFlagDeleted;` of a field of `bits` bits
unfoldable pub mark_deleted : ℕ → ℕ → ℕ
mark_deleted bits flags = bit_or (bit_and flags (2 ^ bits - 1 - flag_created)) flag_deleted

abbrev pub is_empty : Name → Bool
is_empty [] = true
is_empty (c ∷ cs) = false

-- `is_valid_size`
unfoldable pub is_valid_size : ℕ → ℕ → Bool
is_valid_size size max_size = ltb 0 size && leb size max_size

-- `NeFileSystemHelper::Root`
abbrev pub root_name : Name
root_name = separator ∷ []

-- Chains a computation that may run out of fuel: `none` is the missing fuel.
abbrev pub and_then {ℓ κ} : {A : Type ℓ} {B : Type κ} → Option A → (A → Option B) → Option B
and_then none f = none
and_then (some a) f = f a

-- What a search leaves: the catalog that it found, `out_lba`, and the drive.
pub record Lookup (S : Type 0) : Type 0 where
  pub found : Option Catalog
  pub lba : ℕ
  pub drive : Drive S

abbrev pub Search : Type 0 → Type 0
Search S = Option (Lookup S)

abbrev pub missed : {S : Type 0} → ℕ → Drive S → Lookup S
missed out d = record { found = none; lba = out; drive = d }

-- The name that `scan_from` compares: the last characters of the path, as many as the catalog's
-- name has. (For a name longer than the path the program reads memory before the path.)
unfoldable pub matches : Name → Name → Bool
matches path name = same_name name (drop (length path - length name) path)

-- What `scan_from` does with a catalog of the right name.
abbrev pub accept : {S : Type 0} → Bool → ℕ → ℕ → Catalog → Drive S → Lookup S
accept hidden out cursor c d =
    if c.status == status_locked && not hidden
    then missed out (record d { error = file_locked })
    else if not (is_created c.flags)
    then missed out (record d { error = file_not_found })
    else record { found = some c; lba = cursor; drive = d }

module _ {S : Type 0} (dev : Device) (fs : Disk S) where
  -- The loop of `scan_from`; `tmp` is its buffer.
  unfoldable pub scan_from : ℕ → Bool → Name → Root → ℕ → ℕ → Catalog → Drive S → Search S
  scan_from zero hidden path part out cursor tmp d = none
  scan_from (suc fuel) hidden path part out cursor tmp d =
      let (c, d') = io_drv_input dev fs.catalog cursor tmp d in
      let rest = scan_from fuel hidden path part out c.next_sibling c d' in
      if ltb cursor part.start_catalog || not d.good
      then some (missed out d)
      else if matches path c.name
      then some (accept hidden out cursor c d')
      else rest

  -- The last line of `FindCatalog`.
  abbrev pub scan_all : ℕ → Bool → Name → Root → ℕ → Drive S → Search S
  scan_all fuel hidden path part out d =
      scan_from fuel hidden path part out part.start_catalog blank_catalog d

  -- `FindCatalog` without the local search.
  unfoldable pub find_plain : ℕ → Bool → Name → ℕ → Drive S → Search S
  find_plain fuel hidden path out d =
      let (part, d') = io_drv_input dev fs.root root_start blank_root d in
      if is_empty path then some (missed out d) else scan_all fuel hidden path part out d'

  -- The local search: behind the parent, and everywhere when it is not there.
  abbrev pub or_everywhere : ℕ → Bool → Name → Root → Option Catalog → Lookup S → Search S
  or_everywhere fuel hidden path part (some c) r = some r
  or_everywhere fuel hidden path part none r = scan_all fuel hidden path part r.lba r.drive

  abbrev pub behind_parent : ℕ → Bool → Name → Root → Option Catalog → Lookup S → Search S
  behind_parent fuel hidden path part none r = scan_all fuel hidden path part r.lba r.drive
  behind_parent fuel hidden path part (some parent) r =
      and_then (scan_from fuel hidden path part r.lba parent.next_sibling blank_catalog r.drive)
        (λ s. or_everywhere fuel hidden path part s.found s)

  abbrev pub search_parent : ℕ → Bool → Name → Root → Option Name → ℕ → Drive S → Search S
  search_parent fuel hidden path part none out d = some (missed out d)
  search_parent fuel hidden path part (some parent) out d =
      and_then (find_plain fuel hidden parent out d)
        (λ r. behind_parent fuel hidden path part r.found r)

  -- `FindCatalog`: `hidden` is `search_hidden`, `near` is `local_search`.
  unfoldable pub find_catalog : ℕ → Bool → Bool → Name → ℕ → Drive S → Search S
  find_catalog fuel hidden near path out d =
      let (part, d') = io_drv_input dev fs.root root_start blank_root d in
      if is_empty path
      then some (missed out d)
      else if near && not (same_name path root_name)
      then search_parent fuel hidden path part (parent_name path) out d'
      else scan_all fuel hidden path part out d'

  -- `GetCatalog`
  unfoldable pub get_catalog : ℕ → Name → Drive S → Option (Option Catalog × Drive S)
  get_catalog fuel path d =
      and_then (find_catalog fuel true true path 0 d) (λ r. some (r.found, r.drive))

  -- `is_valid_lba`; `part` is what the block on the stack holds before it is read.
  unfoldable pub is_valid_lba : ℕ → Root → Drive S → Bool × Drive S
  is_valid_lba lba junk d =
      let (part, d') = io_drv_input dev fs.root root_start junk d in
      if not d'.good
      then (false, d')
      else (leb part.start_catalog lba && ltb lba (part.disk_size / d'.sector_sz), d')

-- `CloseCatalog`: the pointer is freed and answered for.
unfoldable pub close_catalog : Option Catalog → Bool
close_catalog none = false
close_catalog (some c) = true

-- `Seek` and `Tell`
unfoldable pub seek : {S : Type 0} → Catalog → ℕ → Drive S → Bool × Drive S
seek c off d = (false, record d { error = unimplemented })

unfoldable pub tell : {S : Type 0} → Catalog → Drive S → ℕ × Drive S
tell c d = (0, record d { error = unimplemented })
