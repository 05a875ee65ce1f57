-- ===== src/Nefs/Forks.antt =====
-- Forks: `CreateFork`, `FindFork`, `WriteCatalog` and `ReadCatalog` of
-- private/minkernel/src/FS/NeFS+FileSystemParser.cpp.
use nekrnl.Prelude.{
  ℕ, zero, suc, ◌+◌, ◌-◌, ◌/◌, Bool, true, false, not, ◌&&◌, ◌||◌, ltb, leb, ◌==◌, if◌then◌else◌,
  Option, none, some, bit_or,
}
use nekrnl.Drive.{Drive, Device, is_success, invalid_data, io_drv_input, io_drv_output}
use nekrnl.Drive.Mount.{fs_ifs_read, fs_ifs_write}
use nekrnl.Nefs.{
  Name, Catalog, Fork, Root, Disk, blank_fork, root_start, catalog_start, nefs_sector_sz,
  flag_created, same_name, is_created, is_empty, is_valid_size, is_valid_lba, and_then, get_catalog,
}

-- The fork that is written at `lba`, behind the one at `before`.
abbrev pub linked : ℕ → ℕ → Fork → Fork
linked lba before f = record f {
  data_offset = lba + 1;
  previous_sibling = before;
  next_sibling = lba + 1 + (f.data_size + nefs_sector_sz - 1) / nefs_sector_sz;
  flags = bit_or f.flags flag_created;
}

-- The two names that tell a fork.
abbrev pub is_fork : Name → Name → Fork → Bool
is_fork fork_name catalog_name f =
    same_name f.fork_name fork_name && same_name f.catalog_name catalog_name

-- `buf + offset`
abbrev pub from_offset : (ℕ → ℕ) → ℕ → ℕ → ℕ
from_offset buf offset i = buf (offset + i)

abbrev pub put_at : {S : Type 0} → ℕ → (S → S) → (ℕ → S) → ℕ → S
put_at lba put m i = if i == lba then put (m i) else m i

abbrev pub first_fork : Bool → Catalog → ℕ
first_fork is_rsrc c = if is_rsrc then c.resource_fork else c.data_fork

abbrev pub fork_size : Bool → Catalog → ℕ
fork_size is_rsrc c = if is_rsrc then c.resource_fork_size else c.data_fork_size

module _ {S : Type 0} (dev : Device) (fs : Disk S) where
  abbrev pub write_fork_at : ℕ → Fork → Drive S → Drive S
  write_fork_at lba f d = io_drv_output dev lba (fs.fork.save f lba) d

  -- The end of `CreateFork`: the fork is written twice, the second time by `fs_ifs_write`.
  unfoldable pub add_fork : ℕ → ℕ → Fork → Drive S → Bool × Drive S
  add_fork lba before f d =
      let f' = linked lba before f in
      let (code, d') =
        fs_ifs_write (some (λ letter. write_fork_at lba f')) 0 (write_fork_at lba f' d) in
      (true, d')

  -- The first place that is not taken: the fork before it is made to point to it.
  abbrev pub append_fork : ℕ → ℕ → Fork → Fork → Drive S → Bool × Drive S
  append_fork lba before prev f d =
      if leb catalog_start lba
      then add_fork lba before f (write_fork_at before (record prev { next_sibling = lba }) d)
      else add_fork lba before f d

  -- The loop of `CreateFork`; `cur` is its buffer, `prev` the fork before.
  unfoldable pub create_fork_from :
      ℕ → ℕ → ℕ → Fork → Fork → Fork → Drive S → Option (Bool × Drive S)
  create_fork_from zero lba before prev cur f d = none
  create_fork_from (suc fuel) lba before prev cur f d =
      let (c, d') = io_drv_input dev fs.fork lba cur d in
      let rest = create_fork_from fuel c.next_sibling lba c c f d' in
      if not d'.good
      then some (false, d')
      else if is_created c.flags
      then if is_fork f.fork_name f.catalog_name c then some (add_fork lba before f d') else rest
      else some (append_fork lba before prev f d')

  abbrev pub create_fork_in : ℕ → Fork → Option Catalog → Drive S → Option (Bool × Drive S)
  create_fork_in fuel f none d = some (false, d)
  create_fork_in fuel f (some c) d =
      if ltb c.data_fork catalog_start
      then some (false, d)
      else create_fork_from fuel c.data_fork c.data_fork blank_fork blank_fork f d

  -- `CreateFork`
  unfoldable pub create_fork : ℕ → Fork → Drive S → Option (Bool × Drive S)
  create_fork fuel f d =
      if is_empty f.fork_name || is_empty f.catalog_name || f.data_size == 0
      then some (false, d)
      else and_then (get_catalog dev fs fuel f.catalog_name d)
          (λ (c, d'). create_fork_in fuel f c d')

  -- The loop of `FindFork`; `index` is the parser's drive.
  unfoldable pub find_fork_from :
      ℕ → ℕ → Catalog → Name → ℕ → Fork → Drive S → Option (Option Fork × Drive S)
  find_fork_from zero index c name lba buf d = none
  find_fork_from (suc fuel) index c name lba buf d =
      let (code, (f, d')) =
        fs_ifs_read (some (λ letter. io_drv_input dev fs.fork lba buf)) index buf d in
      let rest = find_fork_from fuel index c name f.next_sibling f d' in
      if ltb lba catalog_start
      then some (none, d)
      else if not (is_success code)
      then some (none, d')
      else if is_fork name c.name f
      then some (some f, d')
      else rest

  -- `FindFork`
  unfoldable pub find_fork :
      ℕ → ℕ → Option Catalog → Name → Bool → Drive S → Option (Option Fork × Drive S)
  find_fork fuel index none name is_data d = some (none, d)
  find_fork fuel index (some c) name is_data d =
      find_fork_from fuel index c name (first_fork (not is_data) c) blank_fork d

  -- The loop of `WriteCatalog` over the bytes.
  unfoldable pub write_chunks : ℕ → (ℕ → ℕ) → ℕ → ℕ → ℕ → Drive S → Option (Drive S)
  write_chunks zero buf base left offset d = if left == 0 then some d else none
  write_chunks (suc fuel) buf base left offset d =
      let chunk = if ltb nefs_sector_sz left then nefs_sector_sz else left in
      let lba = base + offset / nefs_sector_sz in
      let rest =
        write_chunks fuel buf base (left - chunk) (offset + chunk)
          (io_drv_output dev lba (put_at lba (fs.put_bytes chunk (from_offset buf offset))) d) in
      if left == 0 then some d else rest

  abbrev pub is_target : Name → Name → ℕ → Fork → Bool
  is_target fork_name catalog_name size f =
      is_created f.flags && is_fork fork_name catalog_name f && f.data_size == size

  -- The loop of `WriteCatalog` over the forks.
  unfoldable pub write_from :
      ℕ → (ℕ → ℕ) → ℕ → Name → Name → Root → ℕ → Fork → Drive S → Option (Bool × Drive S)
  write_from zero buf size fork_name catalog_name part lba cur d = none
  write_from (suc fuel) buf size fork_name catalog_name part lba cur d =
      let (f, d') = io_drv_input dev fs.fork lba cur d in
      let rest = write_from fuel buf size fork_name catalog_name part f.next_sibling f d' in
      if ltb lba part.start_catalog || not d.good
      then some (false, d)
      else if not d'.good
      then some (false, d')
      else if is_target fork_name catalog_name size f
      then and_then (write_chunks fuel buf f.data_offset size 0 d') (λ d''. some (true, d''))
      else rest

  abbrev pub write_in :
      ℕ
      → Bool
      → (ℕ → ℕ)
      → ℕ
      → Name
      → Name
      → Root
      → Option Catalog
      → Drive S
      → Option (Bool × Drive S)
  write_in fuel is_rsrc buf size fork_name catalog_name junk none d = some (false, d)
  write_in fuel is_rsrc buf size fork_name catalog_name junk (some c) d =
      let (valid, d₁) = is_valid_lba dev fs (first_fork is_rsrc c) junk d in
      let (part, d₂) = io_drv_input dev fs.root root_start junk d₁ in
      if not (is_valid_size size (fork_size is_rsrc c))
      then some (false, d)
      else if not valid
      then some (false, d₁)
      else write_from fuel buf size fork_name catalog_name part (first_fork is_rsrc c) blank_fork d₂

  -- `WriteCatalog`; `junk` is what the partition blocks on the stack hold before they are read.
  unfoldable pub write_catalog :
      ℕ → Name → Bool → (ℕ → ℕ) → ℕ → Name → Root → Drive S → Option (Bool × Drive S)
  write_catalog fuel catalog_name is_rsrc content size fork_name junk d =
      if ltb size 1
      then some (false, d)
      else and_then (get_catalog dev fs fuel catalog_name d)
          (λ (c, d'). write_in fuel is_rsrc content size fork_name catalog_name junk c d')

  -- The loop of `ReadCatalog`; it does not look at the state of the packet.
  unfoldable pub read_from :
      ℕ → Catalog → Name → ℕ → Fork → Drive S → Option (Option Fork × Drive S)
  read_from zero c fork_name lba cur d = none
  read_from (suc fuel) c fork_name lba cur d =
      let (f, d') = io_drv_input dev fs.fork lba cur d in
      let rest = read_from fuel c fork_name f.next_sibling f d' in
      if ltb lba catalog_start
      then some (none, d)
      else if is_fork fork_name c.name f
      then some (some f, d')
      else rest

  -- `ReadCatalog`
  unfoldable pub read_catalog :
      ℕ → Option Catalog → Bool → ℕ → Name → Root → Drive S → Option (Option Fork × Drive S)
  read_catalog fuel none is_rsrc size fork_name junk d =
      some (none, record d { error = invalid_data })
  read_catalog fuel (some c) is_rsrc size fork_name junk d =
      let (valid, d') = is_valid_lba dev fs (first_fork is_rsrc c) junk d in
      if not (is_valid_size size (fork_size is_rsrc c))
      then some (none, d)
      else if not valid
      then some (none, d')
      else read_from fuel c fork_name (first_fork is_rsrc c) blank_fork d'
