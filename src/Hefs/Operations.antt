-- ===== src/Hefs/Operations.antt =====
-- The operations of `HeFileSystemParser` on inodes, of
-- private/minkernel/src/FS/OpenHeFS+FileSystemParser.cpp.
use nekrnl.Prelude.{
  ℕ, ◌+◌, ◌*◌, ◌^◌, Bool, true, false, not, ◌||◌, ltb, ◌==◌, if◌then◌else◌, Option, none, some, [],
  ◌∷◌, length, bit_and,
}
use nekrnl.Drive.{
  Drive, Device, success, file_not_found, disk, invalid_data, directory_not_found, io_drv_input,
  io_drv_output,
}
use nekrnl.Drive.Layout.{Codec}
use nekrnl.Nefs.{Name, same_name, and_then}
use nekrnl.Hefs.{Boot, Inode, Directory, Volume, is_hefs, file_name_len, fetch_in}
use nekrnl.Hefs.Hash.{hash_64}
use nekrnl.Hefs.Tree.{balance_ind}
use nekrnl.Hefs.Update.{Updated, update_in_status}

abbrev pub too_long : Name → Bool
too_long name = ltb file_name_len (length name)

-- `kOpenHeFSSearchAllStr`
abbrev pub search_all : Name
search_all = 42 ∷ []

-- `kOpenHeFSFlagsReadOnly`
abbrev pub flags_read_only : ℕ
flags_read_only = 0x100

pub has_separator : Name → Bool
has_separator [] = false
has_separator (c ∷ name) = let rest = has_separator name in c == 47 || rest

-- The node that is created or marked as deleted.
abbrev pub new_node : Bool → ℕ → ℕ → Name → Inode
new_node deletes flags kind name = record {
  hash_path = hash_64 name;
  flags = flags;
  kind = kind;
  size = 0;
  checksum = 0;
  created = if deletes then 0 else 1;
  deleted = if deletes then 1 else 0;
  offset_low = 0;
  offset_high = 0;
}

-- What the buffers in memory hold before they are read.
pub record Junk : Type 0 where
  pub boot : Boot
  pub directory : Directory

module _ {S : Type 0} (dev : Device) (vol : Volume S) where
  abbrev pub exists_of : Option (Option Inode × Drive S) → Option (Bool × Drive S)
  exists_of none = none
  exists_of (some (none, d)) = some (false, record d { error = file_not_found })
  exists_of (some (some n, d)) = some (true, record d { error = success })

  -- `INodeExists`
  unfoldable pub inode_exists : ℕ → Name → Name → ℕ → Junk → Drive S → Option (Bool × Drive S)
  inode_exists fuel dir name kind junk d =
      let (boot, d₁) = io_drv_input dev vol.boot d.lba_start junk.boot d in
      if too_long dir || too_long name
      then some (false, d)
      else if not (is_hefs boot)
      then some (false, record d₁ { error = disk })
      else exists_of (fetch_in dev vol fuel boot dir name kind junk.directory d₁)

  -- The block of a file that was found.
  abbrev pub block_lba : Inode → ℕ
  block_lba n = n.offset_high * 2 ^ 32 + n.offset_low

  abbrev pub move_block :
      {B : Type 0} → Codec S B → Bool → B → Inode → Drive S → Bool × (B × Drive S)
  move_block c is_input block n d =
      let (read, d') = io_drv_input dev c (block_lba n) block d in
      if n.offset_low == 0 || n.hash_path == 0
      then (true, (block, d))
      else if is_input
      then (true, (read, d'))
      else if not (bit_and n.flags flags_read_only == 0)
      then (false, (block, d))
      else (true, (block, io_drv_output dev (block_lba n) (c.save block (block_lba n)) d))

  abbrev pub manip_found :
      {B : Type 0} → Codec S B → Bool → B → Option Inode → Drive S → Bool × (B × Drive S)
  manip_found c is_input block none d = (false, (block, record d { error = file_not_found }))
  manip_found c is_input block (some n) d = move_block c is_input block n d

  -- `INodeManip`; `block` is the caller's block, which a read replaces.
  unfoldable pub inode_manip :
      {B : Type 0}
      → ℕ
      → Codec S B
      → B
      → Name
      → Name
      → ℕ
      → Bool
      → Junk
      → Drive S
      → Option (Bool × (B × Drive S))
  inode_manip fuel c block dir name kind is_input junk d =
      let (boot, d₁) = io_drv_input dev vol.boot d.lba_start junk.boot d in
      if too_long dir || too_long name
      then some (false, (block, record d { error = disk }))
      else if not (is_hefs boot)
      then some (false, (block, record d₁ { error = disk }))
      else and_then (fetch_in dev vol fuel boot dir name kind junk.directory d₁)
          (λ (n, d₂). some (manip_found c is_input block n d₂))

  -- The end of `INodeCtlManip`.
  abbrev pub finish_manip : ℕ → Junk → Updated S → Option (Bool × Drive S)
  finish_manip fuel junk r =
      if r.done
      then and_then (balance_ind dev vol fuel r.boot junk.directory r.drive)
          (λ (ok, d). some (true, record d { error = success }))
      else some (false, record r.drive { error = directory_not_found })

  -- `INodeCtlManip`, which is `DeleteINode` with `deletes` and `CreateINode` without
  unfoldable pub inode_ctl_manip :
      ℕ → ℕ → Name → Name → Bool → ℕ → Junk → Drive S → Option (Bool × Drive S)
  inode_ctl_manip fuel flags dir name deletes kind junk d =
      let (boot, d₁) = io_drv_input dev vol.boot d.lba_start junk.boot d in
      if too_long name || too_long dir
      then some (false, record d { error = disk })
      else if not (is_hefs boot)
      then some (true, record d₁ { error = disk })
      else if same_name dir search_all
      then some (false, record d₁ { error = invalid_data })
      else if has_separator name
      then some (false, record d₁ { error = invalid_data })
      else and_then
          (update_in_status dev vol fuel deletes boot dir (new_node deletes flags kind name)
            junk.directory d₁)
          (λ r. finish_manip fuel junk r)

  unfoldable pub create_inode : ℕ → ℕ → Name → Name → ℕ → Junk → Drive S → Option (Bool × Drive S)
  create_inode fuel flags dir name kind junk d =
      inode_ctl_manip fuel flags dir name false kind junk d

  unfoldable pub delete_inode : ℕ → ℕ → Name → Name → ℕ → Junk → Drive S → Option (Bool × Drive S)
  delete_inode fuel flags dir name kind junk d =
      inode_ctl_manip fuel flags dir name true kind junk d
