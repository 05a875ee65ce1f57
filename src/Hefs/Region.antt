-- ===== src/Hefs/Region.antt =====
-- The directory nodes and their slices on the disk, as
-- private/minkernel/src/FS/OpenHeFS+FileSystemParser.cpp walks them.
use nekrnl.Prelude.{
  ℕ, zero, suc, ◌+◌, ◌≤◌, ◌<◌, ◌≡◌, ◌⊎◌, inl, inr, true, false, ◌&&◌, ◌==◌, List, ◌∷◌, arith,
}
use nekrnl.Drive.{Drive, Device}
use nekrnl.Drive.Layout.{load-save-Apart}
use nekrnl.Hefs.{Boot, Directory, Inode, Volume, node_sz}

module _ {S : Type 0} (dev : Device) (vol : Volume S) where
  -- Every transfer succeeds, and the drive can be written.
  pub record IsUsable (d : Drive S) : Type 0 where
    pub reads_ok : (lba : ℕ) → dev.reads lba ≡ true
    pub writes_ok : (lba : ℕ) → dev.writes lba ≡ true
    pub unlocked : d.read_only ≡ false

  abbrev pub directory_at : (ℕ → S) → ℕ → Directory
  directory_at m lba = vol.directory.load m lba

  abbrev pub inode_at : (ℕ → S) → ℕ → Inode
  inode_at m lba = vol.inode.load m lba

  -- From `cursor` on, in the sectors `m`, the first directory of the hash is at `at`, `k` nodes
  -- away; no node before it is blank, and all lie below `end`.
  pub data Directories (m : ℕ → S) (hash end : ℕ) : ℕ → ℕ → ℕ → Type 0 where
    found :
        {at : ℕ}
        → at < end
        → (hash == (directory_at m at).hash_path) ≡ true
        → Directories m hash end zero at at
    past :
        {k cursor at : ℕ}
        → cursor + node_sz < end
        → (hash == (directory_at m cursor).hash_path) ≡ false
        → ((directory_at m cursor).hash_path == 0) ≡ false
        → Directories m hash end k (cursor + node_sz) at
        → Directories m hash end (suc k) cursor at

  -- The first free slice is the one at `index`; those before it are inodes between `low` and
  -- `high`, of another hash or kind.
  pub data Slices (m : ℕ → S) (hash kind low high : ℕ) : List ℕ → ℕ → Type 0 where
    free : {slices : List ℕ} → Slices m hash kind low high (0 ∷ slices) zero
    used :
        {lba index : ℕ} {slices : List ℕ}
        → (lba == 0) ≡ false
        → low ≤ lba
        → lba < high
        → ((inode_at m lba).hash_path == hash && (inode_at m lba).kind == kind) ≡ false
        → Slices m hash kind low high slices index
        → Slices m hash kind low high (lba ∷ slices) (suc index)

  -- Writes of one node do not change the others.
  pub directory-save_directory :
      (x : Directory) (lba at : ℕ) (m : ℕ → S)
      → (at < lba) ⊎ (lba < at)
      → directory_at (vol.directory.save x lba m) at ≡ directory_at m at
  directory-save_directory x lba at m h =
      load-save-Apart vol.directory vol.directory x lba at m
        (rw vol.directory_width (elim h [ inl e ↦ inr (omega arith) | inr e ↦ inl (omega arith) ]))

  pub directory-save_inode :
      (n : Inode) (lba at : ℕ) (m : ℕ → S)
      → (at < lba) ⊎ (lba < at)
      → directory_at (vol.inode.save n lba m) at ≡ directory_at m at
  directory-save_inode n lba at m h = load-save-Apart vol.inode vol.directory n lba at m (
      rw (vol.directory_width, vol.inode_width)
        (elim h [ inl e ↦ inr (omega arith) | inr e ↦ inl (omega arith) ]))

  pub inode-save_inode :
      (n : Inode) (lba at : ℕ) (m : ℕ → S)
      → (at < lba) ⊎ (lba < at)
      → inode_at (vol.inode.save n lba m) at ≡ inode_at m at
  inode-save_inode n lba at m h =
      load-save-Apart vol.inode vol.inode n lba at m
        (rw vol.inode_width (elim h [ inl e ↦ inr (omega arith) | inr e ↦ inl (omega arith) ]))

  pub inode-save_directory :
      (x : Directory) (lba at : ℕ) (m : ℕ → S)
      → (at < lba) ⊎ (lba < at)
      → inode_at (vol.directory.save x lba m) at ≡ inode_at m at
  inode-save_directory x lba at m h = load-save-Apart vol.directory vol.inode x lba at m (
      rw (vol.directory_width, vol.inode_width)
        (elim h [ inl e ↦ inr (omega arith) | inr e ↦ inl (omega arith) ]))

  -- The boot node lies below them.
  pub directory-save_boot :
      (b : Boot) (lba at : ℕ) (m : ℕ → S)
      → lba + 2 ≤ at
      → directory_at (vol.boot.save b lba m) at ≡ directory_at m at
  directory-save_boot b lba at m h =
      load-save-Apart vol.boot vol.directory b lba at m
        (rw (vol.directory_width, vol.boot_width) (inl h))

  pub inode-save_boot :
      (b : Boot) (lba at : ℕ) (m : ℕ → S)
      → lba + 2 ≤ at
      → inode_at (vol.boot.save b lba m) at ≡ inode_at m at
  inode-save_boot b lba at m h =
      load-save-Apart vol.boot vol.inode b lba at m (rw (vol.inode_width, vol.boot_width) (inl h))
