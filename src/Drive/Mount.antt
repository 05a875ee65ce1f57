-- ===== src/Drive/Mount.antt =====
-- `IMountpoint` of private/minkernel/KernelKit/DriveMgr.h and private/minkernel/src/IFS.cpp.
use nekrnl.Prelude.{
  ℕ, ◌<◌, ◌≡◌, ◌≢◌, refl, true, false, ◌==◌, if◌then◌else◌, Option, none, some, Bool-cases,
  Option-cases, inl, inr, arith,
}
use nekrnl.Drive.{Drive, Device, Error, success, disk, io_drv_input, io_drv_output}
use nekrnl.Drive.Layout.{Codec}

-- `IMountpoint::GetAddressOf`: the letter of the drive, or no such disk.
pub data Letter : Type 0 where
  a b c d : Letter

unfoldable pub address_of : ℕ → Option Letter
address_of index =
    if index == 0
    then some a
    else if index == 1
    then some b
    else if index == 2
    then some c
    else if index == 3
    then some d
    else none

pub address_of-valid : (index : ℕ) → index < 4 → address_of index ≢ none
unfolding address_of
address_of-valid index small = ground arith

-- The `switch` on the drive's index: the drive whose `fInput` or `fOutput` is called.
abbrev pub clear_good : {S : Type 0} → Drive S → Drive S
clear_good t = record t { good = false }

abbrev pub status : {S : Type 0} → Drive S → Error
status t = if t.good then success else disk

module _ {S : Type 0} where
  abbrev pub read_letter :
      {A : Type 0}
      → Option Letter
      → (Letter → Drive S → A × Drive S)
      → A
      → Drive S
      → Error × (A × Drive S)
  read_letter none input old t = (disk, (old, t))
  read_letter (some letter) input old t =
      let (content, t') = input letter (clear_good t) in (status t', (content, t'))

  -- `fs_ifs_read`: `input` is `fInput` of each of the four drives, `none` a null mount point.
  unfoldable pub fs_ifs_read :
      {A : Type 0}
      → Option (Letter → Drive S → A × Drive S)
      → ℕ
      → A
      → Drive S
      → Error × (A × Drive S)
  fs_ifs_read none index old t = (disk, (old, t))
  fs_ifs_read (some input) index old t = read_letter (address_of index) input old t

  abbrev pub write_letter : Option Letter → (Letter → Drive S → Drive S) → Drive S → Error × Drive S
  write_letter none output t = (disk, t)
  write_letter (some letter) output t =
      if t.good
      then (status (output letter (clear_good t)), output letter (clear_good t))
      else (disk, t)

  -- `fs_ifs_write`: `output` is `fOutput` of each of the four drives.
  unfoldable pub fs_ifs_write : Option (Letter → Drive S → Drive S) → ℕ → Drive S → Error × Drive S
  fs_ifs_write none index t = (disk, t)
  fs_ifs_write (some output) index t = write_letter (address_of index) output t

  module _ {A : Type 0} (dev : Device) (c : Codec S A) where
    -- The transfers only ever clear the packet's state.
    pub io_drv_input-good :
        (lba : ℕ) (old : A) (t : Drive S)
        → t.good ≡ false
        → (io_drv_input dev c lba old t).1.good ≡ false
    unfolding io_drv_input
    io_drv_input-good lba old t h = elim (Bool-cases (dev.reads lba)) [
      | inl e ↦ rw e h
      | inr e ↦ rw e refl
    ]

    pub io_drv_output-good :
        (lba : ℕ) (put : (ℕ → S) → ℕ → S) (t : Drive S)
        → t.good ≡ false
        → (io_drv_output dev lba put t).good ≡ false
    unfolding io_drv_output
    io_drv_output-good lba put t h = elim (Bool-cases t.read_only) [
      | inl e ↦ rw e refl
      | inr e ↦ elim (Bool-cases (lba == 0)) [
        | inl z ↦ rw (e, z) refl
        | inr n ↦ elim (Bool-cases (dev.writes lba)) [
          | inl w ↦ rw (e, n, w) h
          | inr w ↦ rw (e, n, w) refl
        ]
      ]
    ]

    -- What the two calls do with a drive for which every transfer succeeds.
    pub io_drv_input_ready :
        (lba : ℕ) (old : A) (t : Drive S)
        → dev.reads lba ≡ true
        → io_drv_input dev c lba old t ≡ (c.load t.sectors lba, record t { error = success })
    unfolding io_drv_input
    io_drv_input_ready lba old t h = rw h refl

    pub io_drv_output_ready :
        (lba : ℕ) (put : (ℕ → S) → ℕ → S) (t : Drive S)
        → dev.writes lba ≡ true
        → t.read_only ≡ false
        → (lba == 0) ≡ false
        → io_drv_output dev lba put t ≡ record t { error = success; sectors = put t.sectors }
    unfolding io_drv_output
    io_drv_output_ready lba put t h ro nz = rw (ro, nz, h) refl

    -- For the drives of this kernel, `fs_ifs_read` reports a disk error at every index, whatever
    -- the hardware answers, and an index that names a drive leaves its packet bad.
    pub fs_ifs_read_fails :
        (index lba : ℕ) (old : A) (t : Drive S)
        → ((fs_ifs_read (some (λ letter. io_drv_input dev c lba old)) index old t).0 ≡ disk)
          × (index < 4
              → (fs_ifs_read (some (λ letter. io_drv_input dev c lba old)) index old t).1.1.good
                ≡ false)
    unfolding fs_ifs_read
    fs_ifs_read_fails index lba old t =
        let bad = io_drv_input-good lba old (clear_good t) refl in
        elim (Option-cases (address_of index)) [
          | inl e ↦ rw e (refl, λ small. absurd (address_of-valid index small e))
          | inr (letter, e) ↦ rw (e, bad) (refl, λ small. refl)
        ]

    -- `fs_ifs_write` reports a disk error as well, also when index, packet and hardware are in
    -- order and it has written the block.
    pub fs_ifs_write_fails :
        (index lba : ℕ) (v : A) (t : Drive S)
        → index < 4
        → t.good ≡ true
        → t.read_only ≡ false
        → (lba == 0) ≡ false
        → dev.writes lba ≡ true
        → ((fs_ifs_write (some (λ letter. io_drv_output dev lba (c.save v lba))) index t).0 ≡ disk)
          × (c.load
                (fs_ifs_write
                  (some (λ letter. io_drv_output dev lba (c.save v lba)))
                  index
                  t).1.sectors
                lba
              ≡ v)
    unfolding fs_ifs_write
    fs_ifs_write_fails index lba v t small good ro nz ok =
        let written = io_drv_output_ready lba (c.save v lba) (clear_good t) ok ro nz in
        elim (Option-cases (address_of index)) [
          | inl e ↦ absurd (address_of-valid index small e)
          | inr (letter, e) ↦ rw (e, good, written) (refl, c.load-save v lba t.sectors)
        ]
