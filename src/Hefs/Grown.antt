-- ===== src/Hefs/Grown.antt =====
-- The sectors of a volume to which `hefsi_update_in_status` of
-- private/minkernel/src/FS/OpenHeFS+FileSystemParser.cpp has added an inode.
use nekrnl.Prelude.{ℕ, ◌+◌, ◌≤◌, ◌<◌, ◌≡◌, inl, inr, refl, ◌∙◌, true, false, ◌==◌, arith, ◌^◌}
use nekrnl.Drive.{Drive, Device, success}
use nekrnl.Drive.Mount.{io_drv_output_ready}
use nekrnl.Hefs.{Boot, Directory, Inode, Volume, node_sz}
use nekrnl.Hefs.Update.{filed, made, advanced, add_inode}
use nekrnl.Hefs.Region.{
  IsUsable, directory_at, inode_at, directory-save_directory, directory-save_inode,
  directory-save_boot, inode-save_inode, inode-save_directory, inode-save_boot,
}

not_zero : (n : ℕ) → 0 < n → (n == 0) ≡ false
not_zero n h = ground arith

-- The regions of the volume follow each other, and there is room for an inode.
pub record IsLaidOut (boot : Boot) (start : ℕ) : Type 0 where
  pub not_first : 0 < start
  pub boot_below : start + 2 ≤ boot.start_ind
  pub directories : boot.start_ind ≤ boot.end_ind
  pub inodes_behind : boot.end_ind ≤ boot.start_in
  pub room : boot.start_in + node_sz ≤ boot.end_in
  pub blocks : boot.start_block ≤ boot.end_block
  pub small : boot.end_ind < 2 ^ 64
  pub small_inodes : boot.end_in < 2 ^ 64

module _ {S : Type 0} (dev : Device) (vol : Volume S) where
  abbrev pub grown : Boot → Inode → ℕ → Directory → ℕ → ℕ → (ℕ → S) → ℕ → S
  grown boot node start x index first m = vol.boot.save (advanced dev vol boot) first (
      vol.inode.save (made dev vol boot node) boot.start_in
        (vol.directory.save (filed dev vol boot x index) start m))

  pub add_inode_ready :
      (boot : Boot) (node : Inode) (start : ℕ) (x : Directory) (index : ℕ) (d : Drive S)
      → IsUsable dev vol d
      → 0 < d.lba_start
      → 0 < start
      → 0 < boot.start_in
      → (add_inode dev vol boot node start x index d).drive ≡ record d {
        error = success;
        sectors = grown boot node start x index d.lba_start d.sectors;
      }
  unfolding add_inode
  add_inode_ready boot node start x index d w first place room =
      let put_dir = vol.directory.save (filed dev vol boot x index) start in
      let put_inode = vol.inode.save (made dev vol boot node) boot.start_in in
      let d₁ = record d { error = success; sectors = put_dir d.sectors } in
      let d₂ = record d { error = success; sectors = put_inode (put_dir d.sectors) } in
      rw
        (
          io_drv_output_ready dev vol.directory start put_dir d (w.writes_ok start) w.unlocked
              (not_zero start place),
          io_drv_output_ready dev vol.inode boot.start_in put_inode d₁ (w.writes_ok boot.start_in)
              w.unlocked (not_zero boot.start_in room),
          io_drv_output_ready dev vol.boot d.lba_start
              (vol.boot.save (advanced dev vol boot) d.lba_start) d₂ (w.writes_ok d.lba_start)
              w.unlocked (not_zero d.lba_start first),
        )
        refl

  pub add_inode-done :
      (boot : Boot) (node : Inode) (start : ℕ) (x : Directory) (index : ℕ) (d : Drive S)
      → (add_inode dev vol boot node start x index d).done ≡ true
  unfolding add_inode
  add_inode-done boot node start x index d = refl

  pub grown_directory :
      (boot : Boot) (node : Inode) (at : ℕ) (x : Directory) (index first : ℕ) (m : ℕ → S)
      → IsLaidOut boot first
      → boot.start_ind ≤ at
      → at < boot.end_ind
      → directory_at dev vol (grown boot node at x index first m) at ≡ filed dev vol boot x index
  grown_directory boot node at x index first m l low high =
      let a = l.boot_below in
      let b = l.inodes_behind in
      directory-save_boot dev vol (advanced dev vol boot) first at _ (omega arith)
      ∙ directory-save_inode dev vol (made dev vol boot node) boot.start_in at _ (inl (omega arith))
      ∙ vol.directory.load-save (filed dev vol boot x index) at m

  pub grown_before :
      (boot : Boot) (node : Inode) (at : ℕ) (x : Directory) (index first y : ℕ) (m : ℕ → S)
      → IsLaidOut boot first
      → boot.start_ind ≤ y
      → y < at
      → at < boot.end_ind
      → directory_at dev vol (grown boot node at x index first m) y ≡ directory_at dev vol m y
  grown_before boot node at x index first y m l low behind high =
      let a = l.boot_below in
      let b = l.inodes_behind in
      directory-save_boot dev vol (advanced dev vol boot) first y _ (omega arith)
      ∙ directory-save_inode dev vol (made dev vol boot node) boot.start_in y _ (inl (omega arith))
      ∙ directory-save_directory dev vol (filed dev vol boot x index) at y m (inl behind)

  pub grown_inode :
      (boot : Boot) (node : Inode) (at : ℕ) (x : Directory) (index first : ℕ) (m : ℕ → S)
      → IsLaidOut boot first
      → inode_at dev vol (grown boot node at x index first m) boot.start_in ≡ made dev vol boot node
  grown_inode boot node at x index first m l =
      let a = l.boot_below in
      let b = l.inodes_behind in
      let c = l.directories in
      inode-save_boot dev vol (advanced dev vol boot) first boot.start_in _ (omega arith)
      ∙ vol.inode.load-save (made dev vol boot node) boot.start_in _

  pub grown_other_inode :
      (boot : Boot) (node : Inode) (at : ℕ) (x : Directory) (index first z : ℕ) (m : ℕ → S)
      → IsLaidOut boot first
      → at < boot.end_ind
      → boot.end_ind ≤ z
      → z < boot.start_in
      → inode_at dev vol (grown boot node at x index first m) z ≡ inode_at dev vol m z
  grown_other_inode boot node at x index first z m l high low room =
      let a = l.boot_below in
      let c = l.directories in
      inode-save_boot dev vol (advanced dev vol boot) first z _ (omega arith)
      ∙ inode-save_inode dev vol (made dev vol boot node) boot.start_in z _ (inl room)
      ∙ inode-save_directory dev vol (filed dev vol boot x index) at z m (inr (omega arith))
