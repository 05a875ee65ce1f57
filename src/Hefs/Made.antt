-- ===== src/Hefs/Made.antt =====
-- An inode that `hefsi_update_in_status` of private/minkernel/src/FS/OpenHeFS+FileSystemParser.cpp
-- creates, and `hefsi_fetch_in`.
use nekrnl.Prelude.{
  ℕ, ◌+◌, ◌≤◌, ◌<◌, ◌≡◌, refl, ap, ◌∙◌, true, false, ◌&&◌, ltb, ◌==◌, add64, ◌^◌, some, arith,
  ==_iff,
}
use nekrnl.Drive.{Drive, Device, success}
use nekrnl.Nefs.{Name}
use nekrnl.Hefs.{Boot, Directory, Inode, Volume, node_sz, blank_inode, fetch_from, fetch_in}
use nekrnl.Hefs.Hash.{hash_64}
use nekrnl.Hefs.Update.{Updated, filed, made, advanced, add_inode, update_in_status}
use nekrnl.Hefs.Grown.{
  IsLaidOut, grown, add_inode_ready, grown_directory, grown_before, grown_inode, grown_other_inode,
}
use nekrnl.Hefs.Passes.{directories_le, fetch_slices-made, update_from-add_inode, fetch_from-made}
use nekrnl.Hefs.Region.{IsUsable, directory_at, inode_at, Directories, Slices}

not_below : (a b : ℕ) → a ≤ b → ltb b a ≡ false
not_below a b h = ground arith

room_left : {a b : ℕ} → a + node_sz ≤ b → a ≤ b
room_left h = omega arith

still_room : (a b : ℕ) → a + node_sz ≤ b → b < 2 ^ 64 → add64 a node_sz ≤ b
still_room a b h small = omega arith

both : (a b kind : ℕ) → a ≡ b → (a == b && kind == kind) ≡ true
both a b kind e = rw ((==_iff a b).1 e, (==_iff kind kind).1 refl) refl

module _ {S : Type 0} (dev : Device) (vol : Volume S) where
  -- What `hefsi_update_in_status` creates, `hefsi_fetch_in` finds: on a volume whose regions follow
  -- each other and have room, when the directory's hash is not 0, the directory lies in the region
  -- with no blank node before it and has a free slice, the slices before that one lead to inodes
  -- between the directories and the place of the new one, none of them with the file's hash and
  -- kind, the creation succeeds, and the search with the boot node that it leaves answers with the inode.
  -- Every transfer succeeds, and the fuel is more than the directories before it.
  pub update_in_status-fetch_in :
      (fuel k index at : ℕ) (boot : Boot) (dir_name file_name : Name) (node : Inode)
      (junk junk' : Directory) (d : Drive S)
      → IsUsable dev vol d
      → IsLaidOut boot d.lba_start
      → (hash_64 dir_name == 0) ≡ false
      → Directories dev vol d.sectors (hash_64 dir_name) boot.end_ind k boot.start_ind at
      → Slices dev vol d.sectors
          (hash_64 file_name)
          node.kind
          boot.end_ind
          boot.start_in
          (directory_at dev vol d.sectors at).slices
          index
      → node.hash_path ≡ hash_64 file_name
      → k < fuel
      → (r : Updated S) × (e : Drive S) × (update_in_status dev vol fuel false boot dir_name node
            junk d
          ≡ some r)
        × (r.done ≡ true)
        × (fetch_in dev vol fuel r.boot dir_name file_name node.kind junk' r.drive
            ≡ some (some r.node, e))
  unfolding update_in_status fetch_in add_inode
  update_in_status-fetch_in fuel k index at boot dir_name file_name node junk junk' d w l nz p s
        named enough =
      let x = directory_at dev vol d.sectors at in
      let d₁ = record d { error = success } in
      let e₀ = record d {
        error = success;
        sectors = grown dev vol boot node at x index d.lba_start d.sectors;
      } in
      let (low, high) =
        directories_le dev vol d.sectors (hash_64 dir_name) boot.end_ind k boot.start_ind at p in
      let first = l.not_first in
      let a = l.boot_below in
      let b = l.inodes_behind in
      let c = l.directories in
      let (e, ends) =
        fetch_from-made dev vol fuel k (hash_64 dir_name) node.kind index boot.start_ind at
          (hash_64 file_name) boot.start_in (advanced dev vol boot) d.sectors junk'
          (filed dev vol boot x index) blank_inode (made dev vol boot node) e₀ w.reads_ok refl
          l.small nz p
          (grown_directory dev vol boot node at x index d.lba_start d.sectors l low high) refl
          (λ y lo hi.
            grown_before dev vol boot node at x index d.lba_start y d.sectors l lo hi high)
          (λ buf e same.
            fetch_slices-made dev vol (hash_64 file_name) node.kind boot.end_ind boot.start_in index
              boot.start_in x.slices d.sectors buf (made dev vol boot node) e w.reads_ok s
              (ap (λ m. inode_at dev vol m boot.start_in) same
                ∙ grown_inode dev vol boot node at x index d.lba_start d.sectors l)
              (both (made dev vol boot node).hash_path (hash_64 file_name) node.kind named)
              (λ z lo hi.
                ap (λ m. inode_at dev vol m z) same
                ∙ grown_other_inode dev vol boot node at x index d.lba_start z d.sectors l high lo
                    hi))
          enough in
      (
        add_inode dev vol boot node at x index d₁,
        e,
        rw
            (
              not_below boot.start_ind boot.end_ind c,
              not_below boot.start_in boot.end_in (room_left l.room),
              not_below boot.start_block boot.end_block l.blocks,
            )
            (update_from-add_inode dev vol fuel k (hash_64 dir_name) node.kind index boot.start_ind
              at (hash_64 file_name) boot node junk d w.reads_ok l.small p s enough),
        refl,
        rw
            (
              not_below boot.start_ind boot.end_ind c,
              not_below (add64 boot.start_in node_sz) boot.end_in
                  (still_room boot.start_in boot.end_in l.room l.small_inodes),
            )
            (ap
                (fetch_from dev vol fuel (advanced dev vol boot) (hash_64 dir_name)
                  (hash_64 file_name) node.kind boot.start_ind junk' blank_inode)
                (add_inode_ready dev vol boot node at x index d₁
                  (record { reads_ok = w.reads_ok; writes_ok = w.writes_ok; unlocked = w.unlocked })
                  first (omega arith) (omega arith))
              ∙ ends),
      )
