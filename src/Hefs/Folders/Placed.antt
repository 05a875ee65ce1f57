-- ===== src/Hefs/Folders/Placed.antt =====
-- A directory that `hefsi_update_ind_status` of
-- private/minkernel/src/FS/OpenHeFS+FileSystemParser.cpp creates.
use nekrnl.Prelude.{
  ℕ, ◌+◌, ◌≤◌, ◌<◌, ◌≡◌, ◌≢◌, not, ◌&&◌, inl, refl, ap, sym, ◌∙◌, true, false, ◌==◌, ltb, add64,
  some, List, replicate, arith, ◌^◌, ==_iff,
}
use nekrnl.Drive.{Drive, Device, success, disk_is_corrupted, io_drv_unimplemented}
use nekrnl.Drive.Mount.{io_drv_input_ready, io_drv_output_ready}
use nekrnl.Nefs.{Name}
use nekrnl.Hefs.{Boot, Directory, Volume}
use nekrnl.Hefs.Region.{
  IsUsable, directory_at, Directories, directory-save_directory, directory-save_boot,
}
use nekrnl.Hefs.Operations.{Junk}
use nekrnl.Hefs.Folders.{Changed, count_directory, put_directory, update_ind_from, hefs_format}
use nekrnl.Hefs.Folders.Vacant.{
  Vacant, read_ok, vacant_le, vacant-Directories, update_ind_from-put_directory,
}

not_zero : (n : ℕ) → 0 < n → (n == 0) ≡ false
not_zero n h = ground arith

module _ {S : Type 0} (dev : Device) (vol : Volume S) where
  abbrev stored : Directory → Directory
  stored x = record x { checksum = vol.directory_sum x }

  abbrev grown : Boot → ℕ → Directory → ℕ → (ℕ → S) → ℕ → S
  grown boot at new first m =
      vol.boot.save (count_directory dev vol false boot) first
        (vol.directory.save (stored new) at m)

  put_directory_ready :
      (boot : Boot) (at : ℕ) (new : Directory) (d : Drive S)
      → IsUsable dev vol d
      → 0 < d.lba_start
      → 0 < at
      → put_directory dev vol false boot at new d ≡ record {
        done = true;
        boot = count_directory dev vol false boot;
        drive = record d { error = success; sectors = grown boot at new d.lba_start d.sectors };
      }
  unfolding put_directory
  put_directory_ready boot at new d w first place =
      let put_dir = vol.directory.save (stored new) at in
      let d₁ = record d { error = success; sectors = put_dir d.sectors } in
      rw
        (
          io_drv_output_ready dev vol.directory at put_dir d (w.writes_ok at) w.unlocked
              (not_zero at place),
          io_drv_output_ready dev vol.boot d.lba_start
              (vol.boot.save (count_directory dev vol false boot) d.lba_start) d₁
              (w.writes_ok d.lba_start) w.unlocked (not_zero d.lba_start first),
        )
        refl

  -- What `hefsi_update_ind_status` creates is a directory for inodes: the search for its hash
  -- leads to it, and its 16 slices are free. The boot node lies below the region of the
  -- directories, the nodes before the first blank one are in use by other hashes, every transfer
  -- succeeds, and the fuel is more than the nodes up to it.
  pub update_ind_from-Directories :
      (fuel k hash flags start at prev : ℕ) (boot : Boot) (dir tmp : Directory) (d : Drive S)
      → IsUsable dev vol d
      → boot.end_ind < 2 ^ 64
      → 0 < d.lba_start
      → d.lba_start + 2 ≤ start
      → Vacant dev vol d.sectors hash boot.end_ind k start at
      → k + 1 < fuel
      → (r : Changed S) × (update_ind_from dev vol fuel false boot hash flags start prev dir tmp d
          ≡ some r)
        × (r.done ≡ true)
        × Directories dev vol r.drive.sectors hash boot.end_ind k start at
        × ((directory_at dev vol r.drive.sectors at).slices ≡ replicate 16 0)
  update_ind_from-Directories fuel k hash flags start at prev boot dir tmp d w small first below p
        enough =
      let (n, ends, same, free) =
        update_ind_from-put_directory dev vol fuel k hash flags start at prev boot dir tmp d
          w.reads_ok small (omega arith) p enough in
      let (low, high) = vacant_le dev vol d.sectors hash boot.end_ind k start at p in
      let m₁ = vol.directory.save (stored n) at d.sectors in
      let there =
        directory-save_boot dev vol (count_directory dev vol false boot) d.lba_start at m₁
          (omega arith)
        ∙ vol.directory.load-save (stored n) at d.sectors in
      (
        record {
          done = true;
          boot = count_directory dev vol false boot;
          drive = record d { error = success; sectors = grown boot at n d.lba_start d.sectors };
        },
        ends
            ∙ ap some (
                put_directory_ready boot at n (read_ok dev vol d)
                  (record { reads_ok = w.reads_ok; writes_ok = w.writes_ok; unlocked = w.unlocked })
                  first (omega arith)),
        refl,
        vacant-Directories dev vol d.sectors (grown boot at n d.lba_start d.sectors) hash
            boot.end_ind k start at p ((==_iff hash _).1 (sym (ap (λ x. x.hash_path) there ∙ same)))
            (λ y a b.
              directory-save_boot dev vol (count_directory dev vol false boot) d.lba_start y m₁
                (omega arith)
              ∙ directory-save_directory dev vol (stored n) at y d.sectors (inl b)),
        ap (λ x. x.slices) there ∙ free,
      )

  -- The boot node that counts one more directory, and the checksum over it as it is.
  abbrev counted : Boot → Boot
  counted boot = record boot { ind_count = add64 boot.ind_count 1 }

  abbrev stale_sum : Boot → ℕ
  stale_sum boot = vol.boot_sum (counted boot)

  -- What is stored after the creation, and what `Format` does with it.
  abbrev pub IsStale :
      (fuel flags at : ℕ) (boot : Boot) (new : Directory) (dirs : List Name) (junk : Junk)
      (d : Drive S)
      → Type 0
  IsStale fuel flags at boot new dirs junk d =
      (vol.boot.load (put_directory dev vol false boot at new d).drive.sectors d.lba_start
        ≡ record (counted boot) { checksum = stale_sum boot })
      × ((e : Drive S) × (hefs_format dev vol fuel flags dirs junk
              (put_directory dev vol false boot at new d).drive
            ≡ some (some (false, e)))
          × (e.error ≡ disk_is_corrupted))

  -- `hefsi_update_ind_status` leaves on the disk the boot node with one more directory and, as its
  -- checksum, the sum over that node with the old checksum in it. When this sum is not 0 and is
  -- not that of the node which holds it, the node is refused as corrupted when the volume is
  -- mounted again. Every transfer succeeds, the packet is good, and neither node lies at 0.
  pub put_directory-hefs_format_refused :
      (fuel flags at : ℕ) (boot : Boot) (new : Directory) (dirs : List Name) (junk : Junk)
      (d : Drive S)
      → IsUsable dev vol d
      → d.good ≡ true
      → 0 < d.lba_start
      → 0 < at
      → 0 < stale_sum boot
      → vol.boot_sum (record (counted boot) { checksum = stale_sum boot }) ≢ stale_sum boot
      → IsStale fuel flags at boot new dirs junk d
  unfolding hefs_format io_drv_unimplemented
  put_directory-hefs_format_refused fuel flags at boot new dirs junk d w good first place some_sum
        apart =
      let e = record d { error = success; sectors = grown boot at new d.lba_start d.sectors } in
      let there =
        vol.boot.load-save (count_directory dev vol false boot) d.lba_start
          (vol.directory.save (stored new) at d.sectors) in
      (
        rw (put_directory_ready boot at new d w first place) there,
        (
          record e { error = disk_is_corrupted },
          rw
              (
                put_directory_ready boot at new d w first place,
                io_drv_input_ready dev vol.boot d.lba_start junk.boot e (w.reads_ok d.lba_start),
                there,
                damaged (vol.boot_sum (record (counted boot) { checksum = stale_sum boot }))
                    (stale_sum boot) some_sum apart,
                good,
              )
              refl,
          refl,
        ),
      )
    where
      damaged : (a b : ℕ) → 0 < b → a ≢ b → (not (a == b) && ltb 0 b) ≡ true
      damaged a b h n = ground arith
