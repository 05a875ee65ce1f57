-- ===== src/Hefs/Passes.antt =====
-- The loops of `hefsi_update_in_status` and `hefsi_fetch_in` of
-- private/minkernel/src/FS/OpenHeFS+FileSystemParser.cpp, over the directories and their slices.
use nekrnl.Prelude.{
  ℕ, zero, suc, ◌+◌, ◌≤◌, ◌<◌, ◌≡◌, refl, ap, sym, ◌∙◌, true, false, ◌&&◌, ◌||◌, ltb, leb, ◌==◌,
  some, List, [], ◌∷◌, arith, set, ◌^◌, add64, ==_iff,
}
use nekrnl.Drive.{Drive, Device, success}
use nekrnl.Drive.Mount.{io_drv_input_ready}
use nekrnl.Hefs.{Boot, Directory, Inode, Volume, node_sz, is_corrupted, fetch_slices, fetch_from}
use nekrnl.Hefs.Update.{add_inode, update_slices, update_from}
use nekrnl.Hefs.Grown.{add_inode-done}
use nekrnl.Hefs.Region.{directory_at, inode_at, Directories, found, past, Slices, free, used}

zero_plus : (n : ℕ) → 0 + n ≡ n
zero_plus n = omega arith

pub same_step : (n end : ℕ) → n + node_sz < end → end < 2 ^ 64 → add64 n node_sz ≡ n + node_sz
same_step n end h small = omega arith

pub goes_on : (n end : ℕ) → n + node_sz < end → (ltb end (n + node_sz) || n + node_sz == 0) ≡ false
goes_on n end h = ground arith

goes_on_fetching : (n end : ℕ) → n + node_sz < end → leb end (n + node_sz) ≡ false
goes_on_fetching n end h = ground arith

module _ {S : Type 0} (dev : Device) (vol : Volume S) where
  -- The loop over the slices creates at the first free one.
  update_slices-add_inode :
      (hash kind low high index from start : ℕ) (slices : List ℕ) (boot : Boot) (node : Inode)
      (x : Directory) (d : Drive S) (m : ℕ → S)
      → Slices dev vol m hash kind low high slices index
      → update_slices dev vol false boot node start x from slices d
        ≡ add_inode dev vol boot node start x (from + index) d
  unfolding update_slices
  update_slices-add_inode hash kind low high zero from start [] boot node x d m s = elim s [ ]
  update_slices-add_inode hash kind low high zero from start (suc _ ∷ slices) boot node x d m s =
      elim s [ ]
  update_slices-add_inode hash kind low high (suc index) from start [] boot node x d m s =
      elim s [ ]
  update_slices-add_inode hash kind low high zero from start (zero ∷ slices) boot node x d m free =
      ap (λ i. add_inode dev vol boot node start x i d) (omega arith)
  update_slices-add_inode hash kind low high (suc index) from start (lba ∷ slices) boot node x d m
        (used nz l h other s) =
      rw nz (
        update_slices-add_inode hash kind low high index (from + 1) start slices boot node x d m s
        ∙ ap (λ i. add_inode dev vol boot node start x i d) (omega arith))

  -- The search over the slices finds the new inode.
  pub fetch_slices-made :
      (hash kind low high index lba : ℕ) (slices : List ℕ) (m : ℕ → S) (buf n : Inode) (d : Drive S)
      → ((i : ℕ) → dev.reads i ≡ true)
      → Slices dev vol m hash kind low high slices index
      → inode_at dev vol d.sectors lba ≡ n
      → (n.hash_path == hash && n.kind == kind) ≡ true
      → ((i : ℕ) → low ≤ i → i < high → inode_at dev vol d.sectors i ≡ inode_at dev vol m i)
      → fetch_slices dev vol (set slices index lba) hash kind buf d
        ≡ (some n, (n, record d { error = success }))
  unfolding fetch_slices
  fetch_slices-made hash kind low high zero lba [] m buf n d ok s there hit kept = elim s [ ]
  fetch_slices-made hash kind low high zero lba (suc _ ∷ slices) m buf n d ok s there hit kept =
      elim s [ ]
  fetch_slices-made hash kind low high (suc index) lba [] m buf n d ok s there hit kept = elim s [ ]
  fetch_slices-made hash kind low high zero lba (zero ∷ slices) m buf n d ok free there hit kept =
      rw (io_drv_input_ready dev vol.inode lba buf d (ok lba), there, hit) refl
  fetch_slices-made hash kind low high (suc index) lba (z ∷ slices) m buf n d ok
        (used nz l h other s) there hit kept =
      rw (io_drv_input_ready dev vol.inode z buf d (ok z), kept z l h, other)
        (fetch_slices-made hash kind low high index lba slices m (inode_at dev vol m z) n
          (record d { error = success }) ok s there hit kept)

  pub directories_le :
      (m : ℕ → S) (hash end k cursor at : ℕ)
      → Directories dev vol m hash end k cursor at
      → (cursor ≤ at) × (at < end)
  directories_le m hash end zero cursor at (found inside same) = (omega arith, inside)
  directories_le m hash end (suc k) cursor at (past inside other full p) =
      let (behind, last) = directories_le m hash end k (cursor + node_sz) at p in
      (omega arith, last)

  -- The loop over the directories creates in the first one of the hash.
  pub update_from-add_inode :
      (fuel k hash kind index start at : ℕ) (file : ℕ) (boot : Boot) (node : Inode)
      (dir : Directory) (d : Drive S)
      → ((i : ℕ) → dev.reads i ≡ true)
      → boot.end_ind < 2 ^ 64
      → Directories dev vol d.sectors hash boot.end_ind k start at
      → Slices dev vol d.sectors file kind boot.end_ind boot.start_in
          (directory_at dev vol d.sectors at).slices
          index
      → k < fuel
      → update_from dev vol fuel false boot hash node start dir d
        ≡ some (
            add_inode dev vol boot node at
              (directory_at dev vol d.sectors at)
              index
              (record d { error = success }))
  unfolding update_from
  update_from-add_inode zero k hash kind index start at file boot node dir d ok small p s enough =
      absurd (omega arith)
  update_from-add_inode (suc fuel) zero hash kind index start at file boot node dir d ok small
        (found inside same) s enough =
      let x = directory_at dev vol d.sectors start in
      rw
        (
          io_drv_input_ready dev vol.directory start dir d (ok start),
          same,
          update_slices-add_inode file kind boot.end_ind boot.start_in index 0 start x.slices boot
              node x (record d { error = success }) d.sectors s,
          zero_plus index,
          add_inode-done dev vol boot node start x index (record d { error = success }),
        )
        refl
  update_from-add_inode (suc fuel) (suc k) hash kind index start at file boot node dir d ok small
        (past inside other full p) s enough =
      rw
        (
          io_drv_input_ready dev vol.directory start dir d (ok start),
          other,
          same_step start boot.end_ind inside small,
          goes_on start boot.end_ind inside,
        )
        (update_from-add_inode fuel k hash kind index (start + node_sz) at file boot node
          (directory_at dev vol d.sectors start) (record d { error = success }) ok small p s
          (omega arith))

  -- The search over the directories finds the new inode.
  pub fetch_from-made :
      (fuel k hash kind index start at file lba : ℕ) (boot : Boot) (m : ℕ → S) (dir x : Directory)
      (buf n : Inode) (d : Drive S)
      → ((i : ℕ) → dev.reads i ≡ true)
      → is_corrupted d.error ≡ false
      → boot.end_ind < 2 ^ 64
      → (hash == 0) ≡ false
      → Directories dev vol m hash boot.end_ind k start at
      → directory_at dev vol d.sectors at ≡ x
      → x.hash_path ≡ (directory_at dev vol m at).hash_path
      → ((y : ℕ) → start ≤ y → y < at → directory_at dev vol d.sectors y ≡ directory_at dev vol m y)
      → ((buf : Inode) (e : Drive S)
          → e.sectors ≡ d.sectors
          → fetch_slices dev vol x.slices file kind buf e
            ≡ (some n, (n, record e { error = success })))
      → k < fuel
      → (e : Drive S) × (fetch_from dev vol fuel boot hash file kind start dir buf d
          ≡ some (some n, e))
  unfolding fetch_from
  fetch_from-made zero k hash kind index start at file lba boot m dir x buf n d ok fine small nz p
        there same kept slices enough =
      absurd (omega arith)
  fetch_from-made (suc fuel) zero hash kind index start at file lba boot m dir x buf n d ok fine
        small nz (found inside hit) there same kept slices enough =
      (
        record d { error = success },
        rw
            (
              io_drv_input_ready dev vol.directory start dir d (ok start),
              there,
              fine,
              hash_same,
              not_blank,
              slices buf (record d { error = success }) refl,
            )
            refl,
      )
    where
      hash_same : (hash == x.hash_path) ≡ true
      hash_same = ap (λ h. hash == h) same ∙ hit

      not_blank : (x.hash_path == 0) ≡ false
      not_blank = ap (λ h. h == 0) (sym ((==_iff hash x.hash_path).0 hash_same)) ∙ nz
  fetch_from-made (suc fuel) (suc k) hash kind index start at file lba boot m dir x buf n d ok fine
        small nz (past inside other full p) there same kept slices enough =
      let (low, high) = directories_le m hash boot.end_ind k (start + node_sz) at p in
      let here = kept start (omega arith) (omega arith) in
      let (e, ends) =
        fetch_from-made fuel k hash kind index (start + node_sz) at file lba boot m
          (directory_at dev vol m start) x buf n (record d { error = success }) ok refl small nz p
          there same (λ y a b. kept y (omega arith) b) slices (omega arith) in
      (
        e,
        rw
            (
              io_drv_input_ready dev vol.directory start dir d (ok start),
              here,
              fine,
              other,
              full,
              same_step start boot.end_ind inside small,
              goes_on_fetching start boot.end_ind inside,
            )
            ends,
      )
