-- ===== src/Hefs/Tree.antt =====
-- The tree of directory nodes: `hefsi_traverse_tree`, `hefsi_rotate_tree` and `hefsi_balance_ind` of
-- private/minkernel/src/FS/OpenHeFS+FileSystemParser.cpp.
use nekrnl.Prelude.{
  ℕ, zero, suc, ◌≡◌, refl, Bool, true, false, not, ◌&&◌, ◌||◌, ltb, ◌==◌, if◌then◌else◌, Option,
  none, some, arith, add64,
}
use nekrnl.Drive.{Drive, Device, success, disk_is_corrupted, io_drv_input, io_drv_output}
use nekrnl.Hefs.{Boot, Directory, Volume, node_sz}

-- `kOpenHeFSRed`, `kOpenHeFSBlack`
abbrev pub red : ℕ
red = 100

abbrev pub black : ℕ
black = 101

-- Where a node leads: to the next one, else to the one before, else to the parent.
abbrev pub leads_to : Directory → ℕ
leads_to x = if not (x.next == 0) then x.next else if not (x.prev == 0) then x.prev else x.parent

module _ {S : Type 0} (dev : Device) (vol : Volume S) where
  -- The loop of `hefsi_traverse_tree`; `moved` is `check_is_good`.
  unfoldable pub traverse_from : ℕ → ℕ → Bool → ℕ → Directory → Drive S → Option (ℕ × Drive S)
  traverse_from zero ind_start moved start tmp d = none
  traverse_from (suc fuel) ind_start moved start tmp d =
      let (x, d') = io_drv_input dev vol.directory start tmp d in
      let follow = traverse_from fuel ind_start true (leads_to x) x d' in
      let again = traverse_from fuel ind_start moved ind_start x d' in
      if not d'.good
      then some (start, d')
      else if not (leads_to x == 0)
      then if moved then some (start, d') else follow
      else if start == 0
      then again
      else some (add64 start node_sz, d')

  abbrev pub step_on : ℕ → Option (ℕ × Drive S) → Option (ℕ × Drive S)
  step_on ind_start none = none
  step_on ind_start (some (start, d)) =
      some (if add64 start node_sz == 0 then ind_start else add64 start node_sz, d)

  -- `hefsi_traverse_tree`
  unfoldable pub traverse_tree : ℕ → ℕ → ℕ → Directory → Drive S → Option (ℕ × Drive S)
  traverse_tree fuel ind_start start tmp d =
      step_on ind_start (traverse_from fuel ind_start false start tmp d)

  abbrev pub write_directory : ℕ → Directory → Drive S → Drive S
  write_directory lba x d = io_drv_output dev lba (vol.directory.save x lba) d

  abbrev pub summed : Directory → Directory
  summed x = record x { checksum = vol.directory_sum x }

  -- The new parent of a child; the sum is that of `sibling`, as the program has it.
  abbrev pub move_child : ℕ → ℕ → Directory → Directory → Drive S → Drive S
  move_child lba parent sibling junk d =
      let (x, d') = io_drv_input dev vol.directory lba junk d in
      write_directory lba (record x { parent = parent; checksum = vol.directory_sum sibling }) d'

  -- The part of `hefsi_rotate_tree` behind the two reads.
  unfoldable pub swap_children : ℕ → Directory → Directory → Directory → Drive S → Drive S
  swap_children start cur sibling junk d =
      let cur' = summed (record cur { child = sibling.child }) in
      let sibling' = summed (record sibling { child = cur.child }) in
      let d₁ = write_directory start cur' (write_directory cur.parent sibling' d) in
      let d₂ = move_child sibling.child cur.parent sibling' junk d₁ in
      move_child cur.child start sibling' junk d₂

  -- `hefsi_rotate_tree`; `junk` is what the buffers on the stack hold before they are read.
  unfoldable pub rotate_tree : ℕ → Directory → Drive S → Drive S
  rotate_tree start junk d =
      let (cur, d₁) = io_drv_input dev vol.directory start junk d in
      let (sibling, d₂) = io_drv_input dev vol.directory cur.prev junk d₁ in
      if start == 0
      then d
      else if cur.hash_path == 0
      then d₁
      else if sibling.hash_path == 0
      then d₂
      else swap_children start cur sibling junk d₂

  -- A round of `hefsi_balance_ind`, for a node that was read.
  abbrev pub blacken_root : Boot → ℕ → Directory → Drive S → Directory × Drive S
  blacken_root boot start x d =
      if start == boot.start_ind
      then (record x { color = black }, write_directory start (record x { color = black }) d)
      else (x, d)

  abbrev pub recolor : ℕ → Directory → Directory → Drive S → Directory × Drive S
  recolor start junk x d =
      if x.color == black && not (x.child == 0)
      then (record x { color = red }, rotate_tree start junk d)
      else if x.color == black && x.child == 0
      then (x, write_directory start x d)
      else (x, d)

  abbrev pub refresh_sum : ℕ → Directory → Drive S → Directory × Drive S
  refresh_sum start x d =
      if not (vol.directory_sum x == x.checksum)
      then (summed x, write_directory start (summed x) d)
      else (x, d)

  abbrev pub balance_node : Boot → ℕ → Directory → Directory → Drive S → Directory × Drive S
  balance_node boot start junk x d =
      let (x₁, d₁) = blacken_root boot start x d in
      let (x₂, d₂) = recolor start junk x₁ d₁ in refresh_sum start x₂ d₂

  -- The loop of `hefsi_balance_ind`.
  unfoldable pub balance_from :
      ℕ → Boot → ℕ → Directory → Directory → Drive S → Option (Bool × Drive S)
  balance_from zero boot start junk dir d = none
  balance_from (suc fuel) boot start junk dir d =
      let (x, d₁) = io_drv_input dev vol.directory start dir d in
      let (x', d₂) = balance_node boot start junk x d₁ in
      let rest = balance_from fuel boot (add64 start node_sz) junk x' d₂ in
      if start == 0 || ltb boot.end_ind start
      then some (true, record d { error = success })
      else if not d₁.good
      then some (false, record d₁ { error = disk_is_corrupted })
      else rest

  -- `hefsi_balance_ind`
  unfoldable pub balance_ind : ℕ → Boot → Directory → Drive S → Option (Bool × Drive S)
  balance_ind fuel boot junk d =
      if boot.start_ind == 0
      then some (false, d)
      else balance_from fuel boot boot.start_ind junk junk d

  abbrev Ends : Option (ℕ × Drive S) → Type 0
  Ends o = (r : ℕ × Drive S) × (o ≡ some r)

  choose-Ends :
      (b : Bool) (x y : Option (ℕ × Drive S))
      → (b ≡ true → Ends x)
      → (b ≡ false → Ends y)
      → Ends (if b then x else y)
  choose-Ends true x y p q = p refl
  choose-Ends false x y p q = q refl

  -- Behind a move the loop ends, unless it moved to the address 0.
  moved-Ends :
      (fuel ind_start start : ℕ) (tmp : Directory) (d : Drive S)
      → (start == 0) ≡ false
      → Ends (traverse_from (suc fuel) ind_start true start tmp d)
  unfolding traverse_from
  moved-Ends fuel ind_start start tmp d nz =
      let (x, d') = io_drv_input dev vol.directory start tmp d in
      choose-Ends (not d'.good) _ _ (λ e. ((start, d'), refl))
        (λ e.
          choose-Ends (not (leads_to x == 0)) _ _ (λ e. ((start, d'), refl))
            (λ e. rw nz ((add64 start node_sz, d'), refl)))

  false_of_not : (b : Bool) → not b ≡ true → b ≡ false
  false_of_not b e = ground arith

  fixed-Ends :
      (fuel ind_start start : ℕ) (tmp : Directory) (d : Drive S)
      → (start == 0) ≡ false
      → Ends (traverse_from (suc (suc fuel)) ind_start false start tmp d)
  unfolding traverse_from
  fixed-Ends fuel ind_start start tmp d nz =
      let (x, d') = io_drv_input dev vol.directory start tmp d in
      choose-Ends (not d'.good) _ _ (λ e. ((start, d'), refl))
        (λ e.
          choose-Ends (not (leads_to x == 0)) _ _
            (λ e. moved-Ends fuel ind_start (leads_to x) x d' (false_of_not (leads_to x == 0) e))
            (λ e. rw nz ((add64 start node_sz, d'), refl)))

  any-Ends :
      (fuel ind_start start : ℕ) (tmp : Directory) (d : Drive S)
      → (ind_start == 0) ≡ false
      → Ends (traverse_from (suc (suc (suc fuel))) ind_start false start tmp d)
  unfolding traverse_from
  any-Ends fuel ind_start start tmp d nz =
      let (x, d') = io_drv_input dev vol.directory start tmp d in
      choose-Ends (not d'.good) _ _ (λ e. ((start, d'), refl))
        (λ e.
          choose-Ends (not (leads_to x == 0)) _ _
            (λ e.
              moved-Ends (suc fuel) ind_start (leads_to x) x d' (false_of_not (leads_to x == 0) e))
            (λ e.
              choose-Ends (start == 0) _ _ (λ e. fixed-Ends fuel ind_start ind_start x d' nz)
                (λ e. ((add64 start node_sz, d'), refl))))

  -- `hefsi_traverse_tree` ends after at most three reads, whatever the disk holds, when the
  -- directory nodes do not start at the address 0.
  pub traverse_tree_ends :
      (fuel ind_start start : ℕ) (tmp : Directory) (d : Drive S)
      → (ind_start == 0) ≡ false
      → (r : ℕ × Drive S) × (traverse_tree (suc (suc (suc fuel))) ind_start start tmp d ≡ some r)
  unfolding traverse_tree
  traverse_tree_ends fuel ind_start start tmp d nz =
      let ((at, d'), e) = any-Ends fuel ind_start start tmp d nz in
      ((if add64 at node_sz == 0 then ind_start else add64 at node_sz, d'), rw e refl)
