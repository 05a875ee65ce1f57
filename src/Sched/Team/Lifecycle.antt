-- ===== src/Sched/Team/Lifecycle.antt =====
-- `Spawn` and `Remove` of private/minkernel/src/UserProcessScheduler.cpp.
use nekrnl.Prelude.{
  ℕ, ◌+◌, ◌≤◌, ◌<◌, ◌≡◌, ◌≢◌, refl, true, ◌==◌, add64, if◌then◌else◌, arith, Bool-cases, inl, inr,
  List, ◌∷◌, ◌++◌, Option, length, some,
}
use nekrnl.Sched.Core.{running, process_limit, max_stack_size, name_len}
use nekrnl.Sched.Process.{Process}
use nekrnl.Sched.Team.{
  Team, SpawnEnv, load_image, load_frame, start_process, fill_slot, spawn, set_process,
}

-- A request that `Spawn` can meet: a named program, a slot within its bound, and memory.
pub record IsSpawnable (env : SpawnEnv) (t : Team) (name : List ℕ) (code : ℕ) : Type 0 where
  pub name_fits : length name ≤ name_len
  pub has_code : code ≢ 0
  pub has_slot : t.process_cur < process_limit
  pub has_frame : env.new_frame ≢ 0
  pub has_file_tree : env.new_file_tree ≢ 0

-- What a spawned program has in its slot.
pub record IsStarted (name : List ℕ) (code image image_sz pid : ℕ) (p : Process) : Type 0 where
  pub is_running : p.status ≡ running
  pub is_named : (rest : List ℕ) × (p.name ≡ name ++ rest)
  pub entry : p.stack_frame.ip ≡ code
  pub code_eq : p.code ≡ code
  pub blob_eq : p.blob ≡ image
  pub size_eq : p.blob_size ≡ image_sz
  pub id_eq : p.process_id ≡ pid
  pub stack_eq : p.stack_size ≡ max_stack_size
  pub file_tree_pos : p.file_tree ≢ 0

module _ (env : SpawnEnv) (c : ℕ) (cs : List ℕ) (code image image_sz : ℕ) where
  abbrev filled : ℕ → Process → Process
  filled pid slot =
      let p =
        start_process pid
          (load_frame env pid (c ∷ cs) code (load_image code image image_sz slot)) in
      if p.file_tree == 0 then record p { file_tree = env.new_file_tree } else p

  fill_slot_ok :
      (pid : ℕ) (slot : Process)
      → length (c ∷ cs) ≤ name_len
      → env.new_frame ≢ 0
      → env.new_file_tree ≢ 0
      → fill_slot env pid (c ∷ cs) code image image_sz slot ≡ (pid, filled pid slot)
  unfolding fill_slot
  fill_slot_ok pid slot fits frame tree = ground arith

  filled-IsStarted :
      (pid : ℕ) (slot : Process)
      → env.new_file_tree ≢ 0
      → IsStarted (c ∷ cs) code image image_sz pid (filled pid slot)
  filled-IsStarted pid slot tree = elim (Bool-cases (slot.file_tree == 0)) [
    | inl e ↦ rw e record {
      is_running = refl;
      is_named = (_, refl);
      entry = refl;
      code_eq = refl;
      blob_eq = refl;
      size_eq = refl;
      id_eq = refl;
      stack_eq = refl;
      file_tree_pos = tree;
    }
    | inr e ↦ rw e record {
      is_running = refl;
      is_named = (_, refl);
      entry = refl;
      code_eq = refl;
      blob_eq = refl;
      size_eq = refl;
      id_eq = refl;
      stack_eq = refl;
      file_tree_pos = λ z. ground arith;
    }
  ]

  abbrev pub SpawnResult : Team → Option (ℕ × Team) → Type 0
  SpawnResult t o =
      (t' : Team) × (o ≡ some (t.process_cur, t'))
      × (t'.process_cur ≡ t.process_cur + 1)
      × IsStarted (c ∷ cs) code image image_sz t.process_cur (t'.process_list t.process_cur)
      × ((i : ℕ) → i ≢ t.process_cur → t'.process_list i ≡ t.process_list i)

  pub spawn-IsStarted :
      (t : Team)
      → c ≢ 0
      → IsSpawnable env t (c ∷ cs) code
      → SpawnResult t (spawn env (some (c ∷ cs)) code image image_sz t)
  unfolding spawn
  spawn-IsStarted t named ok = (
    set_process t.process_cur (filled t.process_cur (t.process_list t.process_cur))
        (record t { process_cur = add64 t.process_cur 1 }),
    let e =
          fill_slot_ok t.process_cur (t.process_list t.process_cur) ok.name_fits ok.has_frame
            ok.has_file_tree in
        ground (arith, ok.has_slot, ok.has_code),
    omega (arith, ok.has_slot),
    rw (self t.process_cur)
        (filled-IsStarted t.process_cur (t.process_list t.process_cur) ok.has_file_tree),
    λ i n. ground arith,
  )
    where
      self : (n : ℕ) → (n == n) ≡ true
      self n = ground arith
