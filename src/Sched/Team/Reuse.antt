-- ===== src/Sched/Team/Reuse.antt =====
-- `Remove` of private/minkernel/src/UserProcessScheduler.cpp, and what the next `Spawn` does to the team.
use nekrnl.Prelude.{
  ℕ, zero, suc, ◌+◌, ◌<◌, ◌^◌, Bool, not, ◌&&◌, ap, if◌then◌else◌, ◌≡◌, ◌≢◌, refl, sym, ◌∙◌, true,
  false, ◌==◌, ltb, leb, sub64, arith, List, ◌∷◌, Option, some, subst,
}
use nekrnl.Prelude.Int.{ℤ, pos}
use nekrnl.Sched.Core.{
  invalid, finished, is_status, process_limit, executable, executable_dylib, invalid_executable,
  ExecutableKind,
}
use nekrnl.Sched.Process.{
  Process, ExitEnv, child_of, keeps_entry, is_stopped, any_stopped, exit_frees, free_ptr_tree,
  unload, exit_process, no_frame,
}
use nekrnl.Sched.Team.{Team, SpawnEnv, spawn, remove, exit_slot, set_process}
use nekrnl.Sched.Team.Lifecycle.{IsSpawnable, spawn-IsStarted}

-- A tree that `sched_free_ptr_tree` frees with the fuel `n`: every entry can be freed, along the
-- siblings and below each of them but the first.
pub data Freeable (env : ExitEnv) : ℕ → ℕ → Type 0 where
  leaf : {n : ℕ} → Freeable env (suc n) 0
  link :
      {n tree : ℕ}
      → (tree == 0) ≡ false
      → keeps_entry env (env.node tree).entry ≡ false
      → is_stopped (env.free_ptr tree) ≡ false
      → Freeable env n (child_of env (env.node tree).next)
      → Freeable env n (env.node tree).next
      → Freeable env (suc n) tree

either : (b : Bool) (x : Option Bool) → x ≡ some true → (if b then some true else x) ≡ some true
either true x e = refl
either false x e = e

free_ptr_tree-Freeable :
    (n tree : ℕ) (env : ExitEnv) → Freeable env n tree → free_ptr_tree n env tree ≡ some true
unfolding free_ptr_tree
free_ptr_tree-Freeable zero tree env f = elim f [ ]
free_ptr_tree-Freeable (suc n) tree env leaf = refl
free_ptr_tree-Freeable (suc n) tree env (link there frees goes below rest) =
    let next = (env.node tree).next in
    let child = child_of env next in
    rw
      (
        there,
        frees,
        either (child == 0) (free_ptr_tree n env child) (free_ptr_tree-Freeable n child env below),
        goes,
        free_ptr_tree-Freeable n next env rest,
      )
      refl

-- A process that `Exit` can close: it has a team, what its trees hold and its page directory can
-- be freed, `mm_free_ptr` of its image, blob and stack frame does not stop the kernel, and its
-- library unloads if it is one.
pub record IsClosable (fuel : ℕ) (env : ExitEnv) (p : Process) : Type 0 where
  pub status_known : is_status p.status invalid ≡ false
  pub has_parent : p.parent ≡ true
  pub heap : Freeable env fuel p.heap_tree
  pub files : Freeable env fuel p.file_tree
  pub unmaps : (not (p.vm_register == 0) && not (env.frees_bit_map p.vm_register)) ≡ false
  pub frees : any_stopped env (exit_frees env p) ≡ false
  pub unloads : (p.kind ≡ executable_dylib) → env.fini_dylib_ok ≡ true

-- What `Exit` leaves of a process.
pub record IsClosed (exit_code : ℤ) (p : Process) : Type 0 where
  pub is_finished : p.status ≡ finished
  pub code_null : p.code ≡ 0
  pub blob_null : p.blob ≡ 0
  pub frame_null : p.stack_frame ≡ no_frame
  pub heap_null : p.heap_tree ≡ 0
  pub files_null : p.file_tree ≡ 0
  pub exit_eq : p.last_exit_code ≡ exit_code
  pub parent_kept : p.parent ≡ true

abbrev Closed : ℤ → Option Process → Type 0
Closed e o = (q : Process) × (o ≡ some q) × IsClosed e q

unload-Closed :
    (env : ExitEnv) (e : ℤ) (k : ExecutableKind) (p : Process)
    → (k ≡ executable_dylib → env.fini_dylib_ok ≡ true)
    → IsClosed e p
    → Closed e (unload env k p)
unload-Closed env e invalid_executable p ok c = (p, refl, c)
unload-Closed env e executable p ok c = (p, refl, c)
unload-Closed env e executable_dylib p ok c = rw (ok refl) (
  record p { dylib_delegate = 0 },
  refl,
  record {
    is_finished = c.is_finished;
    code_null = c.code_null;
    blob_null = c.blob_null;
    frame_null = c.frame_null;
    heap_null = c.heap_null;
    files_null = c.files_null;
    exit_eq = c.exit_eq;
    parent_kept = c.parent_kept;
  },
)

exit_process-Closed :
    (fuel : ℕ) (env : ExitEnv) (e : ℤ) (p : Process)
    → IsClosable fuel env p
    → Closed e (exit_process fuel env e p)
unfolding exit_process
exit_process-Closed fuel env e p ok =
    rw
      (
        free_ptr_tree-Freeable fuel p.heap_tree env ok.heap,
        free_ptr_tree-Freeable fuel p.file_tree env ok.files,
        ok.unmaps,
        ok.frees,
      )
      (unload-Closed env e p.kind _ ok.unloads (record {
        is_finished = refl;
        code_null = refl;
        blob_null = refl;
        frame_null = refl;
        heap_null = refl;
        files_null = refl;
        exit_eq = refl;
        parent_kept = ok.has_parent;
      }))

exit_slot-closes :
    (fuel : ℕ) (env : ExitEnv) (c : ℤ) (k : ℕ) (t : Team) (q : Process)
    → exit_process fuel env c (t.process_list k) ≡ some q
    → q.parent ≡ true
    → exit_slot fuel env c k t
      ≡ some (set_process k q (record t { process_cur = sub64 t.process_cur 1 }))
unfolding exit_slot
exit_slot-closes fuel env c k t q e parent = rw (e, parent) refl

abbrev pub Removed : ℕ → Team → Option Team → Type 0
Removed k t r =
    (t' : Team) × (r ≡ some t')
    × IsClosed (pos 0) (t'.process_list k)
    × (t'.process_cur ≡ sub64 t.process_cur 1)
    × ((i : ℕ) → i ≢ k → t'.process_list i ≡ t.process_list i)

-- `Remove` of an index below 32 does not panic, when the process has a status and a team, each
-- entry of its trees can be freed, so can its page directory if it has one, no other call of
-- `mm_free_ptr` stops the kernel, and it unloads if it is a library: it finishes the process with exit code 0, clears its image, stack frame and
-- trees, takes one off the team's count, and leaves every other slot as it was. The fuel is as
-- deep as the trees.
pub remove-IsClosed :
    (fuel : ℕ) (env : ExitEnv) (k : ℕ) (t : Team)
    → k < process_limit
    → IsClosable fuel env (t.process_list k)
    → Removed k t (remove fuel env k t)
unfolding remove
remove-IsClosed fuel env k t bound ok =
    let (q, e, closed) = exit_process-Closed fuel env (pos 0) (t.process_list k) ok in
    let (low, high, inside) = guard k bound in
    (
      set_process k q (record t { process_cur = sub64 t.process_cur 1 }),
      rw (low, high, inside, ok.status_known)
          (exit_slot-closes fuel env (pos 0) k t q e closed.parent_kept),
      rw (self k) closed,
      refl,
      λ i n. ground arith,
    )
  where
    self : (n : ℕ) → (n == n) ≡ true
    self n = ground arith

    guard : (k : ℕ) → k < 32 → (leb (2 ^ 63) k ≡ false) × (ltb 32 k ≡ false) × (ltb k 32 ≡ true)
    guard k b = (ground arith, ground arith, ground arith)

-- When a team counts `n + 1` processes and one in a slot other than `n` is removed, the next
-- `Spawn` that can be met is given the id `n`, and overwrites the process that slot `n` still
-- holds unchanged: its code is then the new program's.
pub remove-spawn_overwrites :
    (fuel : ℕ) (exit_env : ExitEnv) (k n : ℕ) (t : Team)
    → k < process_limit
    → IsClosable fuel exit_env (t.process_list k)
    → k ≢ n
    → t.process_cur ≡ n + 1
    → n < process_limit
    → (env : SpawnEnv) (c : ℕ) (cs : List ℕ) (code image image_sz : ℕ) → c ≢ 0
    → IsSpawnable env (record t { process_cur = n }) (c ∷ cs) code
    → (t' t'' : Team) × (remove fuel exit_env k t ≡ some t')
      × (t'.process_list n ≡ t.process_list n)
      × (spawn env (some (c ∷ cs)) code image image_sz t' ≡ some (n, t''))
      × ((t''.process_list n).code ≡ code)
remove-spawn_overwrites fuel exit_env k n t bound closable apart count fits env c cs code image
      image_sz named ok =
    let (t', e, closed, cur, others) = remove-IsClosed fuel exit_env k t bound closable in
    let now : t'.process_cur ≡ n = omega arith in
    let (t'', spawned, counted, started, rest) =
      spawn-IsStarted env c cs code image image_sz t' named (record {
        name_fits = ok.name_fits;
        has_code = ok.has_code;
        has_slot = omega arith;
        has_frame = ok.has_frame;
        has_file_tree = ok.has_file_tree;
      }) in
    (
      t',
      t'',
      e,
      others n (λ i. apart (sym i)),
      spawned ∙ ap (λ m. some (m, t'')) now,
      subst (λ m. (t''.process_list m).code ≡ code) now started.code_eq,
    )
