-- ===== src/Paging/Walk.antt =====
-- `mm_walk_page` of private/minkernel/HALKit/AMD64/HalPagingMgr.cpp where the tables are there.
use nekrnl.Prelude.{
  ℕ, ◌≡◌, ◌≢◌, refl, ap, sym, ◌∙◌, subst, Bool, true, false, not, ◌==◌, store, store_ne, store_self,
  align_down, some, arith,
}
use nekrnl.Pmm.{Frames}
use nekrnl.Paging.{bit, is_present, is_large, entry_at, permissive, walk_level, walk_page}

-- An entry that leads to a table.
pub record LeadsTo (entry table : ℕ) : Type 0 where
  pub present : is_present entry ≡ true
  pub small : is_large entry ≡ false
  pub table_eq : align_down entry ≡ table

-- The three tables below the root on the way to `virt`, in four different places.
pub record HasTables (root virt t3 t2 t1 : ℕ) (mem : ℕ → ℕ) : Type 0 where
  pub root_pos : root ≢ 0
  pub to_t3 : LeadsTo (mem (entry_at (align_down root) virt 39)) t3
  pub to_t2 : LeadsTo (mem (entry_at t3 virt 30)) t2
  pub to_t1 : LeadsTo (mem (entry_at t2 virt 21)) t1
  pub apart_43 : entry_at (align_down root) virt 39 ≢ entry_at t3 virt 30
  pub apart_42 : entry_at (align_down root) virt 39 ≢ entry_at t2 virt 21
  pub apart_41 : entry_at (align_down root) virt 39 ≢ entry_at t1 virt 12
  pub apart_32 : entry_at t3 virt 30 ≢ entry_at t2 virt 21
  pub apart_31 : entry_at t3 virt 30 ≢ entry_at t1 virt 12
  pub apart_21 : entry_at t2 virt 21 ≢ entry_at t1 virt 12

permissive-present : (e : ℕ) → is_present e ≡ true → is_present (permissive e) ≡ true
permissive-present e p = ground arith

permissive-large : (e : ℕ) → bit 7 (permissive e) ≡ bit 7 e
permissive-large e = omega arith

permissive-table : (e : ℕ) → align_down (permissive e) ≡ align_down e
permissive-table e = omega arith

pub permissive-LeadsTo : (e t : ℕ) → LeadsTo e t → LeadsTo (permissive e) t
permissive-LeadsTo e t l = record {
  present = permissive-present e l.present;
  small = ap (λ b. not (b == 0)) (permissive-large e) ∙ l.small;
  table_eq = permissive-table e ∙ l.table_eq;
}

-- The memory after a level of the walk.
abbrev pub opened : (ℕ → ℕ) → ℕ → ℕ → ℕ
opened mem slot = store mem slot (permissive (mem slot))

level_step :
    (alloc : Bool) (virt shift table below : ℕ) (s : Frames)
    → LeadsTo (s.mem (entry_at table virt shift)) below
    → walk_level alloc virt shift table s
      ≡ (some below, record s { mem = opened s.mem (entry_at table virt shift) })
unfolding walk_level
level_step alloc virt shift table below s l =
    rw (l.present, l.small, permissive-table (s.mem (entry_at table virt shift)), l.table_eq) refl

opened_ne :
    (mem : ℕ → ℕ) (slot a t : ℕ) → a ≢ slot → LeadsTo (mem a) t → LeadsTo (opened mem slot a) t
opened_ne mem slot a t n l =
    subst (λ e. LeadsTo e t) (sym (store_ne mem slot a (permissive (mem slot)) n)) l

opened_self : (mem : ℕ → ℕ) (slot t : ℕ) → LeadsTo (mem slot) t → LeadsTo (opened mem slot slot) t
opened_self mem slot t l =
    subst (λ e. LeadsTo e t) (sym (store_self mem slot (permissive (mem slot))))
      (permissive-LeadsTo (mem slot) t l)

-- The memory after the walk over three tables.
abbrev pub walked : ℕ → ℕ → ℕ → ℕ → (ℕ → ℕ) → ℕ → ℕ
walked root virt t3 t2 mem =
    opened (opened (opened mem (entry_at (align_down root) virt 39)) (entry_at t3 virt 30))
      (entry_at t2 virt 21)

root_test : (n : ℕ) → n ≢ 0 → (n == 0) ≡ false
root_test n h = ground arith

pub walk_page-HasTables :
    (alloc : Bool) (root virt t3 t2 t1 : ℕ) (s : Frames)
    → HasTables root virt t3 t2 t1 s.mem
    → walk_page root virt alloc s
      ≡ (some (entry_at t1 virt 12), record s { mem = walked root virt t3 t2 s.mem })
unfolding walk_page
walk_page-HasTables alloc root virt t3 t2 t1 s has =
    rw
      (
        root_test root has.root_pos,
        level_step alloc virt 39 (align_down root) t3 s has.to_t3,
        level_step alloc virt 30 t3 t2 s1
            (opened_ne s.mem a4 (entry_at t3 virt 30) t2 (λ e. has.apart_43 (sym e)) has.to_t2),
        level_step alloc virt 21 t2 t1 s2 (
            opened_ne s1.mem (entry_at t3 virt 30) (entry_at t2 virt 21) t1
              (λ e. has.apart_32 (sym e))
              (opened_ne s.mem a4 (entry_at t2 virt 21) t1 (λ e. has.apart_42 (sym e)) has.to_t1)),
      )
      refl
  where
    a4 : ℕ
    a4 = entry_at (align_down root) virt 39

    s1 : Frames
    s1 = record s { mem = opened s.mem a4 }

    s2 : Frames
    s2 = record s { mem = opened s1.mem (entry_at t3 virt 30) }

-- The walk keeps the way to the page.
pub walked-HasTables :
    (root virt t3 t2 t1 : ℕ) (mem : ℕ → ℕ)
    → HasTables root virt t3 t2 t1 mem
    → HasTables root virt t3 t2 t1 (walked root virt t3 t2 mem)
walked-HasTables root virt t3 t2 t1 mem has = record {
  root_pos = has.root_pos;
  to_t3 =
      opened_ne m2 a2 a4 t3 has.apart_42
        (opened_ne m1 a3 a4 t3 has.apart_43 (opened_self mem a4 t3 has.to_t3));
  to_t2 =
      opened_ne m2 a2 a3 t2 has.apart_32
        (opened_self m1 a3 t2 (opened_ne mem a4 a3 t2 (λ e. has.apart_43 (sym e)) has.to_t2));
  to_t1 = opened_self m2 a2 t1 (
      opened_ne m1 a3 a2 t1 (λ e. has.apart_32 (sym e))
        (opened_ne mem a4 a2 t1 (λ e. has.apart_42 (sym e)) has.to_t1));
  apart_43 = has.apart_43;
  apart_42 = has.apart_42;
  apart_41 = has.apart_41;
  apart_32 = has.apart_32;
  apart_31 = has.apart_31;
  apart_21 = has.apart_21;
}
  where
    a4 : ℕ
    a4 = entry_at (align_down root) virt 39

    a3 : ℕ
    a3 = entry_at t3 virt 30

    a2 : ℕ
    a2 = entry_at t2 virt 21

    m1 : ℕ → ℕ
    m1 = opened mem a4

    m2 : ℕ → ℕ
    m2 = opened m1 a3

-- So does a write to the page's own entry.
pub store-HasTables :
    (root virt t3 t2 t1 v : ℕ) (mem : ℕ → ℕ)
    → HasTables root virt t3 t2 t1 mem
    → HasTables root virt t3 t2 t1 (store mem (entry_at t1 virt 12) v)
store-HasTables root virt t3 t2 t1 v mem has = record {
  root_pos = has.root_pos;
  to_t3 = keep (entry_at (align_down root) virt 39) t3 has.apart_41 has.to_t3;
  to_t2 = keep (entry_at t3 virt 30) t2 has.apart_31 has.to_t2;
  to_t1 = keep (entry_at t2 virt 21) t1 has.apart_21 has.to_t1;
  apart_43 = has.apart_43;
  apart_42 = has.apart_42;
  apart_41 = has.apart_41;
  apart_32 = has.apart_32;
  apart_31 = has.apart_31;
  apart_21 = has.apart_21;
}
  where
    keep :
        (a t : ℕ)
        → a ≢ entry_at t1 virt 12
        → LeadsTo (mem a) t
        → LeadsTo (store mem (entry_at t1 virt 12) v a) t
    keep a t n l = subst (λ e. LeadsTo e t) (sym (store_ne mem (entry_at t1 virt 12) a v n)) l

-- The walk leaves the page's own entry alone.
pub walked-slot :
    (root virt t3 t2 t1 : ℕ) (mem : ℕ → ℕ)
    → HasTables root virt t3 t2 t1 mem
    → walked root virt t3 t2 mem (entry_at t1 virt 12) ≡ mem (entry_at t1 virt 12)
walked-slot root virt t3 t2 t1 mem has =
    let a4 = entry_at (align_down root) virt 39 in
    let a3 = entry_at t3 virt 30 in
    let a2 = entry_at t2 virt 21 in
    let a1 = entry_at t1 virt 12 in
    let m1 = opened mem a4 in
    let m2 = opened m1 a3 in
    store_ne m2 a2 a1 (permissive (m2 a2)) (λ e. has.apart_21 (sym e))
    ∙ store_ne m1 a3 a1 (permissive (m1 a3)) (λ e. has.apart_31 (sym e))
    ∙ store_ne mem a4 a1 (permissive (mem a4)) (λ e. has.apart_41 (sym e))
