-- ===== src/Nefs/Bits.antt =====
-- The flag bits of catalogs and forks, of private/minkernel/FSKit/NeFS.h.
use nekrnl.Prelude.{
  ℕ, ◌/◌, ◌≡◌, refl, true, false, bit_or, arith, Bool-cases, inl, inr, ==_iff, ◌==◌, bit_and, ◌^◌,
  ◌-◌,
}
use nekrnl.Prelude.Bits.{and_half, and_odd, or_half, or_odd}
use nekrnl.Nefs.{is_created, mark_deleted, flag_created, flag_deleted}

not_zero : (n : ℕ) → (n ≡ 0 → ⊥) → (n == 0) ≡ false
not_zero n h = elim (Bool-cases (n == 0)) [ inl e ↦ absurd (h ((==_iff n 0).0 e)) | inr e ↦ e ]

-- A deleted entry still tests as created: the two flags share bits.
pub is_created-mark_deleted : (bits flags : ℕ) → is_created (mark_deleted bits flags) ≡ true
unfolding is_created mark_deleted
is_created-mark_deleted bits flags =
    let x = bit_and flags (2 ^ bits - 1 - flag_created) in
    let y = bit_or x flag_deleted in
    rw
      (not_zero (bit_and y flag_created)
        (λ z. omega (arith, z, and_half y 71, and_odd (y / 2) 35, or_half x 70, or_odd (x / 2) 35)))
      refl

pub is_created-or : (flags : ℕ) → is_created (bit_or flags flag_created) ≡ true
unfolding is_created
is_created-or flags =
    let y = bit_or flags flag_created in
    rw (not_zero (bit_and y flag_created) (λ z. omega (arith, z, and_odd y 71, or_odd flags 71)))
      refl
