-- ===== src/Prelude/Words.antt =====
-- 64-bit machine words as native numbers: `UIntPtr`, `SizeT`, `UInt64`. Sums wrap at 2 ^ 64.
use Prim.Native.Nat.{ℕ, ◌+◌, ◌-◌, ◌%◌, ◌^◌}
use mathlib.Core.Path.{◌≡◌}
use mathlib.Core.Logic.{◌≢◌}
use native.Mathlib.Omega.{arith}
use nekrnl.Prelude.Tests.{◌==◌, if◌then◌else◌}

abbrev pub word : ℕ
word = 2 ^ 64

abbrev pub add64 : ℕ → ℕ → ℕ
add64 a b = (a + b) % word

abbrev pub sub64 : ℕ → ℕ → ℕ
sub64 a b = (a + word - b % word) % word

-- `kPageSize`
abbrev pub page_size : ℕ
page_size = 0x1000

-- `x & ~(kPageSize - 1)`
abbrev pub align_down : ℕ → ℕ
align_down x = x - x % page_size

-- A write to memory, one cell to an address.
abbrev pub store : (ℕ → ℕ) → ℕ → ℕ → ℕ → ℕ
store mem p v a = if a == p then v else mem a

pub store_self : (mem : ℕ → ℕ) (p v : ℕ) → store mem p v p ≡ v
store_self mem p v = ground arith

pub store_ne : (mem : ℕ → ℕ) (p a v : ℕ) → a ≢ p → store mem p v a ≡ mem a
store_ne mem p a v n = ground arith

pub store_hit : (mem : ℕ → ℕ) (p a v : ℕ) → a ≡ p → store mem p v a ≡ v
store_hit mem p a v e = ground arith
