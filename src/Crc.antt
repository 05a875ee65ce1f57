-- ===== src/Crc.antt =====
-- private/minkernel/src/Crc32.cpp: the table-driven checksum over a buffer in memory.
mod Table
pub mod Poly
pub mod Detect
mod Tests
unfoldable pub use Table.{checksum_polys}
use nekrnl.Prelude.{
  ℕ, zero, suc, ◌+◌, ◌-◌, ◌/◌, ◌%◌, ◌^◌, bit_xor, get_or, ltb, ◌==◌, if◌then◌else◌,
}
use nekrnl.Prelude.Int.{ℤ, pos_part}

-- A `Char` byte as the 32-bit operand of `^`: it is signed, and promoted to `Int32`.
abbrev pub sign_extend : ℕ → ℕ
sign_extend c = if ltb c 0x80 then c else c + 0xffff_ff00

-- One round of the loop: `(crc >> 8) ^ kChecksumPolys[(crc ^ *(in++)) & 0xFF]`.
pub crc_step : ℕ → ℕ → ℕ
crc_step crc c =
    bit_xor (crc / 2 ^ 8) (get_or checksum_polys (bit_xor crc (sign_extend c) % 2 ^ 8) 0)

-- `while ((len--) > 0)`, with the rounds left; `mem` holds the byte at each address.
pub crc_loop : ℕ → (ℕ → ℕ) → ℕ → ℕ → ℕ
unfolding crc_step
crc_loop zero mem at crc = crc
crc_loop (suc n) mem at crc = crc_loop n mem (at + 1) (crc_step crc (mem at))

-- `~x` on 32 bits
abbrev pub complement : ℕ → ℕ
complement x = 0xffff_ffff - x

-- `ke_calculate_crc32`: 0 is the null pointer, and a negative length runs no round.
pub calculate_crc32 : (ℕ → ℕ) → ℕ → ℤ → ℕ
unfolding crc_loop
calculate_crc32 mem inp len =
    if inp == 0 then 0xffff_ffff else complement (crc_loop (pos_part len) mem inp 0xffff_ffff)
