-- ===== src/Crc/Tests.antt =====
-- The checksum of the digits 1 to 9, and the theorems at that buffer.
use nekrnl.Prelude.{ℕ, ◌+◌, ◌-◌, ◌≡◌, ◌≢◌, refl, arith, store, ltb, leb, ◌&&◌, if◌then◌else◌}
use nekrnl.Prelude.Int.{pos, negsuc}
use nekrnl.Crc.{complement, calculate_crc32}
use nekrnl.Crc.Poly.{AreBytes, remainder, bytes, calculate_crc32-remainder}
use nekrnl.Crc.Detect.{calculate_crc32-store}

-- The characters stand at 0x100.
abbrev digits_at : ℕ → ℕ
digits_at a = if leb 0x100 a && ltb a 0x109 then b'1' + (a - 0x100) else 0

crc_digits : calculate_crc32 digits_at 0x100 (pos 9) ≡ 0xcbf4_3926
unfolding calculate_crc32 nekrnl.Crc.checksum_polys
crc_digits = refl

crc_null : calculate_crc32 digits_at 0 (pos 9) ≡ 0xffff_ffff
unfolding calculate_crc32 nekrnl.Crc.checksum_polys
crc_null = refl

crc_negative : calculate_crc32 digits_at 0x100 (negsuc 3) ≡ 0
unfolding calculate_crc32 nekrnl.Crc.checksum_polys
crc_negative = refl

digits_at-AreBytes : AreBytes digits_at
digits_at-AreBytes a = ground arith

calculate_crc32-remainder_example :
    calculate_crc32 digits_at 0x100 (pos 9)
    ≡ complement (remainder 0xffff_ffff (bytes 9 digits_at 0x100))
calculate_crc32-remainder_example =
    calculate_crc32-remainder digits_at 0x100 (pos 9) digits_at-AreBytes (omega arith)

calculate_crc32-store_example :
    calculate_crc32 (store digits_at 0x104 b'7') 0x100 (pos 9)
    ≢ calculate_crc32 digits_at 0x100 (pos 9)
calculate_crc32-store_example =
    calculate_crc32-store digits_at 0x100 9 0x104 b'7' digits_at-AreBytes (omega arith)
      (omega arith) (omega arith) (omega arith) (omega arith)
