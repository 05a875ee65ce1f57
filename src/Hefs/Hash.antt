-- ===== src/Hefs/Hash.antt =====
-- The hash of paths: `hefsi_hash_64` and `hefsi_to_big_endian_64` of
-- private/minkernel/src/FS/OpenHeFS+FileSystemParser.cpp.
use nekrnl.Prelude.{ℕ, ◌+◌, ◌*◌, ◌/◌, ◌%◌, ◌^◌, ◌≡◌, ◌<◌, List, [], ◌∷◌, bit_xor, word, arith}

-- `hefsi_to_big_endian_64`: the shifts and masks pick the eight bytes.
unfoldable pub to_big_endian_64 : ℕ → ℕ
to_big_endian_64 v =
    v / 2 ^ 56 % 256
    + v / 2 ^ 48 % 256 * 2 ^ 8
    + v / 2 ^ 40 % 256 * 2 ^ 16
    + v / 2 ^ 32 % 256 * 2 ^ 24
    + v / 2 ^ 24 % 256 * 2 ^ 32
    + v / 2 ^ 16 % 256 * 2 ^ 40
    + v / 2 ^ 8 % 256 * 2 ^ 48
    + v % 256 * 2 ^ 56

abbrev pub fnv_base_offset : ℕ
fnv_base_offset = 0xcbf29ce484222325

abbrev pub fnv_prime_number : ℕ
fnv_prime_number = 0x100000001b3

-- The loop over the path.
unfoldable pub hash_from : ℕ → List ℕ → ℕ
hash_from hash [] = hash
hash_from hash (c ∷ path) = hash_from (bit_xor hash c * fnv_prime_number % word) path

-- `hefsi_hash_64`
unfoldable pub hash_64 : List ℕ → ℕ
unfolding hash_from
hash_64 [] = 0
hash_64 (c ∷ path) = to_big_endian_64 (hash_from fnv_base_offset (c ∷ path))

-- Turning the bytes around twice gives the value back, for 64 bits.
pub to_big_endian_64_twice : (v : ℕ) → v < 2 ^ 64 → to_big_endian_64 (to_big_endian_64 v) ≡ v
unfolding to_big_endian_64
to_big_endian_64_twice v h = omega arith
