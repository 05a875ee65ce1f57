-- ===== src/Ip.antt =====
-- Network addresses: private/minkernel/src/Network/IPAddress.cpp.
pub mod Compare
pub mod Version4
mod Tests
use nekrnl.Prelude.{
  ℕ, zero, suc, ◌+◌, Bool, true, false, not, ◌&&◌, ◌||◌, ltb, leb, ◌==◌, if◌then◌else◌, List, [],
  ◌∷◌, get_or, length, Option, none, some,
}
use nekrnl.Prelude.Int.{pos}
use nekrnl.Ascii.{is_alnum}

-- The bytes of a `RawIPAddress` (4 of them) or of a `RawIPAddress6` (16).
abbrev pub byte_at : List ℕ → ℕ → ℕ
byte_at addr i = get_or addr i 0

-- `RawIPAddress::Address`; `none` is the panic of `MUST_PASS`.
unfoldable pub address : List ℕ → Option (List ℕ)
address addr = if byte_at addr 0 == 0 then none else some addr

-- `RawIPAddress::operator[]` and `RawIPAddress6::operator[]`
unfoldable pub index4 : List ℕ → ℕ → ℕ
index4 addr i = if leb 4 i then b'0' else byte_at addr i

unfoldable pub index6 : List ℕ → ℕ → ℕ
index6 addr i = if leb 16 i then b'f' else byte_at addr i

-- The loops of `operator==` and `operator!=`, with the bytes left.
unfoldable pub equal_from : ℕ → ℕ → List ℕ → List ℕ → Bool
equal_from zero i other addr = true
equal_from (suc n) i other addr =
    let rest = equal_from n (i + 1) other addr in
    if not (byte_at other i == byte_at addr i) then false else rest

unfoldable pub differ_from : ℕ → ℕ → List ℕ → List ℕ → Bool
differ_from zero i other addr = true
differ_from (suc n) i other addr =
    let rest = differ_from n (i + 1) other addr in
    if byte_at other i == byte_at addr i then false else rest

-- `operator==` and `operator!=` of an address of `n` bytes.
unfoldable pub equals : ℕ → List ℕ → List ℕ → Bool
equals n other addr = if byte_at other 0 == 0 then false else equal_from n 0 other addr

unfoldable pub differs : ℕ → List ℕ → List ℕ → Bool
differs n other addr = if byte_at other 0 == 0 then false else differ_from n 0 other addr

abbrev pub equals4 : List ℕ → List ℕ → Bool
equals4 other addr = equals 4 other addr

abbrev pub differs4 : List ℕ → List ℕ → Bool
differs4 other addr = differs 4 other addr

abbrev pub equals6 : List ℕ → List ℕ → Bool
equals6 other addr = equals 16 other addr

abbrev pub differs6 : List ℕ → List ℕ → Bool
differs6 other addr = differs 16 other addr

-- The loop of `IPFactory::IpCheckVersion4` over the characters that are left; `none` is a refusal,
-- and the result the count of dots.
unfoldable pub check_from : List ℕ → ℕ → ℕ → Option ℕ
check_from [] cnter dots = some dots
check_from (c ∷ cs) cnter dots =
    let dotted = check_from cs 0 (dots + 1) in
    let digit = check_from cs (cnter + 1) dots in
    if c == b'.'
    then dotted
    else if ltb b'5' c || ltb c b'0'
    then none
    else if not (is_alnum (pos c))
    then none
    else if ltb 3 cnter
    then none
    else digit

abbrev pub three_dots : Option ℕ → Bool
three_dots none = false
three_dots (some dots) = dots == 3

-- `IPFactory::IpCheckVersion4`; `none` is a null string.
unfoldable pub check_version4 : Option (List ℕ) → Bool
check_version4 none = false
check_version4 (some ip) = three_dots (check_from ip 0 0)
