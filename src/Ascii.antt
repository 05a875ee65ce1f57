-- ===== src/Ascii.antt =====
-- private/minkernel/src/AsciiUtils.cpp: byte strings and buffers in memory. `mem` holds the byte at each
-- address, a pointer is an address, and 0 is the null pointer.
mod Tests
pub mod Buffer
pub mod Text
pub mod Search
pub mod Number
pub mod Digits
pub mod Roundtrip
use nekrnl.Prelude.{
  ℕ, zero, suc, ◌+◌, ◌-◌, ◌*◌, ◌/◌, ◌%◌, ◌^◌, Bool, true, false, not, ◌&&◌, ◌||◌, ltb, leb, ◌==◌,
  if◌then◌else◌, List, [], ◌∷◌, get_or, Option, none, some, store,
}
use nekrnl.Prelude.Int.{ℤ, pos, negsuc, pos_part, ◌-ℤ◌, ◌+ℤ◌, ltb_ℤ, leb_ℤ}

abbrev pub Memory : Type 0
Memory = ℕ → ℕ

-- A `Char` as an `Int32`: it is signed.
abbrev pub char_value : ℕ → ℤ
char_value c = if ltb c 0x80 then pos c else negsuc (0xff - c)

-- `static_cast<Int>(len)`
abbrev pub to_int32 : ℕ → ℤ
to_int32 n =
    if ltb (n % 2 ^ 32) (2 ^ 31) then pos (n % 2 ^ 32) else negsuc (2 ^ 32 - n % 2 ^ 32 - 1)

-- `rt_string_cmp`, with the bytes left.
pub string_cmp : Memory → ℕ → ℕ → ℕ → ℤ
string_cmp mem src cmp zero = pos 0
string_cmp mem src cmp (suc size) =
    let rest = string_cmp mem (src + 1) (cmp + 1) size in
    if mem src == mem cmp then rest else char_value (mem src) -ℤ char_value (mem cmp)

-- `rt_string_len` with a bound: the rounds left, and the length so far.
pub string_len_from : Memory → ℕ → ℕ → ℕ → ℕ
string_len_from mem str zero len = len
string_len_from mem str (suc left) len =
    let rest = string_len_from mem str left (len + 1) in if mem (str + len) == 0 then len else rest

pub string_len_max : Memory → ℕ → ℕ → ℕ
unfolding string_len_from
string_len_max mem str max_len = string_len_from mem str max_len 0

-- `rt_string_len` with no bound, on fuel.
pub string_len_loop : ℕ → Memory → ℕ → ℕ → Option ℕ
string_len_loop zero mem ptr cnt = none
string_len_loop (suc fuel) mem ptr cnt =
    let rest = string_len_loop fuel mem ptr (cnt + 1) in
    if mem (ptr + cnt) == 0 then some cnt else rest

pub string_len : ℕ → Memory → ℕ → Option ℕ
unfolding string_len_loop
string_len fuel mem ptr = string_len_loop fuel mem ptr 0

-- `for (Size i{}; i < len; ++i) p[i] = v;`
pub fill : Memory → ℕ → ℕ → ℕ → Memory
fill mem p v zero = mem
fill mem p v (suc len) = fill (store mem p v) (p + 1) v len

-- `for (Size i{}; i < len; ++i) d[i] = s[i];`
pub copy : Memory → ℕ → ℕ → ℕ → Memory
copy mem s d zero = mem
copy mem s d (suc len) = copy (store mem d (mem s)) (s + 1) (d + 1) len

-- `rt_set_memory_safe`, with the pointer that it returns. `value & 0xFF` is the byte.
pub set_memory_safe : Memory → ℕ → ℕ → ℕ → ℕ → ℕ × Memory
unfolding fill
set_memory_safe mem dst value len dst_size =
    if dst == 0 || ltb dst_size len then (0, mem) else (dst, fill mem dst (value % 2 ^ 8) len)

-- `rt_zero_memory`
pub zero_memory : Memory → ℕ → ℕ → Memory
unfolding set_memory_safe
zero_memory mem pointer len = (set_memory_safe mem pointer 0 len len).1

-- `rt_set_memory`
pub set_memory : Memory → ℕ → ℕ → ℕ → ℕ × Memory
unfolding fill
set_memory mem src value len =
    if src == 0 then (0, mem) else (src, fill mem src (value % 2 ^ 8) len)

-- `rt_copy_memory`
pub copy_memory : Memory → ℕ → ℕ → ℕ → ℤ × Memory
unfolding copy
copy_memory mem src dst len =
    if len == 0
    then (pos 0, mem)
    else if src == 0 || dst == 0
    then (negsuc 0, mem)
    else (to_int32 len, copy mem src dst len)

-- `rt_copy_memory_safe`
pub copy_memory_safe : Memory → ℕ → ℕ → ℕ → ℕ → ℤ × Memory
unfolding copy set_memory_safe
copy_memory_safe mem src dst len dst_size =
    if src == 0 || dst == 0 || ltb dst_size len
    then (
      negsuc 0,
      if not (dst == 0) && not (dst_size == 0)
          then (set_memory_safe mem dst 0 dst_size dst_size).1
          else mem,
    )
    else (to_int32 len, copy mem src dst len)

-- `rt_alloc_string` behind the length; `buffer` is what `new Char[slen + 1]` returns.
pub alloc_copy : Memory → ℕ → ℕ → ℕ → ℕ × Memory
alloc_copy mem src buffer slen =
    if buffer == 0
    then (0, mem)
    else let cleared = (set_memory mem buffer 0 slen).1 in
      let (r, copied) = copy_memory_safe cleared src buffer slen (slen + 1) in
      if ltb_ℤ r (pos 0) then (0, copied) else (buffer, store copied (buffer + slen) 0)

-- `rt_alloc_string`
pub alloc_string : ℕ → Memory → ℕ → ℕ → Option (ℕ × Memory)
alloc_string fuel mem src buffer = elim (string_len fuel mem src) [
  | none ↦ none
  | some slen ↦ some (alloc_copy mem src buffer slen)
]

-- `rt_to_uppercase`, `rt_to_lower`, `rt_is_alnum`, `rt_is_space`, `rt_is_newln`
pub to_uppercase : ℤ → ℤ
to_uppercase ch = if leb_ℤ (pos b'a') ch && leb_ℤ ch (pos b'z') then ch -ℤ pos 0x20 else ch

pub to_lower : ℤ → ℤ
to_lower ch = if leb_ℤ (pos b'A') ch && leb_ℤ ch (pos b'Z') then ch +ℤ pos 0x20 else ch

unfoldable pub is_alnum : ℤ → Bool
is_alnum ch =
    leb_ℤ (pos b'a') ch && leb_ℤ ch (pos b'z')
    || leb_ℤ (pos b'A') ch && leb_ℤ ch (pos b'Z')
    || leb_ℤ (pos b'0') ch && leb_ℤ ch (pos b'9')

-- `rt_string_in_string`, with the positions left; the result is a pointer.
pub find_from : Memory → ℕ → ℕ → ℕ → ℕ → ℕ
find_from mem haystack needle needle_len zero = 0
find_from mem haystack needle needle_len (suc left) =
    let rest = find_from mem (haystack + 1) needle needle_len left in
    elim (string_cmp mem haystack needle needle_len) [ pos zero ↦ haystack | _ ↦ rest ]

pub string_in_string : ℕ → Memory → ℕ → ℕ → Option ℕ
string_in_string fuel mem haystack needle =
    if haystack == 0 || needle == 0 then some 0 else elim (string_len fuel mem needle) [
      | none ↦ none
      | some needle_len ↦ elim (string_len fuel mem haystack) [
        | none ↦ none
        | some hay_len ↦
            if ltb hay_len needle_len
            then some 0
            else some (find_from mem haystack needle needle_len (hay_len - needle_len + 1))
      ]
    ]

-- `rt_string_has_char`, on fuel.
pub has_char_loop : ℕ → Memory → ℕ → ℕ → Option ℕ
has_char_loop zero mem str ch = none
has_char_loop (suc fuel) mem str ch =
    let rest = has_char_loop fuel mem (str + 1) ch in
    if not (mem str == 0) && not (mem str == ch)
    then rest
    else some (if mem str == ch then str else 0)

pub string_has_char : ℕ → Memory → ℕ → ℕ → Option ℕ
unfolding has_char_loop
string_has_char fuel mem str ch = if str == 0 then some 0 else has_char_loop fuel mem str ch
