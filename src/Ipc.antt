-- ===== src/Ipc.antt =====
-- Messages between processes: private/minkernel/src/Network/IPCMessage.cpp and
-- private/minkernel/src/Network/IPCAddress.cpp. The bytes of a message lie in memory, at its `data_at`.
pub mod Delivery
mod Tests
use nekrnl.Prelude.{
  ℕ, zero, suc, ◌+◌, ◌-◌, ◌%◌, ◌^◌, Bool, true, false, not, ◌&&◌, ◌||◌, ltb, ◌==◌, if◌then◌else◌,
  Option, none, some,
}
use nekrnl.Ascii.{Memory, copy_memory_safe}

pub record Address : Type 0 where
  pub process_id : ℕ
  pub process_team : ℕ

-- `IPC_ADDR::operator==`
abbrev pub same_address : Address → Address → Bool
same_address a b = b.process_id == a.process_id && b.process_team == a.process_team

-- `IPC_ADDR::operator!=`
abbrev pub other_address : Address → Address → Bool
other_address a b = not (b.process_id == a.process_id) || not (b.process_team == a.process_team)

pub record Message : Type 0 where
  pub header_magic : ℕ
  pub endianess : ℕ
  pub packet_size : ℕ
  pub from_address : Address
  pub to_address : Address
  pub crc32 : ℕ
  pub msg : ℕ
  pub msg_sz : ℕ
  pub lock : ℕ
  pub size : ℕ
  pub data_at : ℕ

abbrev pub header_magic_value : ℕ
header_magic_value = 0x4950434

abbrev pub little_endian : ℕ
little_endian = 10

abbrev pub big_endian : ℕ
big_endian = 11

abbrev pub mixed_endian : ℕ
mixed_endian = 12

abbrev pub lock_free : ℕ
lock_free = 1

abbrev pub lock_used : ℕ
lock_used = 2

-- `sizeof(IPC_MSG)`: 77 bytes of fields, aligned to 8.
abbrev pub message_bytes : ℕ
message_bytes = 80

-- `kErrorIPC`
abbrev pub error_ipc : ℕ
error_ipc = 59

pub data Endian : Type 0 where
  endian_invalid endian_big endian_little endian_mixed endian_count : Endian

-- `RTL_ENDIAN`, on the first byte at the address.
abbrev pub rtl_endian : ℕ → ℕ → Endian
rtl_endian first value = if first == value then endian_big else endian_little

-- The first byte of a message: the low byte of its first word.
abbrev pub first_byte : Message → ℕ
first_byte m = m.header_magic % 256

-- The byte order that a message may not claim.
abbrev pub is_wrong_endian : Endian → Message → Bool
is_wrong_endian endian_invalid m = true
is_wrong_endian endian_big m = m.endianess == little_endian
is_wrong_endian endian_little m = m.endianess == big_endian
is_wrong_endian endian_mixed m = m.endianess == mixed_endian
is_wrong_endian endian_count m = true

abbrev pub sanitize_message : Message → ℕ → Bool × ℕ
sanitize_message m error =
    if is_wrong_endian (rtl_endian (first_byte m) (first_byte m)) m
      || (same_address m.from_address m.to_address || ltb m.packet_size 1)
    then (false, error_ipc)
    else (ltb 1 m.packet_size && m.header_magic == header_magic_value, error)

-- `ipc_int_sanitize_packet`, with the local error code; `none` is a null pointer.
unfoldable pub int_sanitize_packet : Option Message → ℕ → Bool × ℕ
int_sanitize_packet none error = (false, error)
int_sanitize_packet (some m) error = sanitize_message m error

-- `ipc_sanitize_packet`
unfoldable pub sanitize_packet : Option Message → ℕ → Bool × ℕ
sanitize_packet none error = (false, error)
sanitize_packet (some m) error =
    let (valid, after) = int_sanitize_packet (some m) error in
    if not valid then (false, after) else (true, after)

pub data Constructed : Type 0 where
  refused panics : Constructed
  constructed : Message → Constructed

-- `static_cast<UInt8>(endianess)`
abbrev pub endian_byte : Endian → ℕ
endian_byte endian_invalid = 0
endian_byte endian_big = 1
endian_byte endian_little = 2
endian_byte endian_mixed = 3
endian_byte endian_count = 4

abbrev pub no_address : Address
no_address = record { process_id = 0; process_team = 0 }

-- `ipc_construct_packet` on a message.
abbrev pub fill_packet : Message → Message
fill_packet m = record m {
  endianess = endian_byte (rtl_endian (first_byte m) (first_byte m));
  header_magic = header_magic_value;
  packet_size = message_bytes;
  to_address = no_address;
  from_address = no_address;
  lock = lock_free;
}

-- `new IPC_MSG()`
abbrev pub new_message : Message
new_message = record {
  header_magic = 0;
  endianess = 0;
  packet_size = 0;
  from_address = no_address;
  to_address = no_address;
  crc32 = 0;
  msg = 0;
  msg_sz = 0;
  lock = 0;
  size = 0;
  data_at = 0;
}

-- `ipc_construct_packet`: the argument is null, or points to a pointer that is null or not;
-- `room` says whether `new` finds memory.
unfoldable pub construct_packet : Bool → Option (Option Message) → Constructed
construct_packet room none = refused
construct_packet true (some none) = constructed (fill_packet new_message)
construct_packet false (some none) = panics
construct_packet room (some (some m)) = constructed (fill_packet m)

-- The messages by their addresses, and memory.
pub record Store : Type 0 where
  pub messages : ℕ → Message
  pub memory : Memory

abbrev pub set_lock : ℕ → ℕ → Store → Store
set_lock p value s = record s {
  messages = λ q. if q == p then record (s.messages q) { lock = value } else s.messages q;
}

-- The loop of `IPC_MSG::Pass` that waits for the lock, which nobody else changes meanwhile: it
-- answers whether the lock was let go.
unfoldable pub wait_for : ℕ → ℕ → ℕ → Option Bool
wait_for zero lock timeout = none
wait_for (suc fuel) lock timeout =
    let rest = wait_for fuel lock timeout in
    if lock % lock_used == 0 then some true else if ltb 1000000 timeout then some false else rest

-- `IPC_MSG::Pass` behind the lock.
abbrev pub pass_locked : ℕ → ℕ → Store → Store
pass_locked src target s =
    let held = set_lock target (((s.messages target).lock + 1) % 2 ^ 32) s in
    let from = held.messages src in
    let to = held.messages target in
    let copied = record held {
      memory = (copy_memory_safe held.memory from.data_at to.data_at from.size to.size).1;
    } in
    set_lock target (((copied.messages target).lock + (2 ^ 32 - 1)) % 2 ^ 32) copied

-- `IPC_MSG::Pass`
unfoldable pub pass : ℕ → ℕ → ℕ → Store → Option (Bool × Store)
pass fuel src target s =
    if not (src == 0) && (not (target == 0) && not (target == src))
    then if ltb (s.messages src).size (s.messages target).size
      then some (false, s)
      else elim (wait_for fuel (s.messages target).lock 0) [
        | none ↦ none
        | some false ↦ some (false, s)
        | some true ↦ some (true, pass_locked src target s)
      ]
    else some (false, s)
