-- ===== src/Ipc/Tests.antt =====
-- Runs on two messages of four bytes, at the addresses 1 and 2, whose bytes lie at 16 and 40.
use nekrnl.Prelude.{◌+◌, ◌≡◌, refl, true, false, ◌==◌, if◌then◌else◌, none, some, arith, inr}
use nekrnl.Ascii.{Memory}
use nekrnl.Ipc.{
  Message, Store, construct_packet, fill_packet, new_message, sanitize_packet, int_sanitize_packet,
  pass, error_ipc, header_magic_value,
}
use nekrnl.Ipc.Delivery.{Passed, construct_packet-pass_never_ends, pass-Passed}

abbrev bytes : Memory
bytes a = a + 1

abbrev source : Message
source = record new_message {
  header_magic = header_magic_value;
  packet_size = 80;
  to_address = record { process_id = 7; process_team = 1 };
  size = 4;
  data_at = 16;
}

abbrev quiet : Message
quiet = record source { data_at = 40 }

abbrev two : Message → Store
two m = record { messages = λ p. if p == 2 then m else source; memory = bytes }

accepted : sanitize_packet (some source) 0 ≡ (true, 0)
unfolding sanitize_packet int_sanitize_packet
accepted = refl

short : sanitize_packet (some (record source { packet_size = 0 })) 0 ≡ (false, error_ipc)
unfolding sanitize_packet int_sanitize_packet
short = refl

null_target : pass 9 1 0 (two quiet) ≡ some (false, two quiet)
unfolding pass
null_target = refl

construct_packet-pass_never_ends_example :
    (sanitize_packet (some (fill_packet quiet)) 0 ≡ (false, error_ipc))
    × (pass 9 1 2 (two (fill_packet quiet)) ≡ none)
unfolding construct_packet
construct_packet-pass_never_ends_example =
    construct_packet-pass_never_ends 9 1 2 0 true (some (some quiet)) (two (fill_packet quiet)) refl
      (omega arith) (omega arith) (omega arith) (omega arith)

pass-Passed_example :
    (s' : Store) × (pass 1 1 2 (two quiet) ≡ some (true, s')) × Passed 1 2 (two quiet) s'
pass-Passed_example =
    pass-Passed 0 1 2 (two quiet) (omega arith) (omega arith) (omega arith) refl (omega arith)
      (omega arith) (omega arith) refl (inr (omega arith))
