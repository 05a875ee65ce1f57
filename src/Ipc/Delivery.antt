-- ===== src/Ipc/Delivery.antt =====
-- The messages that `ipc_construct_packet` of private/minkernel/src/Network/IPCMessage.cpp makes, and
-- what `IPC_MSG::Pass` does with a message whose lock is not held.
use nekrnl.Prelude.{
  ℕ, zero, suc, ◌+◌, ◌-◌, ◌%◌, ◌^◌, ◌≤◌, ◌<◌, ◌≡◌, ◌≢◌, refl, sym, ap, subst, Bool, true, false,
  ltb, ◌==◌, Option, none, some, arith,
}
use nekrnl.Ascii.Buffer.{Outside, CopyFits, copy_memory_safe-Copied}
use nekrnl.Ipc.{
  Message, Store, Constructed, refused, panics, constructed, construct_packet, sanitize_packet,
  int_sanitize_packet, pass, pass_locked, wait_for, fill_packet, new_message, lock_free, error_ipc,
}

wait_for_odd : (fuel lock : ℕ) → lock % 2 ≡ 1 → wait_for fuel lock 0 ≡ none
unfolding wait_for
wait_for_odd zero lock odd = refl
wait_for_odd (suc fuel) lock odd = rw odd (wait_for_odd fuel lock odd)

wait_for_even : (fuel lock : ℕ) → lock % 2 ≡ 0 → wait_for (suc fuel) lock 0 ≡ some true
unfolding wait_for
wait_for_even fuel lock even = rw even refl

differ : (p q : ℕ) → p ≢ q → (p == q) ≡ false
differ p q h = ground arith

same : (p : ℕ) → (p == p) ≡ true
same p = ground arith

fits : (a b : ℕ) → b ≤ a → ltb a b ≡ false
fits a b h = ground arith

-- Behind its tests, `Pass` waits for the lock of the target.
pass-wait_for :
    (fuel src target : ℕ) (s : Store)
    → src ≢ 0
    → target ≢ 0
    → target ≢ src
    → (s.messages target).size ≤ (s.messages src).size
    → pass fuel src target s ≡ elim (wait_for fuel (s.messages target).lock 0) [
      | none ↦ none
      | some false ↦ some (false, s)
      | some true ↦ some (true, pass_locked src target s)
    ]
unfolding pass
pass-wait_for fuel src target s a b c small =
    rw (differ src 0 a, differ target 0 b, differ target src c, fits _ _ small) refl

fill_packet-refused :
    (m : Message) (error : ℕ) → sanitize_packet (some (fill_packet m)) error ≡ (false, error_ipc)
unfolding sanitize_packet int_sanitize_packet
fill_packet-refused m error = rw (same (m.header_magic % 256)) refl

-- What `ipc_construct_packet` answers is a filled message, whose lock is free.
Filled : Message → Type 0
Filled m =
    ((error : ℕ) → sanitize_packet (some m) error ≡ (false, error_ipc)) × (m.lock ≡ lock_free)

-- The message of an answer that has one is filled.
AllFilled : Constructed → Type 0
AllFilled refused = true ≡ true
AllFilled panics = true ≡ true
AllFilled (constructed m) = Filled m

construct_packet-AllFilled :
    (room : Bool) (place : Option (Option Message)) → AllFilled (construct_packet room place)
unfolding construct_packet AllFilled Filled
construct_packet-AllFilled room none = refl
construct_packet-AllFilled true (some none) = (fill_packet-refused new_message, refl)
construct_packet-AllFilled false (some none) = refl
construct_packet-AllFilled room (some (some m)) = (fill_packet-refused m, refl)

construct_packet-Filled :
    (room : Bool) (place : Option (Option Message)) (m : Message)
    → construct_packet room place ≡ constructed m
    → Filled m
unfolding AllFilled
construct_packet-Filled room place m made =
    subst AllFilled made (construct_packet-AllFilled room place)

-- A message that `ipc_construct_packet` has made cannot be used: `ipc_sanitize_packet` refuses it
-- with `kErrorIPC`, since it goes from an address to the same one, and a call of `IPC_MSG::Pass`
-- with it as the target, from another message that is as large or larger, never returns, whatever
-- the fuel: the value of a free lock is odd.
pub construct_packet-pass_never_ends :
    (fuel src target error : ℕ) (room : Bool) (place : Option (Option Message)) (s : Store)
    → construct_packet room place ≡ constructed (s.messages target)
    → src ≢ 0
    → target ≢ 0
    → target ≢ src
    → (s.messages target).size ≤ (s.messages src).size
    → (sanitize_packet (some (s.messages target)) error ≡ (false, error_ipc))
      × (pass fuel src target s ≡ none)
unfolding Filled
construct_packet-pass_never_ends fuel src target error room place s made a b c small =
    let (bad, free) = construct_packet-Filled room place (s.messages target) made in
    (
      bad error,
      rw
          (
            pass-wait_for fuel src target s a b c small,
            wait_for_odd fuel (s.messages target).lock (ap (λ l. l % 2) free),
          )
          refl,
    )

let_go : (lock : ℕ) → lock < 2 ^ 32 → ((lock + 1) % 2 ^ 32 + (2 ^ 32 - 1)) % 2 ^ 32 ≡ lock
let_go lock h = omega arith

-- What `Pass` leaves: the bytes of the source at the target's, the rest of memory, and the
-- messages but for the lock of the target, which is back to its value.
pub record Passed (src target : ℕ) (s s' : Store) : Type 0 where
  pub bytes :
      (i : ℕ)
      → i < (s.messages src).size
      → s'.memory ((s.messages target).data_at + i) ≡ s.memory ((s.messages src).data_at + i)
  pub rest :
      (a : ℕ)
      → Outside (s.messages target).data_at (s.messages src).size a
      → s'.memory a ≡ s.memory a
  pub others : (p : ℕ) → p ≢ target → s'.messages p ≡ s.messages p
  pub kept : s'.messages target ≡ s.messages target

pass_locked-Passed :
    (src target : ℕ) (s : Store)
    → target ≢ src
    → (s.messages target).size ≡ (s.messages src).size
    → (s.messages src).data_at ≢ 0
    → (s.messages target).data_at ≢ 0
    → (s.messages target).lock < 2 ^ 32
    → CopyFits (s.messages src).data_at (s.messages target).data_at (s.messages src).size
    → Passed src target s (pass_locked src target s)
pass_locked-Passed src target s c sizes there here small fit =
    let from = s.messages src in
    let to = s.messages target in
    let copied =
      copy_memory_safe-Copied s.memory from.data_at to.data_at from.size to.size there here
        (omega arith) fit in
    record {
      bytes = rw (differ src target (λ e. c (sym e)), same target) copied.bytes;
      rest = rw (differ src target (λ e. c (sym e)), same target) copied.rest;
      others = λ p h. rw (differ p target h) refl;
      kept = rw (same target) (ap (λ l. record to { lock = l }) (let_go to.lock small));
    }

-- `IPC_MSG::Pass` between two messages of one size, when the target's lock has an even value,
-- copies the bytes of the source to those of the target, lets the lock go again and changes
-- nothing else. Neither bytes are at null, and they overlap at most downwards.
pub pass-Passed :
    (fuel src target : ℕ) (s : Store)
    → src ≢ 0
    → target ≢ 0
    → target ≢ src
    → (s.messages target).size ≡ (s.messages src).size
    → (s.messages src).data_at ≢ 0
    → (s.messages target).data_at ≢ 0
    → (s.messages target).lock < 2 ^ 32
    → (s.messages target).lock % 2 ≡ 0
    → CopyFits (s.messages src).data_at (s.messages target).data_at (s.messages src).size
    → (s' : Store) × (pass (suc fuel) src target s ≡ some (true, s')) × Passed src target s s'
pass-Passed fuel src target s a b c sizes there here small even fit = (
  pass_locked src target s,
  rw
      (
        pass-wait_for (suc fuel) src target s a b c (omega arith),
        wait_for_even fuel (s.messages target).lock even,
      )
      refl,
  pass_locked-Passed src target s c sizes there here small fit,
)
