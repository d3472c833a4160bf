-- ===== src/Client/Sent.antt =====
-- What a sent batch is, on every outcome of the hook and the transport.
use wardex_sdk.Prelude.{
  ℕ, ◌+◌, ◌-◌, ◌≡◌, ◌∙◌, refl, Bool, true, false, List, length, arith, if◌then◌else◌,
}
use wardex_sdk.Assembly.DropReasons.{DropReason}
use wardex_sdk.Client.State.{
  Client, Span, recorded_items, attached, settled_unsent, settled_done, tell,
}
use wardex_sdk.Client.Drain.{
  Hook, no_hook, hook_raises, hook_drops, hook_keeps, Export, export_raises, shipped, undelivered,
  take_back, ship, attach_and_ship, send,
}
use wardex_sdk.Client.Measures.{losses, known}
use wardex_sdk.Client.Conservation.{known-take_back}

-- Whether a batch leaves the client: the hook lets it pass, and the transport does not decline it.
unfoldable pub leaves : Hook → Export → Bool
leaves hook_raises export = false
leaves hook_drops export = false
leaves no_hook undelivered = false
leaves no_hook shipped = true
leaves no_hook (export_raises settled) = true
leaves (hook_keeps n m) undelivered = false
leaves (hook_keeps n m) shipped = true
leaves (hook_keeps n m) (export_raises settled) = true

-- How many items of a batch of `n` the envelope carries that the hook lets pass.
unfoldable pub carried : Hook → ℕ → ℕ
carried no_hook n = n
carried hook_raises n = 0
carried hook_drops n = 0
carried (hook_keeps k j) n = k + j

-- The items of a batch of `n` that are with the transport, those that the hook took out of the envelope,
-- of which nothing is recorded, and those that it put in.
unfoldable pub went : Hook → Export → ℕ → ℕ
unfolding leaves carried
went hook export n = if leaves hook export then carried hook n else 0

unfoldable pub filtered_out : Hook → Export → ℕ → ℕ
unfolding leaves carried
filtered_out hook export n = if leaves hook export then n - carried hook n else 0

unfoldable pub added_in : Hook → Export → ℕ → ℕ
unfolding leaves carried
added_in hook export n = if leaves hook export then carried hook n - n else 0

-- A batch that leaves is with the transport or filtered out.
pub leaves_lem :
    (hook : Hook) (export : Export) (n : ℕ)
    → (if leaves hook export then n else 0) + added_in hook export n
      ≡ went hook export n + filtered_out hook export n
unfolding went filtered_out added_in
leaves_lem hook export n = ground arith

-- What is recorded as lost of a batch that left: all that its envelope carried, where the export
-- raised and had not settled it.
unfoldable pub charged : Hook → Export → ℕ → ℕ → ℕ
charged no_hook (export_raises false) n m = n + m
charged (hook_keeps k j) (export_raises false) n m = k + j
charged hook_raises export n m = 0
charged hook_drops export n m = 0
charged no_hook (export_raises true) n m = 0
charged no_hook shipped n m = 0
charged no_hook undelivered n m = 0
charged (hook_keeps k j) (export_raises true) n m = 0
charged (hook_keeps k j) shipped n m = 0
charged (hook_keeps k j) undelivered n m = 0

-- Calls that record no loss.
known-attached : (n : ℕ) (c : Client) → known (tell (attached n) c) ≡ known c
unfolding known tell losses
known-attached n c = refl

known-unsent :
    (definite last : Bool) (c : Client) → known (tell (settled_unsent definite last) c) ≡ known c
unfolding known tell losses
known-unsent definite last c = refl

known-done : (c : Client) → known (tell settled_done c) ≡ known c
unfolding known tell losses
known-done c = refl

known-items :
    (r : DropReason) (n m : ℕ) (c : Client)
    → known (tell (recorded_items r n m) c) ≡ known c + (n + m)
unfolding known tell losses
known-items r n m c = omega arith

module _ (final : Bool) (ss : List Span) (xs : List ℕ) (c : Client) where
  pub attach_and_ship-undelivered :
      (n m : ℕ)
      → known (attach_and_ship final undelivered n m ss xs c) ≡ known c + (length ss + length xs)
  unfolding attach_and_ship ship
  attach_and_ship-undelivered n m =
      let d = tell (attached (length ss + length xs)) c in
      let e = take_back final ss xs d in
      omega (
        arith,
        known-attached (length ss + length xs) c,
        known-take_back final ss xs d,
        known-unsent true false e,
        known-done (tell (settled_unsent true false) e),
      )

  pub attach_and_ship-shipped :
      (n m : ℕ) → known (attach_and_ship final shipped n m ss xs c) ≡ known c
  unfolding attach_and_ship ship
  attach_and_ship-shipped n m =
      let d = tell (attached (length ss + length xs)) c in
      known-done d ∙ known-attached (length ss + length xs) c

  pub attach_and_ship-raises :
      (settled : Bool) (n m : ℕ)
      → known (attach_and_ship final (export_raises settled) n m ss xs c)
        ≡ known c + (if settled then 0 else n + m)
  unfolding attach_and_ship ship
  attach_and_ship-raises true n m =
      let d = tell (attached (length ss + length xs)) c in
      omega (arith, known-attached (length ss + length xs) c, known-unsent false true d)
  attach_and_ship-raises false n m =
      let d = tell (attached (length ss + length xs)) c in
      let e = tell (recorded_items DropReason.send_error n m) d in
      omega (
        arith,
        known-attached (length ss + length xs) c,
        known-items DropReason.send_error n m d,
        known-unsent false true e,
      )

  -- What is known after a batch is sent, whatever the hook and the transport do.
  pub known-send :
      (hook : Hook) (export : Export)
      → known (send final hook export ss xs c)
          + (if leaves hook export then length ss + length xs else 0)
        ≡ known c + (length ss + length xs) + charged hook export (length ss) (length xs)
  unfolding send leaves charged
  known-send hook_raises export =
      omega (arith, known-items DropReason.before_send_error (length ss) (length xs) c)
  known-send hook_drops export =
      omega (arith, known-items DropReason.before_send (length ss) (length xs) c)
  known-send no_hook undelivered =
      omega (arith, attach_and_ship-undelivered (length ss) (length xs))
  known-send no_hook shipped = omega (arith, attach_and_ship-shipped (length ss) (length xs))
  known-send no_hook (export_raises true) =
      omega (arith, attach_and_ship-raises true (length ss) (length xs))
  known-send no_hook (export_raises false) =
      omega (arith, attach_and_ship-raises false (length ss) (length xs))
  known-send (hook_keeps n m) undelivered = omega (arith, attach_and_ship-undelivered n m)
  known-send (hook_keeps n m) shipped = omega (arith, attach_and_ship-shipped n m)
  known-send (hook_keeps n m) (export_raises true) = omega (arith, attach_and_ship-raises true n m)
  known-send (hook_keeps n m) (export_raises false) =
      omega (arith, attach_and_ship-raises false n m)
