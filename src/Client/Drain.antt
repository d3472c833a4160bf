-- ===== src/Client/Drain.antt =====
-- `_drain`: the buffer is swapped out and shipped, and what the transport declines goes back.
use mathlib.Core.List.{reverse}
use wardex_sdk.Prelude.{
  ℕ, ◌+◌, Bool, true, false, not, ◌&&◌, ◌||◌, none, some, List, [], ◌∷◌, length, leb, if◌then◌else◌,
}
use wardex_sdk.Assembly.DropReasons.{DropReason, DropUnit}
use wardex_sdk.Assembly.Ledger.Wire.{is_empty}
use wardex_sdk.Client.State.{
  Client, Span, recorded, recorded_items, attached, settled_unsent, settled_done, tell, report_lost,
}
use wardex_sdk.Client.Capture.{is_full_for, capture_all, admit_all}

-- What `before_send_envelope` does: there is none, it raises, it returns None, or it returns an
-- envelope, with so many spans and snapshots.
pub data Hook : Type 0 where
  no_hook hook_raises hook_drops : Hook
  hook_keeps : ℕ → ℕ → Hook

-- What the transport's export does. Where it raises, it may have settled the batch already.
pub data Export : Type 0 where
  export_raises : Bool → Export
  shipped undelivered : Export

-- What a drain meets: whether it gets the export slot in time, whether the ledger is due, the host's
-- hook, the transport, and the spans that other threads capture while the batch is out.
pub record Meets : Type 0 where
  pub slot : Bool
  pub due : Bool
  pub hook : Hook
  pub export : Export
  pub meanwhile : List Span

-- The swap at the head of `_drain` and of `_abandon`.
unfoldable pub swap_out : Client → Client
swap_out c = record c { spans = []; bytes = 0; snapshots = []; dropped = 0 }

-- `_abandon`.
unfoldable pub abandon : Client → Client
unfolding swap_out report_lost
abandon c = report_lost (length c.spans + length c.snapshots) (swap_out c)

-- One span of the loop of `_return_to_buffer`.
unfoldable pub return_span : Span → Client → Client
unfolding is_full_for tell
return_span s c =
    if not (is_empty c.spans) && is_full_for s.size c
    then tell (recorded DropReason.queue_overflow none 1) (record c { dropped = c.dropped + 1 })
    else record c { spans = s ∷ c.spans; bytes = c.bytes + s.size }

unfoldable pub return_spans : List Span → Client → Client
unfolding return_span
return_spans [] c = c
return_spans (s ∷ ss) c = return_spans ss (return_span s c)

unfoldable pub return_snapshot : ℕ → Client → Client
unfolding tell
return_snapshot x c =
    if not (is_empty c.snapshots) && leb c.max_buffer_spans (length c.snapshots)
    then tell (recorded DropReason.queue_overflow (some DropUnit.snapshot) 1)
        (record c { dropped = c.dropped + 1 })
    else record c { snapshots = x ∷ c.snapshots }

unfoldable pub return_snapshots : List ℕ → Client → Client
unfolding return_snapshot
return_snapshots [] c = c
return_snapshots (x ∷ xs) c = return_snapshots xs (return_snapshot x c)

-- `_return_to_buffer` of a client that is open: newest first, in front of what came meanwhile.
unfoldable pub return_to_buffer : List Span → List ℕ → Client → Client
unfolding return_spans return_snapshots
return_to_buffer spans snapshots c =
    return_snapshots (reverse snapshots) (return_spans (reverse spans) c)

-- `_undelivered`.
unfoldable pub take_back : Bool → List Span → List ℕ → Client → Client
unfolding report_lost return_to_buffer
take_back final spans snapshots c =
    if final || c.closed
    then report_lost (length spans + length snapshots) c
    else return_to_buffer spans snapshots c

-- The export of an envelope of `n` spans and `m` snapshots, and what follows from its outcome.
unfoldable pub ship : Bool → Export → ℕ → ℕ → List Span → List ℕ → Client → Client
unfolding tell take_back
ship final (export_raises settled) n m spans snapshots c =
    let d = if settled then c else tell (recorded_items DropReason.send_error n m) c in
    tell (settled_unsent false true) d
ship final shipped n m spans snapshots c = tell settled_done c
ship final undelivered n m spans snapshots c =
    tell settled_done (tell (settled_unsent true false) (take_back final spans snapshots c))

unfoldable pub attach_and_ship : Bool → Export → ℕ → ℕ → List Span → List ℕ → Client → Client
unfolding ship
attach_and_ship final export n m spans snapshots c =
    ship final export n m spans snapshots (tell (attached (length spans + length snapshots)) c)

-- The hook, which is asked where there is a batch.
unfoldable pub send : Bool → Hook → Export → List Span → List ℕ → Client → Client
unfolding attach_and_ship
send final no_hook export spans snapshots c =
    attach_and_ship final export (length spans) (length snapshots) spans snapshots c
send final hook_raises export spans snapshots c =
    tell (recorded_items DropReason.before_send_error (length spans) (length snapshots)) c
send final hook_drops export spans snapshots c =
    tell (recorded_items DropReason.before_send (length spans) (length snapshots)) c
send final (hook_keeps n m) export spans snapshots c =
    attach_and_ship final export n m spans snapshots c

unfoldable pub drain_batch : Bool → Meets → List Span → List ℕ → Client → Client
unfolding send capture_all
drain_batch final env spans snapshots c =
    let d = capture_all env.meanwhile c in
    if is_empty spans && is_empty snapshots
    then if env.due then attach_and_ship final env.export 0 0 spans snapshots d else d
    else send final env.hook env.export spans snapshots d

unfoldable pub drain : Bool → Meets → Client → Client
unfolding abandon swap_out drain_batch
drain final env c =
    if env.slot
    then drain_batch final env c.spans c.snapshots (swap_out c)
    else if final
    then abandon c
    else c

-- `close`, with the deferred spans that its finalize queue admits before the last drain.
unfoldable pub close : List Span → Meets → Client → Client
unfolding drain admit_all
close deferred env c =
    if c.closed
    then c
    else drain true env
        (record (admit_all deferred (record c { closed = true })) { finalize_drained = true })
