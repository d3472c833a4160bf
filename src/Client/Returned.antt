-- ===== src/Client/Returned.antt =====
-- A drain keeps the buffer's bounds, whatever the hook and the transport do.
use mathlib.Core.List.{reverse}
use wardex_sdk.Prelude.{
  ℕ, ◌+◌, ◌≤◌, max, ◌≡◌, ◌⊎◌, refl, sym, ap, ◌∙◌, inl, inr, Bool, true, false, not, ◌&&◌, ◌||◌,
  List, [], ◌∷◌, length, arith, leb, Bool-cases, if◌then◌else◌,
}
use wardex_sdk.Assembly.Ledger.Wire.{is_empty}
use wardex_sdk.Client.State.{Client, Span, attached, tell, report_lost}
use wardex_sdk.Client.Capture.{is_full_for, capture_all}
use wardex_sdk.Client.Drain.{
  Hook, no_hook, hook_raises, hook_drops, hook_keeps, Export, export_raises, shipped, undelivered,
  Meets, swap_out, abandon, return_span, return_spans, return_snapshot, return_snapshots,
  return_to_buffer, take_back, ship, attach_and_ship, send, drain_batch, drain,
}
use wardex_sdk.Client.Measures.{total}
use wardex_sdk.Client.Bounds.{
  Fits, IsBuffer, fits-then, IsBuffer-if, IsBuffer-report_lost, capture_all-IsBuffer,
}

empty-cases {ℓ} : {A : Type ℓ} (xs : List A) → (length xs ≡ 0) ⊎ (is_empty xs ≡ false)
empty-cases [] = inl refl
empty-cases (x ∷ xs) = inr refl

prepend-Fits :
    (s : Span) (c : Client)
    → (not (is_empty c.spans) && is_full_for s.size c) ≡ false
    → IsBuffer c
    → Fits (s ∷ c.spans) (c.bytes + s.size) c.snapshots c.max_buffer_spans c.max_buffer_bytes
unfolding total
prepend-Fits s c room h = elim (empty-cases c.spans) [
  | inl e ↦ (omega (arith, h.0), omega (arith, e), inl (omega (arith, e)), h.3)
  | inr e ↦
      let fits = fits-then s.size c (sym (ap (λ b. not b && is_full_for s.size c) e) ∙ room) in
      (omega (arith, h.0), omega (arith, fits.0), inr (omega (arith, fits.1)), h.3)
]

return_span-IsBuffer : (s : Span) (c : Client) → IsBuffer c → IsBuffer (return_span s c)
unfolding return_span tell
return_span-IsBuffer s c h = elim (Bool-cases (not (is_empty c.spans) && is_full_for s.size c)) [
  | inl full ↦ rw full h
  | inr room ↦ rw room (prepend-Fits s c room h)
]

return_spans-IsBuffer : (ss : List Span) (c : Client) → IsBuffer c → IsBuffer (return_spans ss c)
unfolding return_spans
return_spans-IsBuffer [] c h = h
return_spans-IsBuffer (s ∷ ss) c h =
    return_spans-IsBuffer ss (return_span s c) (return_span-IsBuffer s c h)

few_snapshots :
    (x max_spans : ℕ) (xs : List ℕ)
    → (not (is_empty xs) && leb max_spans (length xs)) ≡ false
    → length (x ∷ xs) ≤ max 1 max_spans
few_snapshots x max_spans [] e = omega arith
few_snapshots x max_spans (y ∷ ys) e = ground arith

return_snapshot-IsBuffer : (x : ℕ) (c : Client) → IsBuffer c → IsBuffer (return_snapshot x c)
unfolding return_snapshot tell
return_snapshot-IsBuffer x c h =
    elim (Bool-cases (not (is_empty c.snapshots) && leb c.max_buffer_spans (length c.snapshots))) [
      | inl full ↦ rw full h
      | inr room ↦ rw room (h.0, h.1, h.2, few_snapshots x c.max_buffer_spans c.snapshots room)
    ]

return_snapshots-IsBuffer :
    (xs : List ℕ) (c : Client) → IsBuffer c → IsBuffer (return_snapshots xs c)
unfolding return_snapshots
return_snapshots-IsBuffer [] c h = h
return_snapshots-IsBuffer (x ∷ xs) c h =
    return_snapshots-IsBuffer xs (return_snapshot x c) (return_snapshot-IsBuffer x c h)

module _ (final : Bool) (ss : List Span) (xs : List ℕ) where
  take_back-IsBuffer : (c : Client) → IsBuffer c → IsBuffer (take_back final ss xs c)
  unfolding take_back return_to_buffer
  take_back-IsBuffer c h =
      IsBuffer-if (final || c.closed) (report_lost (length ss + length xs) c)
        (return_to_buffer ss xs c) (IsBuffer-report_lost (length ss + length xs) c h)
        (return_snapshots-IsBuffer (reverse xs) (return_spans (reverse ss) c)
          (return_spans-IsBuffer (reverse ss) c h))

  attach_and_ship-IsBuffer :
      (export : Export) (n m : ℕ) (c : Client)
      → IsBuffer c
      → IsBuffer (attach_and_ship final export n m ss xs c)
  unfolding attach_and_ship ship tell
  attach_and_ship-IsBuffer (export_raises true) n m c h = h
  attach_and_ship-IsBuffer (export_raises false) n m c h = h
  attach_and_ship-IsBuffer shipped n m c h = h
  attach_and_ship-IsBuffer undelivered n m c h =
      take_back-IsBuffer (tell (attached (length ss + length xs)) c) h

  send-IsBuffer :
      (hook : Hook) (export : Export) (c : Client)
      → IsBuffer c
      → IsBuffer (send final hook export ss xs c)
  unfolding send tell
  send-IsBuffer no_hook export c h = attach_and_ship-IsBuffer export (length ss) (length xs) c h
  send-IsBuffer hook_raises export c h = h
  send-IsBuffer hook_drops export c h = h
  send-IsBuffer (hook_keeps n m) export c h = attach_and_ship-IsBuffer export n m c h

  drain_batch-IsBuffer :
      (env : Meets) (c : Client) → IsBuffer c → IsBuffer (drain_batch final env ss xs c)
  unfolding drain_batch
  drain_batch-IsBuffer env c h =
      let d = capture_all env.meanwhile c in
      let k = capture_all-IsBuffer env.meanwhile c h in
      IsBuffer-if (is_empty ss && is_empty xs)
        (if env.due then attach_and_ship final env.export 0 0 ss xs d else d)
        (send final env.hook env.export ss xs d)
        (IsBuffer-if env.due (attach_and_ship final env.export 0 0 ss xs d) d
          (attach_and_ship-IsBuffer env.export 0 0 d k) k)
        (send-IsBuffer env.hook env.export d k)

swap_out-IsBuffer : (c : Client) → IsBuffer (swap_out c)
unfolding swap_out total
swap_out-IsBuffer c = (refl, omega arith, inl (omega arith), omega arith)

-- A drain keeps to the bounds: with the export slot or without, final or not, and whatever the hook
-- and the transport do and other threads capture meanwhile.
pub drain-IsBuffer :
    (final : Bool) (env : Meets) (c : Client) → IsBuffer c → IsBuffer (drain final env c)
unfolding drain abandon
drain-IsBuffer final env c h =
    IsBuffer-if env.slot (drain_batch final env c.spans c.snapshots (swap_out c))
      (if final then abandon c else c)
      (drain_batch-IsBuffer final c.spans c.snapshots env (swap_out c) (swap_out-IsBuffer c))
      (IsBuffer-if final (abandon c) c
        (IsBuffer-report_lost (length c.spans + length c.snapshots) (swap_out c)
          (swap_out-IsBuffer c))
        h)
