-- ===== src/Client/Order.antt =====
-- The order of the buffer's spans, and what a close leaves.
use mathlib.Core.List.{reverse, reverse_aux, reverse_aux-eq, reverse-cons, reverse-reverse}
use wardex_sdk.Prelude.{
  ℕ, ◌+◌, ◌≤◌, ◌≡◌, refl, ap, ◌∙◌, ◌⊎◌, inl, inr, Bool-cases, Bool, true, false, not, ◌&&◌, some,
  List, [], ◌∷◌, ◌++◌, length, drop, arith, leb, if◌then◌else◌,
}
use wardex_sdk.Assembly.DropReasons.{DropReason, DropUnit}
use wardex_sdk.Assembly.Ledger.Wire.{is_empty}
use wardex_sdk.Client.State.{Client, Span, recorded, tell, report_lost}
use wardex_sdk.Client.Capture.{is_full_for, make_room, append_span, admit}
use wardex_sdk.Client.Drain.{
  return_span, return_spans, return_snapshot, return_snapshots, return_to_buffer,
}
use wardex_sdk.Client.Measures.{total, total-append}
use wardex_sdk.Client.Conservation.{length-reverse}
use wardex_sdk.Client.Bounds.{make_room-drop}

-- The branch that is taken where a test fails.
spans_unless :
    (b : Bool) (c d : Client) {ss : List Span}
    → b ≡ false
    → d.spans ≡ ss
    → (if b then c else d).spans ≡ ss
spans_unless true c d e p = cc
spans_unless false c d e p = p

spans_either :
    (b : Bool) (c d : Client) {ss : List Span}
    → c.spans ≡ ss
    → d.spans ≡ ss
    → (if b then c else d).spans ≡ ss
spans_either true c d p q = p
spans_either false c d p q = q

make_room-room :
    (size : ℕ) (ss : List Span) (c : Client)
    → c.spans ≡ ss
    → is_full_for size c ≡ false
    → (make_room size ss c).spans ≡ ss
unfolding make_room
make_room-room size [] c e room = e
make_room-room size (s ∷ rest) c e room = rw room e

-- An admitted span is the newest, and the spans that it evicts are the oldest: none where the buffer
-- was not full for it.
pub spans-admit :
    (s : Span) (c : Client)
    → c.finalize_drained ≡ false
    → ((n : ℕ) × ((admit s c).spans ≡ drop n c.spans ++ (s ∷ [])))
      × ((is_full_for s.size c ≡ true) ⊎ ((admit s c).spans ≡ c.spans ++ (s ∷ [])))
unfolding admit append_span
spans-admit s c undrained =
    let made = make_room-drop s.size c.spans c refl in
    let joined = append_span s (make_room s.size c.spans c) in
    (
      (
        made.0,
        spans_unless c.finalize_drained (report_lost 1 c) joined undrained
            (ap (λ ss. ss ++ (s ∷ [])) made.1),
      ),
      elim (Bool-cases (is_full_for s.size c)) [
        | inl full ↦ inl full
        | inr room ↦ inr (
            spans_unless c.finalize_drained (report_lost 1 c) joined undrained
              (ap (λ ss. ss ++ (s ∷ [])) (make_room-room s.size c.spans c refl room)))
      ],
    )

-- The spans given back have room.
abbrev pub HasSpace : List Span → Client → Type 0
HasSpace ss c =
    (length ss + length c.spans ≤ c.max_buffer_spans) × (total ss + c.bytes ≤ c.max_buffer_bytes)

and_false : (b : Bool) → (b && false) ≡ false
and_false true = refl
and_false false = refl

return_span-space :
    (s : Span) (ss : List Span) (c : Client)
    → HasSpace (s ∷ ss) c
    → (not (is_empty c.spans) && is_full_for s.size c) ≡ false
unfolding is_full_for total
return_span-space s ss c h =
    let room : is_full_for s.size c ≡ false = ground (arith, h.0, h.1) in
    ap (λ b. not (is_empty c.spans) && b) room ∙ and_false (not (is_empty c.spans))

return_span-kept :
    (s : Span) (ss : List Span) (c : Client)
    → HasSpace (s ∷ ss) c
    → return_span s c ≡ record c { spans = s ∷ c.spans; bytes = c.bytes + s.size }
unfolding return_span
return_span-kept s ss c h = rw (return_span-space s ss c h) refl

spans-return_spans :
    (ss : List Span) (c : Client)
    → HasSpace ss c
    → (return_spans ss c).spans ≡ reverse_aux ss c.spans
unfolding return_spans total
spans-return_spans [] c h = refl
spans-return_spans (s ∷ ss) c h =
    ap (λ d. (return_spans ss d).spans) (return_span-kept s ss c h)
    ∙ spans-return_spans ss (record c { spans = s ∷ c.spans; bytes = c.bytes + s.size })
        (omega (arith, h.0), omega (arith, h.1))

spans-return_snapshots : (xs : List ℕ) (c : Client) → (return_snapshots xs c).spans ≡ c.spans
unfolding return_snapshots return_snapshot tell
spans-return_snapshots [] c = refl
spans-return_snapshots (x ∷ xs) c =
    spans-return_snapshots xs (return_snapshot x c)
    ∙ spans_either (not (is_empty c.snapshots) && leb c.max_buffer_spans (length c.snapshots))
        (tell (recorded DropReason.queue_overflow (some DropUnit.snapshot) 1)
          (record c { dropped = c.dropped + 1 }))
        (record c { snapshots = x ∷ c.snapshots }) refl refl

total-reverse : (ss : List Span) → total (reverse ss) ≡ total ss
unfolding total
total-reverse [] = refl
total-reverse (s ∷ ss) =
    omega
      (arith, ap total (reverse-cons s ss), total-append (reverse ss) (s ∷ []), total-reverse ss)

-- A declined batch for which there is room goes back in front of what came meanwhile, in its order.
pub spans-return_to_buffer :
    (ss : List Span) (xs : List ℕ) (c : Client)
    → HasSpace ss c
    → (return_to_buffer ss xs c).spans ≡ ss ++ c.spans
unfolding return_to_buffer
spans-return_to_buffer ss xs c h =
    spans-return_snapshots (reverse xs) (return_spans (reverse ss) c)
    ∙ spans-return_spans (reverse ss) c
        (omega (arith, h.0, length-reverse ss), omega (arith, h.1, total-reverse ss))
    ∙ reverse_aux-eq (reverse ss) c.spans
    ∙ ap (λ ts. ts ++ c.spans) (reverse-reverse ss)
