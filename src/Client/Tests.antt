-- ===== src/Client/Tests.antt =====
-- Witnesses of the theorems on the client, at small buffers.
use wardex_sdk.Prelude.{
  ℕ, ◌+◌, ◌⊎◌, ◌≡◌, refl, inr, true, false, [], ◌∷◌, ◌++◌, length, drop, arith, if◌then◌else◌,
}
use wardex_sdk.Client.State.{Client, Span}
use wardex_sdk.Client.Capture.{is_full_for, admit, capture_span, capture_snapshot}
use wardex_sdk.Client.Drain.{
  Meets, hook_keeps, no_hook, export_raises, undelivered, return_to_buffer, drain, close,
}
use wardex_sdk.Client.Measures.{total, known}
use wardex_sdk.Client.Drained.{departed, surplus, known-drain, closing, known-close}
use wardex_sdk.Client.Bounds.{IsBuffer, captures-IsBuffer}
use wardex_sdk.Client.Returned.{drain-IsBuffer}
use wardex_sdk.Client.Order.{spans-admit, spans-return_to_buffer}
use wardex_sdk.Client.Closed.{IsShut, close-IsShut}

abbrev small : Span
small = record { sid = 1; size = 10 }

abbrev large : Span
large = record { sid = 2; size = 25 }

-- Two spans and a snapshot, which is all that fits.
abbrev full_client : Client
full_client = record {
  spans = small ∷ large ∷ [];
  bytes = 35;
  snapshots = 7 ∷ [];
  dropped = 0;
  lost = 0;
  closed = false;
  finalize_drained = false;
  max_buffer_spans = 2;
  max_buffer_bytes = 40;
  calls = [];
}

-- The export declines the batch, and another thread captures a span meanwhile.
abbrev declined : Meets
declined = record {
  slot = true;
  due = false;
  hook = no_hook;
  export = undelivered;
  meanwhile = large ∷ [];
}

-- The hook takes a span away, and the export raises.
abbrev broken : Meets
broken = record {
  slot = true;
  due = false;
  hook = hook_keeps 1 1;
  export = export_raises false;
  meanwhile = small ∷ [];
}

full_client-IsBuffer : IsBuffer full_client
unfolding total
full_client-IsBuffer = (refl, omega arith, inr (omega arith), omega arith)

known-drain_example :
    known (drain false broken full_client) + departed broken full_client.spans full_client.snapshots
    ≡ known full_client
      + (if broken.slot then length broken.meanwhile else 0)
      + surplus broken full_client.spans full_client.snapshots
known-drain_example = known-drain false broken full_client

known-close_example :
    (let last = closing (large ∷ []) full_client in
      known (close (large ∷ []) declined full_client) + departed declined last.spans last.snapshots
      ≡ known full_client
        + length (large ∷ [])
        + (if declined.slot then length declined.meanwhile else 0)
        + surplus declined last.spans last.snapshots)
known-close_example = known-close (large ∷ []) declined full_client refl

captures-IsBuffer_example :
    IsBuffer (capture_span large full_client) × IsBuffer (capture_snapshot 8 full_client)
captures-IsBuffer_example = captures-IsBuffer large 8 full_client full_client-IsBuffer

drain-IsBuffer_example : IsBuffer (drain false declined full_client)
drain-IsBuffer_example = drain-IsBuffer false declined full_client full_client-IsBuffer

spans-admit_example :
    ((n : ℕ) × ((admit large full_client).spans ≡ drop n full_client.spans ++ (large ∷ [])))
    × ((is_full_for large.size full_client ≡ true)
        ⊎ ((admit large full_client).spans ≡ full_client.spans ++ (large ∷ [])))
spans-admit_example = spans-admit large full_client refl

abbrev empty_client : Client
empty_client = record full_client { spans = []; bytes = 0; snapshots = [] }

spans-return_to_buffer_example :
    (return_to_buffer (small ∷ large ∷ []) (7 ∷ []) empty_client).spans
    ≡ (small ∷ large ∷ []) ++ empty_client.spans
spans-return_to_buffer_example =
    spans-return_to_buffer (small ∷ large ∷ []) (7 ∷ []) empty_client
      (unfold total in (omega arith, omega arith))

close-IsShut_example : IsShut (close (large ∷ []) declined full_client)
close-IsShut_example = close-IsShut (large ∷ []) declined full_client refl
