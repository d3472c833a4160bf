-- ===== src/Client/State.antt =====
-- The state of a client: what its buffer holds, and its calls into the drop ledger.
use wardex_sdk.Prelude.{ℕ, ◌+◌, ◌-◌, Bool, Option, none, List, [], ◌∷◌, nat_eq, if◌then◌else◌}
use wardex_sdk.Assembly.DropReasons.{DropReason, DropUnit}

-- A finished span, with the bytes that `span_buffer_bytes` charges for it.
pub record Span : Type 0 where
  pub sid : ℕ
  pub size : ℕ

-- A call into the ledger: `record`, `record_items`, `attach` with its queue depth, `unsent` with
-- `definite` and `last`, or `done`.
pub data LedgerCall : Type 0 where
  recorded : DropReason → Option DropUnit → ℕ → LedgerCall
  recorded_items : DropReason → ℕ → ℕ → LedgerCall
  attached : ℕ → LedgerCall
  settled_unsent : Bool → Bool → LedgerCall
  settled_done : LedgerCall

-- `calls` are the calls into the ledger, the latest first. Snapshots are named by numbers.
pub record Client : Type 0 where
  pub spans : List Span
  pub bytes : ℕ
  pub snapshots : List ℕ
  pub dropped : ℕ
  pub lost : ℕ
  pub closed : Bool
  pub finalize_drained : Bool
  pub max_buffer_spans : ℕ
  pub max_buffer_bytes : ℕ
  pub calls : List LedgerCall

unfoldable pub tell : LedgerCall → Client → Client
tell x c = record c { calls = x ∷ c.calls }

-- `_report_lost`.
unfoldable pub report_lost : ℕ → Client → Client
unfolding tell
report_lost n c =
    if nat_eq n 0
    then c
    else tell (recorded DropReason.shutdown_tail none n) (record c { lost = c.lost + n })

-- `_SpanBuffer.evict_oldest`, with the count and the record of the loss that follow it.
unfoldable pub evict_oldest : List Span → Client → Client
unfolding tell
evict_oldest [] c = c
evict_oldest (s ∷ rest) c =
    tell (recorded DropReason.queue_overflow none 1)
      (record c { spans = rest; bytes = c.bytes - s.size; dropped = c.dropped + 1 })
