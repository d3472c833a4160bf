-- ===== src/Types.antt =====
-- sdks/python/src/wardex_sdk/_types.py: the identifiers and the context of a span.
use wardex_sdk.Prelude.{ℕ, Bool, List, [], ◌∷◌, ◌/◌, ◌%◌}
use wardex_sdk.Prelude.{ltb, if◌then◌else◌, ◌+◌}
use wardex_sdk.Prelude.Text.{Text}

-- `bytes` as a list of numbers below 256.
pub record TraceId : Type 0 where
  pub value : List ℕ

pub record SpanId : Type 0 where
  pub value : List ℕ

pub record SpanContext : Type 0 where
  pub trace_id : TraceId
  pub span_id : SpanId
  pub trace_flags : ℕ
  pub is_remote : Bool

-- A hexadecimal digit in lower case.
unfoldable pub digit : ℕ → ℕ
digit d = if ltb d 10 then d + 48 else d + 87

-- `bytes.hex`.
unfoldable pub to_hex : List ℕ → Text
to_hex [] = []
to_hex (b ∷ bs) = digit (b / 16) ∷ digit (b % 16) ∷ to_hex bs

unfoldable pub trace_hex : TraceId → Text
trace_hex t = to_hex t.value

unfoldable pub span_hex : SpanId → Text
span_hex s = to_hex s.value
