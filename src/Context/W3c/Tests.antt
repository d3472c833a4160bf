-- ===== src/Context/W3c/Tests.antt =====
-- The trace-context theorems at concrete headers.
use wardex_sdk.Prelude.{◌%◌, ◌≡◌, refl, false, none, some, [], ◌∷◌, arith}
use wardex_sdk.Prelude.Text.{codes, strip, is_space, rstrip_cons}
use wardex_sdk.Prelude.Split.{split}
use wardex_sdk.Types.{SpanContext, digit}
use wardex_sdk.Context.W3c.{parse_traceparent, format_traceparent, sanitize_tracestate, all_zero}
use wardex_sdk.Context.W3c.RoundTrip.{parse_traceparent-format_traceparent}
use wardex_sdk.Context.W3c.Tracestate.{IsVetted, sanitize_tracestate-IsVetted}

abbrev sampled : SpanContext
sampled = record {
  trace_id = record {
    value =
        10 ∷ 247 ∷ 101 ∷ 25 ∷ 22 ∷ 205 ∷ 67 ∷ 221 ∷ 132 ∷ 72 ∷ 235 ∷ 33 ∷ 28 ∷ 128 ∷ 49 ∷ 156 ∷ [];
  };
  span_id = record { value = 183 ∷ 173 ∷ 107 ∷ 113 ∷ 105 ∷ 32 ∷ 51 ∷ 49 ∷ [] };
  trace_flags = 257;
  is_remote = false;
}

sampled_header :
    format_traceparent sampled ≡ codes "00-0af7651916cd43dd8448eb211c80319c-b7ad6b7169203331-01"
unfolding format_traceparent digit
sampled_header = refl

-- A header of a later version with further fields is read by its known prefix; a hole is refused.
later_version :
    (parse_traceparent (codes " cc-0af7651916cd43dd8448eb211c80319c-b7ad6b7169203331-01-what \n")
      ≡ some (sampled.trace_id, sampled.span_id, 1))
    × (parse_traceparent (codes "cc-0af7651916cd43dd8448eb211c80319c-b7ad6b7169203331-01--x")
        ≡ none)
unfolding parse_traceparent is_space rstrip_cons split
later_version = (refl, refl)

parse_traceparent-format_traceparent_example :
    parse_traceparent (format_traceparent sampled)
    ≡ some (sampled.trace_id, sampled.span_id, 257 % 256)
unfolding all_zero
parse_traceparent-format_traceparent_example =
    parse_traceparent-format_traceparent sampled
      (record { size = refl; bytes = omega arith; nonzero = refl })
      (record { size = refl; bytes = omega arith; nonzero = refl })

sanitize_tracestate-IsVetted_example : IsVetted (codes " a=1,b=2 ") (codes "a=1,b=2")
unfolding sanitize_tracestate strip is_space split
sanitize_tracestate-IsVetted_example =
    sanitize_tracestate-IsVetted (codes " a=1,b=2 ") (codes "a=1,b=2") refl
