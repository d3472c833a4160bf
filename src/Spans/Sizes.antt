-- ===== src/Spans/Sizes.antt =====
-- sdks/python/src/wardex_sdk/_types.py: what a span counts for in the buffer (span_buffer_bytes).
use wardex_sdk.Prelude.{ℕ, ◌+◌, Option, none, some, List, [], ◌∷◌, length, take}
use wardex_sdk.Prelude.Text.{Text}
use wardex_sdk.Spans.Attributes.{
  Leaf, Value, leaf, collection, dictionary, GenAiAttributes, RetrievalAttributes,
}
use wardex_sdk.Spans.Span.{Scalar, InternalSpanEvent, InternalSpan}

abbrev pub span_overhead_bytes : ℕ
span_overhead_bytes = 512

abbrev pub counted_items : ℕ
counted_items = 1024

unfoldable pub leaf_bytes : Leaf → ℕ
leaf_bytes (Leaf.str s) = length s
leaf_bytes (Leaf.byte_string bs) = length bs
leaf_bytes (Leaf.view none) = 0
leaf_bytes (Leaf.view (some n)) = n
leaf_bytes Leaf.other = 0

unfoldable pub sum_items : List Leaf → ℕ
unfolding leaf_bytes
sum_items [] = 0
sum_items (item ∷ items) = leaf_bytes item + sum_items items

unfoldable pub sum_pairs : List (Leaf × Leaf) → ℕ
unfolding leaf_bytes
sum_pairs [] = 0
sum_pairs ((k, v) ∷ pairs) = leaf_bytes k + leaf_bytes v + sum_pairs pairs

unfoldable pub value_bytes : Value → ℕ
unfolding leaf_bytes sum_items sum_pairs
value_bytes (leaf v) = leaf_bytes v
value_bytes (collection items) = sum_items (take counted_items items)
value_bytes (dictionary pairs) = sum_pairs (take counted_items pairs)

unfoldable pub scalar_bytes : Scalar → ℕ
scalar_bytes (Scalar.str s) = length s
scalar_bytes (Scalar.int n) = 0
scalar_bytes (Scalar.float x) = 0
scalar_bytes (Scalar.bool b) = 0

unfoldable pub extra_bytes : List (Text × Scalar) → ℕ
unfolding scalar_bytes
extra_bytes [] = 0
extra_bytes ((key, value) ∷ extra) = length key + scalar_bytes value + extra_bytes extra

unfoldable pub event_bytes : List InternalSpanEvent → ℕ
unfolding extra_bytes
event_bytes [] = 0
event_bytes (event ∷ events) = length event.name + extra_bytes event.attributes + event_bytes events

unfoldable pub gen_ai_bytes : Option GenAiAttributes → ℕ
unfolding value_bytes
gen_ai_bytes none = 0
gen_ai_bytes (some attrs) = value_bytes attrs.system_instructions

unfoldable pub retrieval_bytes : Option RetrievalAttributes → ℕ
unfolding value_bytes
retrieval_bytes none = 0
retrieval_bytes (some attrs) = value_bytes attrs.documents + value_bytes attrs.query_text

unfoldable pub span_buffer_bytes : InternalSpan → ℕ
unfolding extra_bytes event_bytes gen_ai_bytes retrieval_bytes
span_buffer_bytes span =
    span_overhead_bytes
    + length span.input_data
    + length span.output_data
    + length span.name
    + length span.status_message
    + extra_bytes span.extra
    + event_bytes span.events
    + gen_ai_bytes span.gen_ai
    + retrieval_bytes span.retrieval
