-- ===== src/Assembly/Builder/Setters.antt =====
-- SpanDraft: what the SDK writes on a draft, each setter by itself and as a call.
use wardex_sdk.Prelude.{
  ℕ, ◌+◌, Bool, true, false, ◌||◌, Option, none, some, List, [], ◌∷◌, ◌++◌, ltb, is_yes,
  if◌then◌else◌,
}
use wardex_sdk.Prelude.Dicts.{or_else}
use wardex_sdk.Prelude.Text.{Text}
use wardex_sdk.Types.{SpanContext}
use wardex_sdk.Assembly.Integrity.{Limitation}
use wardex_sdk.Assembly.Parentage.Confidence.{min_of}
use wardex_sdk.Assembly.Parentage.Resolve.{CorrelationInfo}
use wardex_sdk.Assembly.Vocabulary.{LinkReason, is_empty}
use wardex_sdk.Spans.Enums.{StatusCode, CaptureSource, CaptureSource-discrete}
use wardex_sdk.Spans.Attributes.{
  Tokens, count, not_counted, GenAiAttributes, AgentAttributes, ToolAttributes, RetrievalAttributes,
  EmbeddingsAttributes, EvaluationAttributes, CallSite,
}
use wardex_sdk.Spans.Span.{Scalar}
use wardex_sdk.Assembly.Builder.Integrity.{request_body, response_body, limitation}
use wardex_sdk.Assembly.Builder.Draft.{SpanDraft}

-- `_count(value) or 0`.
abbrev pub counted_or_zero : Tokens → ℕ
counted_or_zero (count n) = n
counted_or_zero not_counted = 0

-- `total is not None and total < parts`.
unfoldable pub is_short : Tokens → ℕ → Bool
is_short (count total) parts = ltb total parts
is_short not_counted parts = false

unfoldable pub violates_inclusive_totals : GenAiAttributes → Bool
unfolding is_short
violates_inclusive_totals attrs =
    is_short attrs.input_tokens (
      counted_or_zero attrs.cache_read_input_tokens
      + counted_or_zero attrs.cache_creation_input_tokens)
    || is_short attrs.output_tokens (counted_or_zero attrs.reasoning_output_tokens)

-- The draft, and whether the counter of totals that are not inclusive goes up.
unfoldable pub set_gen_ai : GenAiAttributes → SpanDraft → SpanDraft × Bool
unfolding violates_inclusive_totals
set_gen_ai attrs d = (record d { gen_ai = some attrs }, violates_inclusive_totals attrs)

unfoldable pub set_io : List ℕ → List ℕ → Bool → Bool → SpanDraft → SpanDraft
set_io input output input_attempted output_attempted d = record d {
  input_data = input;
  output_data = output;
  integrity = response_body output_attempted true (request_body input_attempted true d.integrity);
}

unfoldable pub set_status : StatusCode → Text → SpanDraft → SpanDraft
set_status code message d = record d { status = code; status_message = message }

unfoldable pub set_error : Option Text → Text → SpanDraft → SpanDraft
unfolding is_empty
set_error error_type message d = record d {
  error_type = error_type;
  status_message = if is_empty message then d.status_message else message;
}

unfoldable pub add_limitation : Limitation → SpanDraft → SpanDraft
unfolding limitation
add_limitation marker d = record d { integrity = limitation marker d.integrity }

unfoldable pub add_link : SpanContext → LinkReason → SpanDraft → SpanDraft
add_link ctx reason d = record d {
  links =
      d.links
      ++ (record { trace_id = ctx.trace_id; span_id = ctx.span_id; reason = some reason } ∷ []);
}

-- The attributes come sorted.
unfoldable pub add_event : Text → ℕ → List (Text × Scalar) → SpanDraft → SpanDraft
add_event name ts_ns attrs d = record d {
  events = d.events ++ (record { name = name; timestamp_ns = ts_ns; attributes = attrs } ∷ []);
}

-- `source in sources`.
unfoldable pub is_source_in : CaptureSource → List CaptureSource → Bool
is_source_in source [] = false
is_source_in source (s ∷ rest) =
    is_yes (CaptureSource-discrete s source) || is_source_in source rest

unfoldable pub add_source : CaptureSource → SpanDraft → SpanDraft
unfolding is_source_in
add_source source d =
    if is_source_in source d.sources then d else record d { sources = d.sources ++ (source ∷ []) }

unfoldable pub set_extra : Text → Scalar → SpanDraft → SpanDraft
set_extra key value d = record d { extra = d.extra ++ ((key, value) ∷ []) }

unfoldable pub merged : CorrelationInfo → CorrelationInfo → CorrelationInfo
unfolding min_of
merged base extra = record {
  strategy = base.strategy;
  confidence = min_of base.confidence extra.confidence;
  active_span_id_at_capture = base.active_span_id_at_capture;
  request_id = or_else extra.request_id base.request_id;
  operation_id = or_else extra.operation_id base.operation_id;
  attempt_id = or_else extra.attempt_id base.attempt_id;
}

unfoldable pub merge_into : Option CorrelationInfo → CorrelationInfo → CorrelationInfo
unfolding merged
merge_into none extra = extra
merge_into (some base) extra = merged base extra

unfoldable pub merge_correlation : CorrelationInfo → SpanDraft → SpanDraft
unfolding merge_into
merge_correlation extra d = record d { correlation = some (merge_into d.correlation extra) }

-- Whether the caller is the first to emit the draft.
unfoldable pub claim_emit : SpanDraft → SpanDraft × Bool
claim_emit d = if d.emitted then (d, false) else (record d { emitted = true }, true)

-- A call of one of the setters, those above and those that assign one field. An operation given to
-- `set_operation_label` is its value.
pub data Setter : Type 0 where
  gen_ai_set : GenAiAttributes → Setter
  agent_set : AgentAttributes → Setter
  tool_set : ToolAttributes → Setter
  retrieval_set : RetrievalAttributes → Setter
  embeddings_set : EmbeddingsAttributes → Setter
  evaluation_set : EvaluationAttributes → Setter
  transport_set conversation_named start_set end_set : ℕ → Setter
  conversation_cleared : Setter
  call_site_set : Option CallSite → Setter
  workflow_name_set : Option Text → Setter
  server_set : Option Text → Option ℕ → Setter
  io_set : List ℕ → List ℕ → Bool → Bool → Setter
  status_set : StatusCode → Text → Setter
  error_set : Option Text → Text → Setter
  limitation_added : Limitation → Setter
  link_added : SpanContext → LinkReason → Setter
  event_added : Text → ℕ → List (Text × Scalar) → Setter
  source_added : CaptureSource → Setter
  operation_label_set : Option Text → Setter
  extra_set : Text → Scalar → Setter
  correlation_replaced : Option CorrelationInfo → Setter
  correlation_merged : CorrelationInfo → Setter

unfoldable pub write : Setter → SpanDraft → SpanDraft
unfolding set_gen_ai set_io set_status set_error add_limitation add_link add_event add_source
    set_extra merge_correlation
write (gen_ai_set attrs) d = (set_gen_ai attrs d).0
write (agent_set attrs) d = record d { agent = some attrs }
write (tool_set attrs) d = record d { tool = some attrs }
write (retrieval_set attrs) d = record d { retrieval = some attrs }
write (embeddings_set attrs) d = record d { embeddings = some attrs }
write (evaluation_set attrs) d = record d { evaluation = some attrs }
write (transport_set attrs) d = record d { transport = some attrs }
write (conversation_named conv) d = record d { conversation = some conv }
write conversation_cleared d = record d { conversation = none }
write (call_site_set call_site) d = record d { call_site = call_site }
write (workflow_name_set name) d = record d { workflow_name = name }
write (server_set address port) d = record d { server_address = address; server_port = port }
write (io_set input output input_attempted output_attempted) d =
    set_io input output input_attempted output_attempted d
write (start_set start_ns) d = record d { start_ns = start_ns }
write (end_set end_ns) d = record d { end_ns = some end_ns }
write (status_set code message) d = set_status code message d
write (error_set error_type message) d = set_error error_type message d
write (limitation_added marker) d = add_limitation marker d
write (link_added ctx reason) d = add_link ctx reason d
write (event_added name ts_ns attrs) d = add_event name ts_ns attrs d
write (source_added source) d = add_source source d
write (operation_label_set operation) d = record d { operation_label = operation }
write (extra_set key value) d = set_extra key value d
write (correlation_replaced correlation) d = record d { correlation = correlation }
write (correlation_merged extra) d = merge_correlation extra d

unfoldable pub write_all : List Setter → SpanDraft → SpanDraft
unfolding write
write_all [] d = d
write_all (setter ∷ rest) d = write_all rest (write setter d)
