-- ===== src/Assembly/Builder/Draft.antt =====
-- SpanDraft: its three constructors and what the SDK writes on it.
use wardex_sdk.Prelude.{ℕ, Bool, false, Option, none, some, List, [], ◌∷◌, if◌then◌else◌}
use wardex_sdk.Prelude.Text.{Text, codes}
use wardex_sdk.Prelude.Results.{Result, ok, raise}
use wardex_sdk.Types.{SpanId, SpanContext}
use wardex_sdk.Assembly.Integrity.{Limitation}
use wardex_sdk.Assembly.Parentage.Resolve.{CorrelationInfo, Parentage, child_context}
use wardex_sdk.Assembly.Vocabulary.{SpanIntent, TransportLabel, rules, is_empty}
use wardex_sdk.Spans.Enums.{StatusCode, SpanKind, CaptureSource}
use wardex_sdk.Spans.Attributes.{
  GenAiAttributes, AgentAttributes, ToolAttributes, RetrievalAttributes, EmbeddingsAttributes,
  EvaluationAttributes, CallSite,
}
use wardex_sdk.Spans.Span.{Scalar, InternalSpanEvent, InternalSpanLink}
use wardex_sdk.Assembly.Builder.Integrity.{IntegrityBuilder, new_integrity, limitation}

pub data VocabularyError : Type 0 where
  rename_not_manual relabel_not_transport no_end no_name off_grammar missing_subject :
      VocabularyError
  missing_blocks missing_extra_keys error_without_type empty_conversation_id : VocabularyError
  undeclared_extra left_trace : VocabularyError

pub record SpanDraft : Type 0 where
  pub context : SpanContext
  pub parentage : Parentage
  pub intent : Option SpanIntent
  pub subject : Option Text
  pub label : Option TransportLabel
  pub manual_name : Option Text
  pub kind : Option SpanKind
  pub start_ns : ℕ
  pub end_ns : Option ℕ
  pub sources : List CaptureSource
  pub integrity : IntegrityBuilder
  pub gen_ai : Option GenAiAttributes
  pub agent : Option AgentAttributes
  pub tool : Option ToolAttributes
  pub retrieval : Option RetrievalAttributes
  pub embeddings : Option EmbeddingsAttributes
  pub evaluation : Option EvaluationAttributes
  pub transport : Option ℕ
  pub conversation : Option ℕ
  pub correlation : Option CorrelationInfo
  pub call_site : Option CallSite
  pub workflow_name : Option Text
  pub server_address : Option Text
  pub server_port : Option ℕ
  pub operation_label : Option Text
  pub status : StatusCode
  pub status_message : Text
  pub error_type : Option Text
  pub input_data : List ℕ
  pub output_data : List ℕ
  pub extra : List (Text × Scalar)
  pub links : List InternalSpanLink
  pub events : List InternalSpanEvent
  pub emitted : Bool

-- `for inherited in parentage.limitations: self._integrity.limitation(inherited)`.
unfoldable pub inherit : List Limitation → IntegrityBuilder → IntegrityBuilder
unfolding limitation
inherit [] b = b
inherit (inherited ∷ rest) b = inherit rest (limitation inherited b)

unfoldable pub kind_of : Option SpanKind → Option SpanIntent → Option SpanKind
unfolding rules
kind_of (some kind) intent = some kind
kind_of none (some intent) = some (rules intent).kind
kind_of none none = none

-- `SpanDraft(...)`, with the span that the child context is given.
unfoldable pub new_draft :
    SpanId
    → Parentage
    → Option SpanIntent
    → Option Text
    → CaptureSource
    → ℕ
    → Option SpanKind
    → SpanDraft
unfolding child_context inherit kind_of
new_draft generated parentage intent subject source start_ns kind = record {
  context = child_context generated parentage;
  parentage = parentage;
  intent = intent;
  subject = subject;
  label = none;
  manual_name = none;
  kind = kind_of kind intent;
  start_ns = start_ns;
  end_ns = none;
  sources = source ∷ [];
  integrity = inherit parentage.limitations new_integrity;
  gen_ai = none;
  agent = none;
  tool = none;
  retrieval = none;
  embeddings = none;
  evaluation = none;
  transport = none;
  conversation = parentage.conversation;
  correlation = some parentage.correlation;
  call_site = none;
  workflow_name = none;
  server_address = none;
  server_port = none;
  operation_label = none;
  status = StatusCode.unset;
  status_message = [];
  error_type = none;
  input_data = [];
  output_data = [];
  extra = [];
  links = [];
  events = [];
  emitted = false;
}

unfoldable pub transport_draft :
    SpanId → Parentage → TransportLabel → Option Text → CaptureSource → ℕ → SpanKind → SpanDraft
unfolding new_draft
transport_draft generated parentage label subject source start_ns kind =
    record (new_draft generated parentage none subject source start_ns (some kind)) {
      label = some label;
    }

unfoldable pub manual_span_name : Text → Text
unfolding is_empty
manual_span_name name = if is_empty name then codes "span" else name

unfoldable pub manual_draft : SpanId → Parentage → Text → SpanKind → ℕ → CaptureSource → SpanDraft
unfolding new_draft manual_span_name
manual_draft generated parentage name kind start_ns source =
    record (new_draft generated parentage none none source start_ns (some kind)) {
      manual_name = some (manual_span_name name);
    }

unfoldable pub rename : Text → SpanDraft → Result VocabularyError SpanDraft
unfolding manual_span_name
rename name d = elim d.manual_name [
  | none ↦ raise rename_not_manual
  | some old ↦ ok (record d { manual_name = some (manual_span_name name) })
]

unfoldable pub relabel : TransportLabel → Option Text → SpanDraft → Result VocabularyError SpanDraft
relabel label subject d = elim d.label [
  | none ↦ raise relabel_not_transport
  | some old ↦ ok (record d { label = some label; subject = subject })
]
