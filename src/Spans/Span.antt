-- ===== src/Spans/Span.antt =====
-- sdks/python/src/wardex_sdk/_types.py: the finished span. The transport block, which is carried along
-- only, is named by a number, and so is a conversation.
use wardex_sdk.Prelude.{ℕ, Bool, Option, List}
use wardex_sdk.Prelude.Text.{Text}
use wardex_sdk.Types.{TraceId, SpanId, SpanContext}
use wardex_sdk.Assembly.Integrity.{Limitation}
use wardex_sdk.Assembly.Parentage.Confidence.{Float}
use wardex_sdk.Assembly.Parentage.Resolve.{CorrelationInfo}
use wardex_sdk.Assembly.Vocabulary.{LinkReason}
use wardex_sdk.Spans.Enums.{StatusCode, SpanKind, CaptureSource}
use wardex_sdk.Spans.Attributes.{
  GenAiAttributes, AgentAttributes, ToolAttributes, RetrievalAttributes, EmbeddingsAttributes,
  EvaluationAttributes, CallSite,
}

pub record CaptureIntegrity : Type 0 where
  pub request_headers_captured : Bool
  pub request_body_captured : Bool
  pub response_headers_captured : Bool
  pub response_body_captured : Bool
  pub redacted : Bool
  pub truncated : Bool
  pub dropped_chunk_count : ℕ
  pub limitations : List Limitation

pub data Scalar : Type 0 where
  str : Text → Scalar
  int : ℕ → Scalar
  float : Float → Scalar
  bool : Bool → Scalar

pub record InternalSpanEvent : Type 0 where
  pub name : Text
  pub timestamp_ns : ℕ
  pub attributes : List (Text × Scalar)

pub record InternalSpanLink : Type 0 where
  pub trace_id : TraceId
  pub span_id : SpanId
  pub reason : Option LinkReason

pub record InternalSpan : Type 0 where
  pub context : SpanContext
  pub parent_span_id : Option SpanId
  pub name : Text
  pub kind : SpanKind
  pub start_time_ns : ℕ
  pub end_time_ns : ℕ
  pub status : StatusCode
  pub status_message : Text
  pub gen_ai : Option GenAiAttributes
  pub agent : Option AgentAttributes
  pub tool : Option ToolAttributes
  pub transport : Option ℕ
  pub retrieval : Option RetrievalAttributes
  pub embeddings : Option EmbeddingsAttributes
  pub evaluation : Option EvaluationAttributes
  pub conversation : Option ℕ
  pub call_site : Option CallSite
  pub error_type : Option Text
  pub server_address : Option Text
  pub server_port : Option ℕ
  pub workflow_name : Option Text
  pub capture_sources : List CaptureSource
  pub capture_integrity : Option CaptureIntegrity
  pub correlation : Option CorrelationInfo
  pub input_data : List ℕ
  pub output_data : List ℕ
  pub extra : List (Text × Scalar)
  pub events : List InternalSpanEvent
  pub links : List InternalSpanLink
