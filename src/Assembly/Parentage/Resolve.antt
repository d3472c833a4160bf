-- ===== src/Assembly/Parentage/Resolve.antt =====
-- The parent edge that a span gets from its ambient context and the evidence for it.
use wardex_sdk.Prelude.{
  ℕ, Bool, true, false, ◌&&◌, ◌||◌, Option, none, some, List, [], ◌∷◌, ◌++◌, if◌then◌else◌,
}
use wardex_sdk.Prelude.Text.{Text}
use wardex_sdk.Types.{TraceId, SpanId, SpanContext}
use wardex_sdk.Assembly.Integrity.{Limitation, is_same}
use wardex_sdk.Assembly.Parentage.Confidence.{
  Real, ParentSource, contextvar, header, unit_active, unit_alias, unit_sole, trace_root,
  unresolved, Evidence, markers_for, confidence_for,
}

pub record CorrelationInfo : Type 0 where
  pub strategy : ParentSource
  pub confidence : Real
  pub active_span_id_at_capture : Option SpanId
  pub request_id : Option Text
  pub operation_id : Option Text
  pub attempt_id : Option Text

-- Conversations are named by numbers.
pub record Ambient : Type 0 where
  pub span_context : Option SpanContext
  pub conversation : Option ℕ
  pub tracestate : Option Text

pub record Parentage : Type 0 where
  pub trace_id : TraceId
  pub parent_span_id : Option SpanId
  pub trace_flags : ℕ
  pub tracestate : Option Text
  pub conversation : Option ℕ
  pub correlation : CorrelationInfo
  pub joined : Bool
  pub limitations : List Limitation

abbrev pub empty_ambient : Ambient
empty_ambient = record { span_context = none; conversation = none; tracestate = none }

-- The evidence of a source, with nothing else known, such as `AMBIENT`.
abbrev pub evidence_of : ParentSource → Evidence
evidence_of s = record {
  source = s;
  request_id = none;
  operation_id = none;
  attempt_id = none;
  confidence = none;
}

-- `marker in limitations`.
unfoldable pub is_in : Limitation → List Limitation → Bool
is_in m [] = false
is_in m (l ∷ ls) = is_same m l || is_in m ls

unfoldable pub with_limitation : Limitation → Parentage → Parentage
unfolding is_in
with_limitation m p =
    if is_in m p.limitations then p else record p { limitations = p.limitations ++ (m ∷ []) }

-- The source where there is no parent.
unfoldable pub root_source : ParentSource → ParentSource
root_source contextvar = trace_root
root_source header = header
root_source unit_active = unit_active
root_source unit_alias = unit_alias
root_source unit_sole = unit_sole
root_source trace_root = trace_root
root_source unresolved = unresolved

-- The source where there is one, which may have come in a header.
unfoldable pub joined_source : Bool → ParentSource → ParentSource
joined_source remote contextvar = if remote then header else contextvar
joined_source remote header = header
joined_source remote unit_active = unit_active
joined_source remote unit_alias = unit_alias
joined_source remote unit_sole = unit_sole
joined_source remote trace_root = trace_root
joined_source remote unresolved = unresolved

unfoldable pub correlate : ParentSource → Evidence → Option SpanId → CorrelationInfo
unfolding confidence_for
correlate src e active = record {
  strategy = src;
  confidence = confidence_for src e;
  active_span_id_at_capture = active;
  request_id = e.request_id;
  operation_id = e.operation_id;
  attempt_id = e.attempt_id;
}

-- The branch without a parent, with the trace that `TraceId.generate` gives.
unfoldable pub start_trace : TraceId → Ambient → Evidence → Parentage
unfolding root_source correlate markers_for
start_trace generated ambient e =
    let src = root_source e.source in
    record {
      trace_id = generated;
      parent_span_id = none;
      trace_flags = 1;
      tracestate = ambient.tracestate;
      conversation = ambient.conversation;
      correlation = correlate src e none;
      joined = false;
      limitations = markers_for src;
    }

unfoldable pub join_trace : SpanContext → Ambient → Evidence → Parentage
unfolding joined_source correlate markers_for
join_trace parent ambient e =
    let src = joined_source parent.is_remote e.source in
    record {
      trace_id = parent.trace_id;
      parent_span_id = some parent.span_id;
      trace_flags = parent.trace_flags;
      tracestate = ambient.tracestate;
      conversation = ambient.conversation;
      correlation = correlate src e (some parent.span_id);
      joined = true;
      limitations = markers_for src;
    }

unfoldable pub resolve_by : Option SpanContext → TraceId → Ambient → Evidence → Parentage
unfolding start_trace join_trace
resolve_by none generated ambient e = start_trace generated ambient e
resolve_by (some parent) generated ambient e = join_trace parent ambient e

unfoldable pub resolve_parentage : TraceId → Ambient → Evidence → Parentage
unfolding resolve_by
resolve_parentage generated ambient e = resolve_by ambient.span_context generated ambient e

unfoldable pub child_of : TraceId → SpanContext → Evidence → Option ℕ → Option Text → Parentage
unfolding resolve_parentage
child_of generated anchor e conversation tracestate =
    resolve_parentage generated
      (record { span_context = some anchor; conversation = conversation; tracestate = tracestate })
      e

unfoldable pub is_none {ℓ} : {A : Type ℓ} → Option A → Bool
is_none none = true
is_none (some a) = false

-- `degraded` is `in_degraded_run()`.
unfoldable pub resolve_observed : TraceId → Bool → Ambient → Bool → Bool → Parentage
unfolding resolve_parentage with_limitation is_none
resolve_observed generated degraded ambient parent_closed parent_evicted =
    if parent_closed
    then resolve_parentage generated empty_ambient (evidence_of unresolved)
    else if parent_evicted
    then with_limitation Limitation.instrumentation_degraded
        (resolve_parentage generated empty_ambient (evidence_of unresolved))
    else if is_none ambient.span_context && degraded
    then with_limitation Limitation.instrumentation_degraded
        (resolve_parentage generated ambient (evidence_of unresolved))
    else resolve_parentage generated ambient (evidence_of contextvar)

-- `child_context`, with the span that `SpanId.generate` gives.
unfoldable pub child_context : SpanId → Parentage → SpanContext
child_context generated p = record {
  trace_id = p.trace_id;
  span_id = generated;
  trace_flags = p.trace_flags;
  is_remote = false;
}
