-- ===== src/Assembly/Parentage/Tests.antt =====
-- Witnesses of the theorems on parentage.
use wardex_sdk.Prelude.{min, true, false, none, some, [], ◌∷◌}
use wardex_sdk.Types.{TraceId, SpanContext}
use wardex_sdk.Assembly.Parentage.Confidence.{
  real, minus, unit_alias, contextvar, tier, alias_tier, Evidence, confidence_for,
  cap_at_alias_tier,
}
use wardex_sdk.Assembly.Parentage.Resolve.{
  Ambient, evidence_of, resolve_parentage, resolve_observed,
}
use wardex_sdk.Assembly.Parentage.Tiers.{IsWithin, confidence_for-cap_at_alias_tier}
use wardex_sdk.Assembly.Parentage.Edges.{Edge, Told, resolve_parentage-Edge}
use wardex_sdk.Assembly.Parentage.Observed.{Expected, seen, observed_source, resolve_observed-Edge}

abbrev new_trace : TraceId
new_trace = record { value = 9 ∷ [] }

-- A context that came in a header.
abbrev remote : SpanContext
remote = record {
  trace_id = record { value = 1 ∷ [] };
  span_id = record { value = 2 ∷ [] };
  trace_flags = 1;
  is_remote = true;
}

abbrev in_request : Ambient
in_request = record { span_context = some remote; conversation = none; tracestate = none }

-- Evidence with a confidence below 0.
abbrev doubtful : Evidence
doubtful = record (evidence_of unit_alias) { confidence = some (real (minus 3)) }

confidence_for-cap_at_alias_tier_example :
    IsWithin
      (min (tier contextvar) alias_tier)
      (confidence_for contextvar (cap_at_alias_tier doubtful))
confidence_for-cap_at_alias_tier_example = confidence_for-cap_at_alias_tier contextvar doubtful

resolve_parentage-Edge_example :
    Edge new_trace in_request.span_context (resolve_parentage new_trace in_request doubtful)
    × Told (resolve_parentage new_trace in_request doubtful)
resolve_parentage-Edge_example = resolve_parentage-Edge new_trace in_request doubtful

resolve_observed-Edge_example :
    Expected new_trace
      (seen false true in_request.span_context)
      (observed_source false true true in_request.span_context)
      (resolve_observed new_trace true in_request false true)
resolve_observed-Edge_example = resolve_observed-Edge new_trace true in_request false true
