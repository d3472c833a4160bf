-- ===== src/Assembly/Builder/Tests.antt =====
-- Drafts opened, written and finished.
use wardex_sdk.Prelude.{ℕ, false, none, some, List, [], ◌∷◌, ◌≡◌, refl, ◌↔◌, ◌||◌, ◌&&◌}
use wardex_sdk.Prelude.Text.{codes, strip, lstrip, rstrip, rstrip_cons, is_space, text_eq}
use wardex_sdk.Prelude.Results.{ok, raise, raise_if}
use wardex_sdk.Types.{TraceId, SpanId}
use wardex_sdk.Assembly.Integrity.{Limitation, unit_evicted, parse_skipped_at_shutdown}
use wardex_sdk.Assembly.Parentage.Confidence.{unresolved}
use wardex_sdk.Assembly.Parentage.Resolve.{
  is_none, Parentage, empty_ambient, evidence_of, resolve_parentage, with_limitation, is_in,
}
use wardex_sdk.Assembly.Vocabulary.{
  SpanIntent, vocabulary_name, rules, intent_value, value_and, is_empty,
}
use wardex_sdk.Spans.Enums.{StatusCode, SpanKind, CaptureSource, ToolExecutionType}
use wardex_sdk.Spans.Attributes.{ConversationContext, ToolAttributes}
use wardex_sdk.Spans.Span.{InternalSpan, Scalar}
use wardex_sdk.Assembly.Builder.Draft.{
  SpanDraft, missing_blocks, new_draft, kind_of, manual_draft, manual_span_name,
}
use wardex_sdk.Assembly.Builder.Setters.{
  Setter, status_set, limitation_added, extra_set, tool_set, write_all,
}
use wardex_sdk.Assembly.Builder.Finish.{
  finish, finish_at, checked, check_name, check_intent_name, check_structure, ends_with, has_block,
  is_error, is_blank, name_of, normalize_manual_error,
}
use wardex_sdk.Assembly.Builder.Manual.{finish-manual_draft}
use wardex_sdk.Assembly.Builder.Ready.{IsReady, finish_iff-IsReady}
use wardex_sdk.Assembly.Builder.Markers.{Opening, manual, open_draft, said, finish-limitations}
use wardex_sdk.Assembly.Builder.Distinct.{IsDistinct, added}

abbrev trace : TraceId
trace = record { value = 1 ∷ 2 ∷ [] }

abbrev span_id : SpanId
span_id = record { value = 7 ∷ [] }

abbrev lost : Parentage
lost = with_limitation unit_evicted (resolve_parentage trace empty_ambient (evidence_of unresolved))

abbrev conversations : ℕ → ConversationContext
conversations n = record { conversation_id = codes "c"; session_id = none; turn_index = 0 }

abbrev failing : List Setter
failing =
    status_set StatusCode.error []
    ∷ limitation_added parse_skipped_at_shutdown
    ∷ limitation_added unit_evicted
    ∷ extra_set (codes "anything") (Scalar.int 3)
    ∷ []

abbrev tool_block : ToolAttributes
tool_block = record {
  name = codes "search";
  call_id = none;
  description = none;
  type_name = none;
  execution_type = ToolExecutionType.network;
}

-- A failed manual span without a name, written on freely, is finished as `span`.
finish-manual_draft_example :
    (span : InternalSpan) × ((finish conversations
        (some 9)
        (write_all failing (manual_draft span_id lost [] SpanKind.client 5 CaptureSource.manual))).1
      ≡ ok span)
    × (span.name ≡ manual_span_name [])
    × (span.context.trace_id ≡ lost.trace_id)
    × (span.parent_span_id ≡ lost.parent_span_id)
    × ((is_error span.status && is_blank span.error_type) ≡ false)
finish-manual_draft_example =
    finish-manual_draft conversations span_id lost [] SpanKind.client 5 9 CaptureSource.manual
      failing (λ n. unfold is_empty in refl)

abbrev tool_draft : SpanDraft
tool_draft =
    new_draft span_id lost (some SpanIntent.execute_tool) (some (codes " search "))
      CaptureSource.adapter 5 none

-- A tool span with its block, and without.
finish_iff-IsReady_example :
    ((span : InternalSpan) × ((finish conversations
          (some 9)
          (write_all (tool_set tool_block ∷ []) tool_draft)).1
        ≡ ok span)
      × (span.name ≡ vocabulary_name SpanIntent.execute_tool (some (codes " search ")))
      × (span.context.trace_id ≡ lost.trace_id)
      × (span.parent_span_id ≡ lost.parent_span_id))
    ↔ IsReady SpanIntent.execute_tool (write_all (tool_set tool_block ∷ []) tool_draft)
finish_iff-IsReady_example =
    finish_iff-IsReady conversations span_id lost SpanIntent.execute_tool (some (codes " search "))
      5 9 CaptureSource.adapter none (tool_set tool_block ∷ [])
      (write_all (tool_set tool_block ∷ []) tool_draft) (λ n. unfold is_empty in refl) refl

abbrev unnamed : Opening
unnamed = manual [] SpanKind.client 5 CaptureSource.manual

finished :
    (span : InternalSpan) × ((finish conversations
        (some 9)
        (write_all failing (open_draft span_id lost unnamed))).1
      ≡ ok span)
unfolding open_draft is_empty
finished =
    let told =
      finish-manual_draft conversations span_id lost [] SpanKind.client 5 9 CaptureSource.manual
        failing (λ n. refl) in
    (told.0, told.1)

-- The failed span says the limitation of its parentage and the two that were added, one of them the
-- same as an inherited one.
finish-limitations_example :
    ((m : Limitation)
      → is_in m (said finished.0.capture_integrity)
        ≡ (is_in m lost.limitations || is_in m (added failing)))
    × IsDistinct (said finished.0.capture_integrity)
finish-limitations_example =
    finish-limitations conversations span_id lost unnamed failing (some 9) finished.0 finished.1

-- A tool span without its block is refused.
tool_without_block : (finish conversations (some 9) tool_draft).1 ≡ raise missing_blocks
unfolding finish finish_at normalize_manual_error checked check_name check_intent_name
    check_structure name_of vocabulary_name raise_if is_none is_empty new_draft kind_of rules
    intent_value value_and strip lstrip rstrip rstrip_cons is_space text_eq ends_with has_block
tool_without_block = refl
