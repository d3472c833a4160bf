-- ===== src/Assembly/Builder/Manual.antt =====
-- What the setters leave as it is, and the finish of the spans that a user opens by name.
use wardex_sdk.Prelude.{
  ℕ, true, false, ◌&&◌, none, some, List, [], ◌∷◌, ◌≡◌, refl, sym, ap, ◌∙◌, arith, inl, inr,
  Option-cases,
}
use wardex_sdk.Prelude.Text.{Text, text_eq, text_eq_iff}
use wardex_sdk.Prelude.Results.{ok, raise_if}
use wardex_sdk.Types.{SpanId}
use wardex_sdk.Assembly.Vocabulary.{is_empty}
use wardex_sdk.Assembly.Parentage.Resolve.{Parentage, is_none, child_context}
use wardex_sdk.Spans.Enums.{SpanKind, CaptureSource}
use wardex_sdk.Spans.Attributes.{ConversationContext}
use wardex_sdk.Spans.Span.{InternalSpan}
use wardex_sdk.Assembly.Builder.Draft.{SpanDraft, new_draft, manual_draft, manual_span_name}
use wardex_sdk.Assembly.Builder.Setters.{
  Setter, write, write_all, set_gen_ai, set_io, set_status, set_error, add_limitation, add_link,
  add_event, add_source, set_extra, merge_correlation,
}
use wardex_sdk.Assembly.Builder.Finish.{
  finish, finish_at, checked, check_name, check_structure, check_status, check_conversation,
  check_extra, check_trace, name_of, normalize_manual_error, span_of, is_blank, is_error,
  is_same_trace,
}

-- What no setter changes: where the span belongs and what it is called.
pub record IsOf (d e : SpanDraft) : Type 0 where
  pub context : e.context ≡ d.context
  pub parentage : e.parentage ≡ d.parentage
  pub intent : e.intent ≡ d.intent
  pub subject : e.subject ≡ d.subject
  pub label : e.label ≡ d.label
  pub manual_name : e.manual_name ≡ d.manual_name
  pub kind : e.kind ≡ d.kind

write-IsOf : (setter : Setter) (d : SpanDraft) → IsOf d (write setter d)
unfolding write set_gen_ai set_io set_status set_error add_limitation add_link add_event add_source
    set_extra merge_correlation
write-IsOf setter d = ground arith

pub write_all-IsOf : (setters : List Setter) (d : SpanDraft) → IsOf d (write_all setters d)
unfolding write_all
write_all-IsOf [] d = record {
  context = refl;
  parentage = refl;
  intent = refl;
  subject = refl;
  label = refl;
  manual_name = refl;
  kind = refl;
}
write_all-IsOf (setter ∷ rest) d =
    ground (arith, write-IsOf setter d, write_all-IsOf rest (write setter d))

manual_span_name_full : (name : Text) → is_empty (manual_span_name name) ≡ false
unfolding manual_span_name is_empty
manual_span_name_full [] = refl
manual_span_name_full (c ∷ s) = refl

same_trace_self : (t : Text) → text_eq t t ≡ true
same_trace_self t = (text_eq_iff t t).1 refl

normalize-IsOf : (d : SpanDraft) → IsOf d (normalize_manual_error d)
unfolding normalize_manual_error
normalize-IsOf d = ground arith

-- A manual draft has a type for its error once it is normalised.
normalize_typed :
    (d : SpanDraft) (name : Text)
    → d.manual_name ≡ some name
    → (is_error (normalize_manual_error d).status && is_blank (normalize_manual_error d).error_type)
      ≡ false
unfolding normalize_manual_error is_none
normalize_typed d name e = ground arith

module _ (conversations : ℕ → ConversationContext) where
  pub check_conversation_ok :
      (d : SpanDraft)
      → ((n : ℕ) → is_empty (conversations n).conversation_id ≡ false)
      → check_conversation conversations d ≡ ok tt
  unfolding check_conversation raise_if
  check_conversation_ok d full = elim (Option-cases d.conversation) [
    | inl e ↦ rw e refl
    | inr (conv, e) ↦ rw (e, full conv) refl
  ]

  checked_manual :
      (end_ns : ℕ) (d : SpanDraft) (name : Text)
      → check_conversation conversations d ≡ ok tt
      → d.manual_name ≡ some name
      → is_empty name ≡ false
      → d.intent ≡ none
      → (is_error d.status && is_blank d.error_type) ≡ false
      → d.context.trace_id ≡ d.parentage.trace_id
      → checked conversations end_ns d ≡ ok (span_of name end_ns d)
  unfolding checked check_name check_structure check_status check_extra check_trace name_of raise_if
      is_same_trace is_none
  checked_manual end_ns d name conversing named nonempty plain typed home =
      ground (arith, conversing, same_trace_self d.parentage.trace_id.value)

  -- A span that a user opens by name is never refused, whatever was written on it, where every
  -- conversation has an identifier: it is finished under the name it was given, or under `span`
  -- where that was empty, in its parentage's trace and under its parent, and an error has a type.
  pub finish-manual_draft :
      (generated : SpanId) (parentage : Parentage) (name : Text) (kind : SpanKind)
      (start_ns end_ns : ℕ) (source : CaptureSource) (setters : List Setter)
      → ((n : ℕ) → is_empty (conversations n).conversation_id ≡ false)
      → (span : InternalSpan) × ((finish conversations
            (some end_ns)
            (write_all setters (manual_draft generated parentage name kind start_ns source))).1
          ≡ ok span)
        × (span.name ≡ manual_span_name name)
        × (span.context.trace_id ≡ parentage.trace_id)
        × (span.parent_span_id ≡ parentage.parent_span_id)
        × ((is_error span.status && is_blank span.error_type) ≡ false)
  unfolding finish finish_at manual_draft new_draft child_context span_of
  finish-manual_draft generated parentage name kind start_ns end_ns source setters full =
      let base = manual_draft generated parentage name kind start_ns source in
      let d = write_all setters base in
      let normal = normalize_manual_error d in
      let same = write_all-IsOf setters base in
      let kept = normalize-IsOf d in
      let typed = normalize_typed d (manual_span_name name) same.manual_name in
      (
        span_of (manual_span_name name) end_ns normal,
        checked_manual end_ns normal (manual_span_name name) (check_conversation_ok normal full)
            (kept.manual_name ∙ same.manual_name) (manual_span_name_full name)
            (kept.intent ∙ same.intent) typed
            (ap (λ c. c.trace_id) (kept.context ∙ same.context)
              ∙ sym (ap (λ p. p.trace_id) (kept.parentage ∙ same.parentage))),
        refl,
        ap (λ c. c.trace_id) (kept.context ∙ same.context),
        ap (λ p. p.parent_span_id) (kept.parentage ∙ same.parentage),
        typed,
      )
