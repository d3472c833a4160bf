-- ===== src/Assembly/Builder/Ready.antt =====
-- The drafts of vocabulary spans: when a finish refuses one.
use wardex_sdk.Prelude.{
  ℕ, Bool, true, false, not, ◌||◌, ◌&&◌, Option, none, some, List, [], ◌∷◌, ◌≡◌, refl, sym, ap, ◌∙◌,
  ◌↔◌, arith, if◌then◌else◌, All, all, holds_if, both_true, and_true,
}
use wardex_sdk.Prelude.Text.{Text, codes, text_eq, text_eq_iff, strip}
use wardex_sdk.Prelude.Results.{Result, ok, raise, raise_if}
use wardex_sdk.Types.{SpanId}
use wardex_sdk.Assembly.Vocabulary.{
  is_empty, SpanIntent, vocabulary_name, intent_value, value_and, rules,
}
use wardex_sdk.Assembly.Parentage.Resolve.{Parentage, is_none, child_context}
use wardex_sdk.Spans.Enums.{SpanKind, CaptureSource}
use wardex_sdk.Spans.Attributes.{ConversationContext}
use wardex_sdk.Spans.Span.{InternalSpan}
use wardex_sdk.Assembly.Builder.Draft.{
  SpanDraft, VocabularyError, new_draft, missing_subject, missing_blocks, missing_extra_keys,
  error_without_type, undeclared_extra,
}
use wardex_sdk.Assembly.Builder.Setters.{Setter, write_all}
use wardex_sdk.Assembly.Builder.Finish.{
  finish, finish_at, checked, check_name, check_intent_name, check_structure, check_status,
  check_conversation, check_extra, check_trace, name_of, normalize_manual_error, span_of, is_blank,
  is_error, is_same_trace, ends_with, has_block, has_key, is_declared,
}
use wardex_sdk.Assembly.Builder.Manual.{IsOf, check_conversation_ok, write_all-IsOf}

module _ {ℓ} {A : Type ℓ} (p : A → Bool) where
  all-All : (xs : List A) → all p xs ≡ true → All (λ x. p x ≡ true) xs
  all-All [] h = tt
  all-All (x ∷ xs) h = let parts = both_true (p x) (all p xs) h in (parts.0, all-All xs parts.1)

  all_of_All : (xs : List A) → All (λ x. p x ≡ true) xs → all p xs ≡ true
  all_of_All [] h = refl
  all_of_All (x ∷ xs) h = and_true (p x) (all p xs) h.0 (all_of_All xs h.1)

-- What a vocabulary span must have: the blocks and extra keys of its intent, a type for an error,
-- only declared extra keys, and a subject that does not end in the word `None`.
pub record IsReady (intent : SpanIntent) (d : SpanDraft) : Type 0 where
  pub blocks : All (λ b. has_block d b ≡ true) (rules intent).required
  pub keys : All (λ k. has_key d.extra k ≡ true) (rules intent).required_extra
  pub typed : (is_error d.status && is_blank d.error_type) ≡ false
  pub declared : All (λ e. is_declared e ≡ true) d.extra
  pub subject : ends_with (codes " None") (vocabulary_name intent d.subject) ≡ false

-- A name that is neither empty nor the word `None`.
abbrev IsNamed : Text → Type 0
IsNamed name = (is_empty name ≡ false) × (text_eq name (codes "None") ≡ false)

-- An intent starts with a letter in lower case.
intent_value-IsNamed : (intent : SpanIntent) → IsNamed (intent_value intent)
unfolding intent_value is_empty text_eq
intent_value-IsNamed intent = ground arith

value_and-IsNamed :
    (intent : SpanIntent) (rest : Text) → IsNamed (value_and (intent_value intent) rest)
unfolding intent_value is_empty text_eq value_and
value_and-IsNamed intent rest = ground arith

vocabulary_name-IsNamed :
    (intent : SpanIntent) (subject : Option Text) → IsNamed (vocabulary_name intent subject)
unfolding vocabulary_name
vocabulary_name-IsNamed intent none = intent_value-IsNamed intent
vocabulary_name-IsNamed intent (some subject) =
    holds_if IsNamed (is_empty (strip subject) || text_eq (strip subject) (codes "None")) _ _
      (λ _. intent_value-IsNamed intent) (λ _. value_and-IsNamed intent (strip subject))

name_of-vocabulary :
    (d : SpanDraft) (intent : SpanIntent)
    → d.manual_name ≡ none
    → d.label ≡ none
    → d.intent ≡ some intent
    → name_of d ≡ vocabulary_name intent d.subject
unfolding name_of
name_of-vocabulary d intent unnamed unlabelled meant = ground arith

-- A vocabulary name is of its grammar, so only its ending can be refused.
check_name-vocabulary :
    (d : SpanDraft) (intent : SpanIntent)
    → d.intent ≡ some intent
    → check_name (vocabulary_name intent d.subject) d
      ≡ raise_if (ends_with (codes " None") (vocabulary_name intent d.subject)) missing_subject
unfolding check_name check_intent_name raise_if
check_name-vocabulary d intent meant =
    let name = vocabulary_name intent d.subject in
    let named = vocabulary_name-IsNamed intent d.subject in
    ground (arith, named, (text_eq_iff name name).1 refl)

check_trace_home :
    (d : SpanDraft) → d.context.trace_id ≡ d.parentage.trace_id → check_trace d ≡ ok tt
unfolding check_trace is_same_trace raise_if
check_trace_home d home =
    let same =
      (text_eq_iff d.context.trace_id.value d.parentage.trace_id.value).1
        (ap (λ t. t.value) home) in
    ground arith

module _ (conversations : ℕ → ConversationContext) (end_ns : ℕ) (intent : SpanIntent) where
  -- The first of the five reasons that holds, or the span.
  verdict : SpanDraft → Result VocabularyError InternalSpan
  verdict d =
      if ends_with (codes " None") (vocabulary_name intent d.subject)
      then raise missing_subject
      else if not (all (has_block d) (rules intent).required)
      then raise missing_blocks
      else if not (all (has_key d.extra) (rules intent).required_extra)
      then raise missing_extra_keys
      else if is_error d.status && is_blank d.error_type
      then raise error_without_type
      else if not (all is_declared d.extra)
      then raise undeclared_extra
      else ok (span_of (vocabulary_name intent d.subject) end_ns d)

  checked-verdict :
      (d : SpanDraft)
      → check_conversation conversations d ≡ ok tt
      → d.manual_name ≡ none
      → d.label ≡ none
      → d.intent ≡ some intent
      → d.context.trace_id ≡ d.parentage.trace_id
      → checked conversations end_ns d ≡ verdict d
  unfolding checked check_structure check_status check_extra raise_if is_none verdict
  checked-verdict d conversing unnamed unlabelled meant home = ground (
    arith,
    name_of-vocabulary d intent unnamed unlabelled meant,
    check_name-vocabulary d intent meant,
    check_trace_home d home,
  )

  verdict_ready :
      (d : SpanDraft)
      → IsReady intent d
      → verdict d ≡ ok (span_of (vocabulary_name intent d.subject) end_ns d)
  unfolding verdict
  verdict_ready d h = ground (
    arith,
    h.subject,
    h.typed,
    all_of_All (has_block d) (rules intent).required h.blocks,
    all_of_All (has_key d.extra) (rules intent).required_extra h.keys,
    all_of_All is_declared d.extra h.declared,
  )

  verdict-IsReady : (d : SpanDraft) (span : InternalSpan) → verdict d ≡ ok span → IsReady intent d
  unfolding verdict
  verdict-IsReady d span h = record {
    blocks = all-All (has_block d) (rules intent).required (ground arith);
    keys = all-All (has_key d.extra) (rules intent).required_extra (ground arith);
    typed = ground arith;
    declared = all-All is_declared d.extra (ground arith);
    subject = ground arith;
  }

normalize_vocabulary : (d : SpanDraft) → d.manual_name ≡ none → normalize_manual_error d ≡ d
unfolding normalize_manual_error is_none
normalize_vocabulary d unnamed = ground arith

module _ (conversations : ℕ → ConversationContext) where
  -- A vocabulary span, whatever was written on it, where every conversation has an identifier, is
  -- finished, in its parentage's trace under its parent and named by its intent and subject,
  -- exactly when it has the blocks and the extra keys of its intent, a type for its error, declared
  -- extra keys only and no name that ends in the word `None`.
  pub finish_iff-IsReady :
      (generated : SpanId) (parentage : Parentage) (intent : SpanIntent) (subject : Option Text)
      (start_ns end_ns : ℕ) (source : CaptureSource) (kind : Option SpanKind)
      (setters : List Setter) (d : SpanDraft)
      → ((n : ℕ) → is_empty (conversations n).conversation_id ≡ false)
      → d
        ≡ write_all setters
            (new_draft generated parentage (some intent) subject source start_ns kind)
      → ((span : InternalSpan) × ((finish conversations (some end_ns) d).1 ≡ ok span)
          × (span.name ≡ vocabulary_name intent subject)
          × (span.context.trace_id ≡ parentage.trace_id)
          × (span.parent_span_id ≡ parentage.parent_span_id))
        ↔ IsReady intent d
  unfolding finish finish_at new_draft child_context span_of
  finish_iff-IsReady generated parentage intent subject start_ns end_ns source kind setters d full
        e =
      let base = new_draft generated parentage (some intent) subject source start_ns kind in
      let same : IsOf base d = rw e (write_all-IsOf setters base) in
      let unnamed = same.manual_name in
      let home = ap (λ c. c.trace_id) same.context in
      let owned = ap (λ p. p.trace_id) same.parentage in
      let judged =
        checked-verdict conversations end_ns intent d (check_conversation_ok conversations d full)
          unnamed same.label same.intent (home ∙ sym owned) in
      let normal = ap (checked conversations end_ns) (normalize_vocabulary d unnamed) ∙ judged in
      (
        (λ finished.
            verdict-IsReady conversations end_ns intent d finished.0 (sym normal ∙ finished.1)),
        λ ready. (
          span_of (vocabulary_name intent d.subject) end_ns d,
          normal ∙ verdict_ready conversations end_ns intent d ready,
          ap (vocabulary_name intent) same.subject,
          home,
          ap (λ p. p.parent_span_id) same.parentage,
        ),
      )
