-- ===== src/Assembly/Builder/Finish.antt =====
-- SpanDraft.finish: the checks of a draft and the span that it becomes.
use wardex_sdk.Prelude.{
  ℕ, Bool, true, false, not, ◌||◌, ◌&&◌, Option, none, some, List, [], ◌∷◌, all, if◌then◌else◌,
}
use wardex_sdk.Prelude.Dicts.{or_else}
use wardex_sdk.Prelude.Text.{Text, codes, text_eq}
use wardex_sdk.Prelude.Results.{Result, ok, raise, raise_if}
use wardex_sdk.Types.{TraceId}
use wardex_sdk.Assembly.Parentage.Resolve.{is_none}
use wardex_sdk.Assembly.Vocabulary.{
  Block, SpanIntent, rules, intent_value, vocabulary_name, transport_name, is_empty,
  is_declared_extra_key,
}
use wardex_sdk.Spans.Enums.{StatusCode, SpanKind}
use wardex_sdk.Spans.Attributes.{GenAiAttributes, ConversationContext, known}
use wardex_sdk.Spans.Span.{Scalar, InternalSpan}
use wardex_sdk.Assembly.Builder.Integrity.{build}
use wardex_sdk.Assembly.Builder.Draft.{
  SpanDraft, VocabularyError, no_end, no_name, off_grammar, missing_subject, missing_blocks,
  missing_extra_keys, error_without_type, empty_conversation_id, undeclared_extra, left_trace,
}

infixl 5 ◌>>=◌
abbrev pub ◌>>=◌ {ℓ κ} :
    {E : Type 0} {A : Type ℓ} {B : Type κ} → Result E A → (A → Result E B) → Result E B
ok a >>= f = f a
raise e >>= f = raise e

-- A check passes, or raises.
abbrev pub Check : Type 0
Check = Result {0, 0} VocabularyError Unit

unfoldable pub name_of : SpanDraft → Text
unfolding transport_name vocabulary_name
name_of d = elim d.manual_name [
  | some name ↦ name
  | none ↦ elim d.label [
    | some label ↦ transport_name label d.subject
    | none ↦ elim d.intent [ some intent ↦ vocabulary_name intent d.subject | none ↦ [] ]
  ]
]

-- `not text` of an optional text.
unfoldable pub is_blank : Option Text → Bool
unfolding is_empty
is_blank none = true
is_blank (some s) = is_empty s

abbrev pub is_error : StatusCode → Bool
is_error StatusCode.error = true
is_error StatusCode.ok = false
is_error StatusCode.unset = false

unfoldable pub normalize_manual_error : SpanDraft → SpanDraft
unfolding is_blank is_none
normalize_manual_error d =
    if is_none d.manual_name
    then d
    else if is_error d.status && is_blank d.error_type
    then record d { error_type = some (codes "_OTHER") }
    else d

-- `text.endswith(end)`.
unfoldable pub ends_with : Text → Text → Bool
ends_with end [] = text_eq end []
ends_with end (c ∷ s) = text_eq end (c ∷ s) || ends_with end s

unfoldable pub check_intent_name : SpanIntent → Option Text → Text → Check
unfolding ends_with
check_intent_name intent subject name = do
  _ ← raise_if (not (text_eq name (vocabulary_name intent subject))) off_grammar
  raise_if (ends_with (codes " None") name || text_eq name (codes "None")) missing_subject

unfoldable pub check_name : Text → SpanDraft → Check
unfolding check_intent_name is_empty
check_name name d = do
  _ ← raise_if (is_empty name) no_name
  elim d.intent [ none ↦ ok tt | some intent ↦ check_intent_name intent d.subject name ]

-- `present[block] is not None`.
unfoldable pub has_block : SpanDraft → Block → Bool
unfolding is_none
has_block d Block.gen_ai = not (is_none d.gen_ai)
has_block d Block.agent = not (is_none d.agent)
has_block d Block.tool = not (is_none d.tool)
has_block d Block.retrieval = not (is_none d.retrieval)
has_block d Block.embeddings = not (is_none d.embeddings)
has_block d Block.evaluation = not (is_none d.evaluation)
has_block d Block.workflow_name = not (is_none d.workflow_name)

-- `key in keys`.
unfoldable pub has_key : List (Text × Scalar) → Text → Bool
has_key [] key = false
has_key ((k, v) ∷ extra) key = text_eq k key || has_key extra key

unfoldable pub check_structure : SpanDraft → Check
unfolding has_block has_key
check_structure d = elim d.intent [
  | none ↦ ok tt
  | some intent ↦ do
    _ ← raise_if (not (all (has_block d) (rules intent).required)) missing_blocks
    raise_if (not (all (has_key d.extra) (rules intent).required_extra)) missing_extra_keys
]

unfoldable pub check_status : SpanDraft → Check
unfolding is_blank
check_status d = raise_if (is_error d.status && is_blank d.error_type) error_without_type

unfoldable pub is_declared : Text × Scalar → Bool
is_declared (key, value) = is_declared_extra_key key

unfoldable pub check_extra : SpanDraft → Check
unfolding is_declared is_none
check_extra d =
    if is_none d.manual_name
    then raise_if (not (all is_declared d.extra)) undeclared_extra
    else ok tt

-- `bytes` are compared as texts are.
unfoldable pub is_same_trace : TraceId → TraceId → Bool
is_same_trace t u = text_eq t.value u.value

unfoldable pub check_trace : SpanDraft → Check
unfolding is_same_trace
check_trace d = raise_if (not (is_same_trace d.context.trace_id d.parentage.trace_id)) left_trace

-- `gen_ai` and `extra` of the finished span: the operation goes into the block, or in front.
unfoldable pub stated_gen_ai : Option SpanIntent → Option GenAiAttributes → Option GenAiAttributes
unfolding rules
stated_gen_ai none gen_ai = gen_ai
stated_gen_ai (some intent) none = none
stated_gen_ai (some intent) (some attrs) =
    some (record attrs { operation = known (rules intent).operation })

abbrev pub operation_key : Text
operation_key = codes "gen_ai.operation.name"

unfoldable pub stated_extra :
    Option SpanIntent
    → Option GenAiAttributes
    → Option Text
    → List (Text × Scalar)
    → List (Text × Scalar)
unfolding intent_value
stated_extra (some intent) (some attrs) label extra = extra
stated_extra (some intent) none label extra =
    (operation_key, Scalar.str (intent_value intent)) ∷ extra
stated_extra none (some attrs) label extra = extra
stated_extra none none none extra = extra
stated_extra none none (some label) extra = (operation_key, Scalar.str label) ∷ extra

unfoldable pub kind_or_internal : Option SpanKind → SpanKind
kind_or_internal none = SpanKind.internal
kind_or_internal (some kind) = kind

unfoldable pub span_of : Text → ℕ → SpanDraft → InternalSpan
unfolding stated_gen_ai stated_extra kind_or_internal build
span_of name end_ns d = record {
  context = d.context;
  parent_span_id = d.parentage.parent_span_id;
  name = name;
  kind = kind_or_internal d.kind;
  start_time_ns = d.start_ns;
  end_time_ns = end_ns;
  status = d.status;
  status_message = d.status_message;
  gen_ai = stated_gen_ai d.intent d.gen_ai;
  agent = d.agent;
  tool = d.tool;
  transport = d.transport;
  retrieval = d.retrieval;
  embeddings = d.embeddings;
  evaluation = d.evaluation;
  conversation = d.conversation;
  call_site = d.call_site;
  error_type = d.error_type;
  server_address = d.server_address;
  server_port = d.server_port;
  workflow_name = d.workflow_name;
  capture_sources = d.sources;
  capture_integrity = build d.integrity;
  correlation = d.correlation;
  input_data = d.input_data;
  output_data = d.output_data;
  extra = stated_extra d.intent d.gen_ai d.operation_label d.extra;
  events = d.events;
  links = d.links;
}

-- The conversation that a number names.
module _ (conversations : ℕ → ConversationContext) where
  unfoldable pub check_conversation : SpanDraft → Check
  unfolding is_empty
  check_conversation d = elim d.conversation [
    | none ↦ ok tt
    | some conv ↦ raise_if (is_empty (conversations conv).conversation_id) empty_conversation_id
  ]

  unfoldable pub checked : ℕ → SpanDraft → Result VocabularyError InternalSpan
  unfolding check_name check_structure check_status check_conversation check_extra check_trace
      span_of name_of
  checked end_ns d = do
    _ ← check_name (name_of d) d
    _ ← check_structure d
    _ ← check_status d
    _ ← check_conversation d
    _ ← check_extra d
    _ ← check_trace d
    ok (span_of (name_of d) end_ns d)

  -- `finish` once the end is settled.
  unfoldable pub finish_at : Option ℕ → SpanDraft → SpanDraft × Result VocabularyError InternalSpan
  unfolding checked normalize_manual_error
  finish_at none d = (d, raise no_end)
  finish_at (some end_ns) d =
      let normal = normalize_manual_error d in (normal, checked end_ns normal)

  unfoldable pub finish : Option ℕ → SpanDraft → SpanDraft × Result VocabularyError InternalSpan
  unfolding finish_at
  finish end_ns d = finish_at (or_else end_ns d.end_ns) d
