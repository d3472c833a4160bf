-- ===== src/Assembly/Vocabulary.antt =====
-- sdks/python/src/wardex_sdk/_assembly/_vocab.py: what a span may say that it does, the blocks that it
-- must then carry, and the grammar of its name.
use wardex_sdk.Prelude.{
  Bool, true, false, ◌||◌, Option, none, some, List, [], ◌∷◌, ◌++◌, ◌&&◌, nat_eq, if◌then◌else◌,
}
use wardex_sdk.Prelude.Text.{Text, codes, strip, text_eq}
use wardex_sdk.Spans.Enums.{SpanKind, OperationName}

pub data Block : Type 0 where
  gen_ai agent tool retrieval embeddings evaluation workflow_name : Block

pub data SpanIntent : Type 0 where
  invoke_workflow create_agent invoke_agent execute_step handoff evaluate execute_tool : SpanIntent
  chat text_completion embeddings generate_content retrieval : SpanIntent

pub data LinkReason : Type 0 where
  triggered_by handoff_from resumed_from retried_from cache_source : LinkReason

pub data TransportLabel : Type 0 where
  http grpc websocket mcp : TransportLabel

pub record Rule : Type 0 where
  pub operation : OperationName
  pub kind : SpanKind
  pub required : List Block
  pub required_extra : List Text

rule_of : OperationName → SpanKind → List Block → Rule
rule_of operation kind required = record {
  operation = operation;
  kind = kind;
  required = required;
  required_extra = [];
}

unfoldable pub intent_value : SpanIntent → Text
intent_value SpanIntent.invoke_workflow = codes "invoke_workflow"
intent_value SpanIntent.create_agent = codes "create_agent"
intent_value SpanIntent.invoke_agent = codes "invoke_agent"
intent_value SpanIntent.execute_step = codes "execute_step"
intent_value SpanIntent.handoff = codes "handoff"
intent_value SpanIntent.evaluate = codes "evaluate"
intent_value SpanIntent.execute_tool = codes "execute_tool"
intent_value SpanIntent.chat = codes "chat"
intent_value SpanIntent.text_completion = codes "text_completion"
intent_value SpanIntent.embeddings = codes "embeddings"
intent_value SpanIntent.generate_content = codes "generate_content"
intent_value SpanIntent.retrieval = codes "retrieval"

unfoldable pub rules : SpanIntent → Rule
unfolding rule_of
rules SpanIntent.invoke_workflow =
    rule_of OperationName.invoke_workflow SpanKind.internal (Block.workflow_name ∷ [])
rules SpanIntent.create_agent =
    rule_of OperationName.create_agent SpanKind.internal (Block.agent ∷ [])
rules SpanIntent.invoke_agent =
    rule_of OperationName.invoke_agent SpanKind.internal (Block.agent ∷ [])
rules SpanIntent.execute_step = record {
  operation = OperationName.execute_step;
  kind = SpanKind.internal;
  required = [];
  required_extra = codes "wardex.step.name" ∷ [];
}
rules SpanIntent.handoff = rule_of OperationName.handoff SpanKind.internal (Block.agent ∷ [])
rules SpanIntent.evaluate = rule_of OperationName.evaluate SpanKind.internal (Block.evaluation ∷ [])
rules SpanIntent.execute_tool =
    rule_of OperationName.execute_tool SpanKind.internal (Block.tool ∷ [])
rules SpanIntent.chat = rule_of OperationName.chat SpanKind.client (Block.gen_ai ∷ [])
rules SpanIntent.text_completion =
    rule_of OperationName.text_completion SpanKind.client (Block.gen_ai ∷ [])
rules SpanIntent.embeddings =
    rule_of OperationName.embeddings SpanKind.client (Block.gen_ai ∷ Block.embeddings ∷ [])
rules SpanIntent.generate_content =
    rule_of OperationName.generate_content SpanKind.client (Block.gen_ai ∷ [])
rules SpanIntent.retrieval = rule_of OperationName.retrieval SpanKind.client (Block.retrieval ∷ [])

unfoldable pub label_value : TransportLabel → Text
label_value TransportLabel.http = codes "HTTP"
label_value TransportLabel.grpc = codes "gRPC"
label_value TransportLabel.websocket = codes "WS"
label_value TransportLabel.mcp = codes "MCP"

-- `not text`.
unfoldable pub is_empty : Text → Bool
is_empty [] = true
is_empty (c ∷ s) = false

-- `f"{value} {subject}"`.
unfoldable pub value_and : Text → Text → Text
value_and value subject = value ++ 32 ∷ subject

unfoldable pub vocabulary_name : SpanIntent → Option Text → Text
unfolding intent_value is_empty value_and
vocabulary_name intent none = intent_value intent
vocabulary_name intent (some subject) =
    let s = strip subject in
    if is_empty s || text_eq s (codes "None")
    then intent_value intent
    else value_and (intent_value intent) s

unfoldable pub transport_name : TransportLabel → Option Text → Text
unfolding label_value is_empty value_and
transport_name label none = label_value label
transport_name label (some subject) =
    let s = strip subject in
    if is_empty s then label_value label else value_and (label_value label) s

-- `key.startswith(prefix)`.
unfoldable pub has_prefix : Text → Text → Bool
has_prefix [] key = true
has_prefix (c ∷ prefix) [] = false
has_prefix (c ∷ prefix) (d ∷ key) = nat_eq c d && has_prefix prefix key

unfoldable pub has_any_prefix : List Text → Text → Bool
unfolding has_prefix
has_any_prefix [] key = false
has_any_prefix (prefix ∷ rest) key = has_prefix prefix key || has_any_prefix rest key

abbrev pub declared_extra_prefixes : List Text
declared_extra_prefixes =
    codes "gen_ai."
    ∷ codes "wardex."
    ∷ codes "mcp."
    ∷ codes "network."
    ∷ codes "openai."
    ∷ codes "rpc."
    ∷ codes "ws."
    ∷ codes "http."
    ∷ codes "server."
    ∷ codes "url."
    ∷ codes "error."
    ∷ codes "code."
    ∷ []

unfoldable pub is_declared_extra_key : Text → Bool
unfolding has_any_prefix
is_declared_extra_key key = has_any_prefix declared_extra_prefixes key
