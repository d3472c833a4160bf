-- ===== src/Spans/Attributes.antt =====
-- sdks/python/src/wardex_sdk/_types.py: the blocks of attributes that a span carries. A value of one
-- of the enumerations that may also be a text is the text of its value.
use wardex_sdk.Prelude.{ℕ, Bool, Option, List}
use wardex_sdk.Prelude.Text.{Text}
use wardex_sdk.Assembly.Parentage.Confidence.{Float}
use wardex_sdk.Spans.Enums.{OperationName, AgentType, ToolExecutionType}

-- What a host may have put in a field that is annotated otherwise: a text, bytes (or a bytearray),
-- a view of so many bytes (or a released one), anything else; or a collection or a dictionary of
-- these, where a collection inside another is `other`.
pub data Leaf : Type 0 where
  str : Text → Leaf
  byte_string : List ℕ → Leaf
  view : Option ℕ → Leaf
  other : Leaf

pub data Value : Type 0 where
  leaf : Leaf → Value
  collection : List Leaf → Value
  dictionary : List (Leaf × Leaf) → Value

-- A count of tokens: an integer that is not negative, or what is not a number.
pub data Tokens : Type 0 where
  count : ℕ → Tokens
  not_counted : Tokens

pub data Operation : Type 0 where
  known : OperationName → Operation
  named : Text → Operation

pub record GenAiAttributes : Type 0 where
  pub operation : Operation
  pub provider : Option Text
  pub request_model : Option Text
  pub response_model : Option Text
  pub response_id : Option Text
  pub input_tokens : Tokens
  pub output_tokens : Tokens
  pub cache_read_input_tokens : Tokens
  pub cache_creation_input_tokens : Tokens
  pub reasoning_output_tokens : Tokens
  pub temperature : Option Float
  pub max_tokens : Option ℕ
  pub top_p : Option Float
  pub top_k : Option Float
  pub seed : Option ℕ
  pub frequency_penalty : Option Float
  pub presence_penalty : Option Float
  pub choice_count : Option ℕ
  pub stop_sequences : Option (List Text)
  pub encoding_formats : Option (List Text)
  pub stream : Option Bool
  pub finish_reasons : Option (List Text)
  pub output_type : Option Text
  pub time_to_first_chunk_s : Option Float
  pub response_status : Option Text
  pub reasoning_level : Option Text
  pub previous_response_id : Option Text
  pub system_instructions : Value
  pub tool_definitions_hash : Option Text
  pub prompt_name : Option Text

pub record AgentAttributes : Type 0 where
  pub name : Text
  pub id : Option Text
  pub description : Option Text
  pub version : Option Text
  pub agent_type : AgentType
  pub parent_agent : Option Text

pub record ToolAttributes : Type 0 where
  pub name : Text
  pub call_id : Option Text
  pub description : Option Text
  pub type_name : Option Text
  pub execution_type : ToolExecutionType

pub record CallSite : Type 0 where
  pub file : Text
  pub line : ℕ
  pub function : Text
  pub module_name : Option Text

pub record RetrievalAttributes : Type 0 where
  pub data_source_id : Option Text
  pub query_text : Value
  pub documents : Value

pub record EmbeddingsAttributes : Type 0 where
  pub dimension_count : Option ℕ

pub record EvaluationAttributes : Type 0 where
  pub name : Option Text
  pub explanation : Option Text
  pub score_value : Option Float
  pub score_label : Option Text

pub record ConversationContext : Type 0 where
  pub conversation_id : Text
  pub session_id : Option Text
  pub turn_index : ℕ
