-- ===== src/Spans/Enums.antt =====
-- sdks/python/src/wardex_sdk/_enums.py: the enumerations that describe a span.
pub data StatusCode : Type 0 where
  unset ok error : StatusCode

pub data SpanKind : Type 0 where
  internal client server producer consumer : SpanKind

pub data OperationName : Type 0 where
  chat text_completion embeddings execute_tool create_agent invoke_agent : OperationName
  invoke_workflow generate_content retrieval execute_step handoff evaluate : OperationName

pub data CaptureSource : Type 0 where
  adapter ssl socket stdio grpc websocket manual otel_bridge : CaptureSource

pub data AgentType : Type 0 where
  primary sub_agent team_member : AgentType

pub data ToolExecutionType : Type 0 where
  network in_process ipc unknown : ToolExecutionType

pub StatusCode-discrete : Discrete StatusCode
StatusCode-discrete = hlevel

pub CaptureSource-discrete : Discrete CaptureSource
CaptureSource-discrete = hlevel
