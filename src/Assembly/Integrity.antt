-- ===== src/Assembly/Integrity.antt =====
-- sdks/python/src/wardex_sdk/_assembly/_integrity.py: the markers of what a span could not tell.
use wardex_sdk.Prelude.{ℕ, Bool, nat_eq}

pub data Limitation : Type 0 where
  parent_unresolved unit_inferred_sole correlation_conflict alias_forgotten : Limitation
  context_propagation_degraded context_propagation_unavailable unit_evicted unit_interrupted :
      Limitation
  child_span_unclosed unit_table_full session_entry_table_full adapter_uninstalled : Limitation
  patch_superseded instrumentation_degraded tracking_reset_at_fork no_wire_evidence : Limitation
  possible_duplicate_chat stream_buffer_exceeded tool_call_id_unavailable_in_process : Limitation
  snapshot_type_unknown tool_name_collision link_ambiguous connect_timing_unavailable : Limitation
  ttft_unavailable_h2 ttft_ipc_approximation transport_timing_unavailable_subprocess : Limitation
  peer_unresolved body_cap_exceeded grpc_message_truncated ws_payload_truncated : Limitation
  connection_evicted h2_request_evicted parse_skipped_at_shutdown otlp_attribute_truncated :
      Limitation
  extra_keys_dropped parse_backlog_full frame_parse_failed semantic_parse_failed : Limitation
  payload_compressed tool_args_unparsed output_messages_unmapped_part : Limitation
  input_messages_unmapped_part provider_inferred reassembled_from_stream : Limitation
  stream_usage_unavailable sse_unknown_provider sse_event_unparsed grpc_web_unsupported : Limitation
  grpc_status_unavailable ws_no_close ws_llm_semantics_unread session_aborted : Limitation
  otel_bridge_no_data otel_bridge_schema_unknown otel_bridge_join_tolerant : Limitation
  subprocess_model_calls_unobserved pii_filter_failed : Limitation

-- A limitation's place in the enumeration, by which two are told apart.
unfoldable pub place : Limitation → ℕ
place parent_unresolved = 0
place unit_inferred_sole = 1
place correlation_conflict = 2
place alias_forgotten = 3
place context_propagation_degraded = 4
place context_propagation_unavailable = 5
place unit_evicted = 6
place unit_interrupted = 7
place child_span_unclosed = 8
place unit_table_full = 9
place session_entry_table_full = 10
place adapter_uninstalled = 11
place patch_superseded = 12
place instrumentation_degraded = 13
place tracking_reset_at_fork = 14
place no_wire_evidence = 15
place possible_duplicate_chat = 16
place stream_buffer_exceeded = 17
place tool_call_id_unavailable_in_process = 18
place snapshot_type_unknown = 19
place tool_name_collision = 20
place link_ambiguous = 21
place connect_timing_unavailable = 22
place ttft_unavailable_h2 = 23
place ttft_ipc_approximation = 24
place transport_timing_unavailable_subprocess = 25
place peer_unresolved = 26
place body_cap_exceeded = 27
place grpc_message_truncated = 28
place ws_payload_truncated = 29
place connection_evicted = 30
place h2_request_evicted = 31
place parse_skipped_at_shutdown = 32
place otlp_attribute_truncated = 33
place extra_keys_dropped = 34
place parse_backlog_full = 35
place frame_parse_failed = 36
place semantic_parse_failed = 37
place payload_compressed = 38
place tool_args_unparsed = 39
place output_messages_unmapped_part = 40
place input_messages_unmapped_part = 41
place provider_inferred = 42
place reassembled_from_stream = 43
place stream_usage_unavailable = 44
place sse_unknown_provider = 45
place sse_event_unparsed = 46
place grpc_web_unsupported = 47
place grpc_status_unavailable = 48
place ws_no_close = 49
place ws_llm_semantics_unread = 50
place session_aborted = 51
place otel_bridge_no_data = 52
place otel_bridge_schema_unknown = 53
place otel_bridge_join_tolerant = 54
place subprocess_model_calls_unobserved = 55
place pii_filter_failed = 56

-- `is`.
unfoldable pub is_same : Limitation → Limitation → Bool
unfolding place
is_same a b = nat_eq (place a) (place b)
