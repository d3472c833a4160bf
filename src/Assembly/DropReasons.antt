-- ===== src/Assembly/DropReasons.antt =====
-- sdks/python/src/wardex_sdk/_assembly/_drop_reasons.py: the closed vocabulary of the drop ledger.
pub mod Info
pub mod Keys
use wardex_sdk.Prelude.{List, [], ◌∷◌}
use wardex_sdk.Prelude.Text.{Text, codes}

pub data DropUnit : Type 0 where
  span snapshot request connection stream session run message bridge_span bridge_session entry :
      DropUnit
  link hook_event payload marker attribute process seam adapter failure report : DropUnit

pub data DropReason : Type 0 where
  network_error send_error ratelimit_backoff send_unconfirmed request_too_large : DropReason
  budget_exhausted partial_success unmarshallable transport_unsupported queue_overflow : DropReason
  cache_overflow before_send before_send_error after_close shutdown_tail backpressure : DropReason
  internal_sdk_error diagnostic_unwritable ledger_overflow mode_refused excluded_by_policy :
      DropReason
  parser_disabled response_unobserved request_unobserved connection_evicted in_flight_at_close :
      DropReason
  unclassified_connection table_full late_to_closed_unit marker_lost link_lost : DropReason
  attribute_dropped instrumentation_unavailable patch_superseded child_uninitialized : DropReason
  attribute_cap body_cap ws_sample_cap ws_frame_cap decoded_cap bridge_late bridge_unroutable :
      DropReason
  bridge_request_rejected bridge_unrecognized bridge_incomplete bridge_retired : DropReason
  bridge_merge_skipped bridge_unavailable framework_tracing_disabled framework_event_unmatched :
      DropReason
  framework_span_kind_unmapped hooks_absent stream_line_unrecognized payload_unserializable :
      DropReason
  usage_withheld launch_unrecognized : DropReason

-- `DropUnit.value`.
unfoldable pub unit_value : DropUnit → Text
unit_value span = codes "span"
unit_value snapshot = codes "snapshot"
unit_value request = codes "request"
unit_value connection = codes "connection"
unit_value stream = codes "stream"
unit_value session = codes "session"
unit_value run = codes "run"
unit_value message = codes "message"
unit_value bridge_span = codes "bridge_span"
unit_value bridge_session = codes "bridge_session"
unit_value entry = codes "entry"
unit_value link = codes "link"
unit_value hook_event = codes "hook_event"
unit_value payload = codes "payload"
unit_value marker = codes "marker"
unit_value attribute = codes "attribute"
unit_value process = codes "process"
unit_value seam = codes "seam"
unit_value adapter = codes "adapter"
unit_value failure = codes "failure"
unit_value report = codes "report"

-- `DropReason.value`.
unfoldable pub reason_value : DropReason → Text
reason_value network_error = codes "network_error"
reason_value send_error = codes "send_error"
reason_value ratelimit_backoff = codes "ratelimit_backoff"
reason_value send_unconfirmed = codes "send_unconfirmed"
reason_value request_too_large = codes "request_too_large"
reason_value budget_exhausted = codes "budget_exhausted"
reason_value partial_success = codes "partial_success"
reason_value unmarshallable = codes "unmarshallable"
reason_value transport_unsupported = codes "transport_unsupported"
reason_value queue_overflow = codes "queue_overflow"
reason_value cache_overflow = codes "cache_overflow"
reason_value before_send = codes "before_send"
reason_value before_send_error = codes "before_send_error"
reason_value after_close = codes "after_close"
reason_value shutdown_tail = codes "shutdown_tail"
reason_value backpressure = codes "backpressure"
reason_value internal_sdk_error = codes "internal_sdk_error"
reason_value diagnostic_unwritable = codes "diagnostic_unwritable"
reason_value ledger_overflow = codes "ledger_overflow"
reason_value mode_refused = codes "mode_refused"
reason_value excluded_by_policy = codes "excluded_by_policy"
reason_value parser_disabled = codes "parser_disabled"
reason_value response_unobserved = codes "response_unobserved"
reason_value request_unobserved = codes "request_unobserved"
reason_value connection_evicted = codes "connection_evicted"
reason_value in_flight_at_close = codes "in_flight_at_close"
reason_value unclassified_connection = codes "unclassified_connection"
reason_value table_full = codes "table_full"
reason_value late_to_closed_unit = codes "late_to_closed_unit"
reason_value marker_lost = codes "marker_lost"
reason_value link_lost = codes "link_lost"
reason_value attribute_dropped = codes "attribute_dropped"
reason_value instrumentation_unavailable = codes "instrumentation_unavailable"
reason_value patch_superseded = codes "patch_superseded"
reason_value child_uninitialized = codes "child_uninitialized"
reason_value attribute_cap = codes "attribute_cap"
reason_value body_cap = codes "body_cap"
reason_value ws_sample_cap = codes "ws_sample_cap"
reason_value ws_frame_cap = codes "ws_frame_cap"
reason_value decoded_cap = codes "decoded_cap"
reason_value bridge_late = codes "bridge_late"
reason_value bridge_unroutable = codes "bridge_unroutable"
reason_value bridge_request_rejected = codes "bridge_request_rejected"
reason_value bridge_unrecognized = codes "bridge_unrecognized"
reason_value bridge_incomplete = codes "bridge_incomplete"
reason_value bridge_retired = codes "bridge_retired"
reason_value bridge_merge_skipped = codes "bridge_merge_skipped"
reason_value bridge_unavailable = codes "bridge_unavailable"
reason_value framework_tracing_disabled = codes "framework_tracing_disabled"
reason_value framework_event_unmatched = codes "framework_event_unmatched"
reason_value framework_span_kind_unmapped = codes "framework_span_kind_unmapped"
reason_value hooks_absent = codes "hooks_absent"
reason_value stream_line_unrecognized = codes "stream_line_unrecognized"
reason_value payload_unserializable = codes "payload_unserializable"
reason_value usage_withheld = codes "usage_withheld"
reason_value launch_unrecognized = codes "launch_unrecognized"

unfoldable pub all_units : List DropUnit
all_units =
    span ∷ snapshot ∷ request ∷ connection ∷ stream ∷ session ∷ run ∷ message ∷ bridge_span
    ∷ bridge_session ∷ entry ∷ link ∷ hook_event ∷ payload ∷ marker ∷ attribute ∷ process ∷ seam
    ∷ adapter ∷ failure ∷ report ∷ []

unfoldable pub all_reasons : List DropReason
all_reasons =
    network_error ∷ send_error ∷ ratelimit_backoff ∷ send_unconfirmed ∷ request_too_large
    ∷ budget_exhausted ∷ partial_success ∷ unmarshallable ∷ transport_unsupported ∷ queue_overflow
    ∷ cache_overflow ∷ before_send ∷ before_send_error ∷ after_close ∷ shutdown_tail ∷ backpressure
    ∷ internal_sdk_error ∷ diagnostic_unwritable ∷ ledger_overflow ∷ mode_refused
    ∷ excluded_by_policy ∷ parser_disabled ∷ response_unobserved ∷ request_unobserved
    ∷ connection_evicted ∷ in_flight_at_close ∷ unclassified_connection ∷ table_full
    ∷ late_to_closed_unit ∷ marker_lost ∷ link_lost ∷ attribute_dropped
    ∷ instrumentation_unavailable ∷ patch_superseded ∷ child_uninitialized ∷ attribute_cap
    ∷ body_cap ∷ ws_sample_cap ∷ ws_frame_cap ∷ decoded_cap ∷ bridge_late ∷ bridge_unroutable
    ∷ bridge_request_rejected ∷ bridge_unrecognized ∷ bridge_incomplete ∷ bridge_retired
    ∷ bridge_merge_skipped ∷ bridge_unavailable ∷ framework_tracing_disabled
    ∷ framework_event_unmatched ∷ framework_span_kind_unmapped ∷ hooks_absent
    ∷ stream_line_unrecognized ∷ payload_unserializable ∷ usage_withheld ∷ launch_unrecognized ∷ []
