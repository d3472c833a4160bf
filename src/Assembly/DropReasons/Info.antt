-- ===== src/Assembly/DropReasons/Info.antt =====
-- sdks/python/src/wardex_sdk/_assembly/_drop_reasons.py: what `REASONS` says of each reason.
use wardex_sdk.Assembly.DropReasons.{DropUnit, DropReason}

-- How bad a recorded reason is.
pub data Loss : Type 0 where
  loss partial no_loss : Loss

-- `REASONS[reason].unit`.
unfoldable pub default_unit : DropReason → DropUnit
default_unit DropReason.network_error = DropUnit.span
default_unit DropReason.send_error = DropUnit.span
default_unit DropReason.ratelimit_backoff = DropUnit.span
default_unit DropReason.send_unconfirmed = DropUnit.span
default_unit DropReason.request_too_large = DropUnit.span
default_unit DropReason.budget_exhausted = DropUnit.request
default_unit DropReason.partial_success = DropUnit.span
default_unit DropReason.unmarshallable = DropUnit.span
default_unit DropReason.transport_unsupported = DropUnit.snapshot
default_unit DropReason.queue_overflow = DropUnit.span
default_unit DropReason.cache_overflow = DropUnit.request
default_unit DropReason.before_send = DropUnit.span
default_unit DropReason.before_send_error = DropUnit.span
default_unit DropReason.after_close = DropUnit.span
default_unit DropReason.shutdown_tail = DropUnit.span
default_unit DropReason.backpressure = DropUnit.span
default_unit DropReason.internal_sdk_error = DropUnit.failure
default_unit DropReason.diagnostic_unwritable = DropUnit.failure
default_unit DropReason.ledger_overflow = DropUnit.report
default_unit DropReason.mode_refused = DropUnit.request
default_unit DropReason.excluded_by_policy = DropUnit.request
default_unit DropReason.parser_disabled = DropUnit.connection
default_unit DropReason.response_unobserved = DropUnit.request
default_unit DropReason.request_unobserved = DropUnit.request
default_unit DropReason.connection_evicted = DropUnit.request
default_unit DropReason.in_flight_at_close = DropUnit.request
default_unit DropReason.unclassified_connection = DropUnit.connection
default_unit DropReason.table_full = DropUnit.entry
default_unit DropReason.late_to_closed_unit = DropUnit.payload
default_unit DropReason.marker_lost = DropUnit.marker
default_unit DropReason.link_lost = DropUnit.link
default_unit DropReason.attribute_dropped = DropUnit.attribute
default_unit DropReason.instrumentation_unavailable = DropUnit.seam
default_unit DropReason.patch_superseded = DropUnit.seam
default_unit DropReason.child_uninitialized = DropUnit.process
default_unit DropReason.attribute_cap = DropUnit.span
default_unit DropReason.body_cap = DropUnit.span
default_unit DropReason.ws_sample_cap = DropUnit.span
default_unit DropReason.ws_frame_cap = DropUnit.span
default_unit DropReason.decoded_cap = DropUnit.span
default_unit DropReason.bridge_late = DropUnit.bridge_span
default_unit DropReason.bridge_unroutable = DropUnit.bridge_span
default_unit DropReason.bridge_request_rejected = DropUnit.request
default_unit DropReason.bridge_unrecognized = DropUnit.bridge_span
default_unit DropReason.bridge_incomplete = DropUnit.session
default_unit DropReason.bridge_retired = DropUnit.session
default_unit DropReason.bridge_merge_skipped = DropUnit.span
default_unit DropReason.bridge_unavailable = DropUnit.adapter
default_unit DropReason.framework_tracing_disabled = DropUnit.run
default_unit DropReason.framework_event_unmatched = DropUnit.span
default_unit DropReason.framework_span_kind_unmapped = DropUnit.span
default_unit DropReason.hooks_absent = DropUnit.session
default_unit DropReason.stream_line_unrecognized = DropUnit.message
default_unit DropReason.payload_unserializable = DropUnit.payload
default_unit DropReason.usage_withheld = DropUnit.span
default_unit DropReason.launch_unrecognized = DropUnit.run

-- `REASONS[reason].loss`.
unfoldable pub loss_of : DropReason → Loss
loss_of DropReason.network_error = loss
loss_of DropReason.send_error = loss
loss_of DropReason.ratelimit_backoff = loss
loss_of DropReason.send_unconfirmed = loss
loss_of DropReason.request_too_large = loss
loss_of DropReason.budget_exhausted = loss
loss_of DropReason.partial_success = loss
loss_of DropReason.unmarshallable = loss
loss_of DropReason.transport_unsupported = loss
loss_of DropReason.queue_overflow = loss
loss_of DropReason.cache_overflow = loss
loss_of DropReason.before_send = no_loss
loss_of DropReason.before_send_error = loss
loss_of DropReason.after_close = loss
loss_of DropReason.shutdown_tail = loss
loss_of DropReason.backpressure = partial
loss_of DropReason.internal_sdk_error = loss
loss_of DropReason.diagnostic_unwritable = loss
loss_of DropReason.ledger_overflow = loss
loss_of DropReason.mode_refused = loss
loss_of DropReason.excluded_by_policy = no_loss
loss_of DropReason.parser_disabled = loss
loss_of DropReason.response_unobserved = partial
loss_of DropReason.request_unobserved = partial
loss_of DropReason.connection_evicted = loss
loss_of DropReason.in_flight_at_close = loss
loss_of DropReason.unclassified_connection = loss
loss_of DropReason.table_full = loss
loss_of DropReason.late_to_closed_unit = loss
loss_of DropReason.marker_lost = loss
loss_of DropReason.link_lost = loss
loss_of DropReason.attribute_dropped = loss
loss_of DropReason.instrumentation_unavailable = loss
loss_of DropReason.patch_superseded = loss
loss_of DropReason.child_uninitialized = loss
loss_of DropReason.attribute_cap = partial
loss_of DropReason.body_cap = partial
loss_of DropReason.ws_sample_cap = partial
loss_of DropReason.ws_frame_cap = partial
loss_of DropReason.decoded_cap = partial
loss_of DropReason.bridge_late = loss
loss_of DropReason.bridge_unroutable = loss
loss_of DropReason.bridge_request_rejected = loss
loss_of DropReason.bridge_unrecognized = loss
loss_of DropReason.bridge_incomplete = partial
loss_of DropReason.bridge_retired = loss
loss_of DropReason.bridge_merge_skipped = partial
loss_of DropReason.bridge_unavailable = loss
loss_of DropReason.framework_tracing_disabled = loss
loss_of DropReason.framework_event_unmatched = loss
loss_of DropReason.framework_span_kind_unmapped = loss
loss_of DropReason.hooks_absent = loss
loss_of DropReason.stream_line_unrecognized = loss
loss_of DropReason.payload_unserializable = partial
loss_of DropReason.usage_withheld = partial
loss_of DropReason.launch_unrecognized = loss
