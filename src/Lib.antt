-- ===== src/Lib.antt =====
-- Verification of the core of the wardex Python SDK (sdks/python/src/wardex_sdk/).
--
-- The SDK observes an agent program: it opens spans, propagates the trace context over process
-- boundaries, batches finished spans and ships them as envelopes to a receiver. What is lost on the
-- way is counted in a ledger whose sums ride the envelopes as reports.
--
-- Prelude: names of the libraries passed on, tests on numbers, lists, Python's text operations
--   over code points (Prelude/Text, Prelude/Split) and counting tables (Prelude/Counts).
-- Types: TraceId, SpanId and SpanContext of _types.py. Bytes are numbers below 256 in lists.
-- Assembly/DropReasons: _assembly/_drop_reasons.py, the two enumerations with their values, and
--   the unit and loss of each reason. Keys: the wire name of a key and its reading.
-- Assembly/Ledger: _assembly/_ledger.py. The module's globals are the record Ledger; each
--   function takes it and returns it changed. State has the tables and reports, Wire the cut of a
--   report (_cut_held, _keys_of), Fold the fold (_fold_inbox_held, _fold_held), Operations what the
--   SDK calls (record, record_items, record_failed_send, due, expedite, attach, already_unsent,
--   unsent, done, snapshot). Amounts, Balance, Identity, Cut, Steps and Run follow the
--   counts and the reports; Bounds, Recorded and Failures hold the rest. An object compared by `id` carries its
--   identity as a number, given out by the field next_oid. An operation is atomic, and the argument
--   `free` says whether the caller gets the fold lock. Clocks are arguments, in milliseconds and
--   nanoseconds. The loop that bounds the reports kept for resending runs on fuel, the number of
--   these reports, which is enough (Bounds). Signal handlers held for the fold, readers beside a
--   fold in progress and the arming of the fork hook are not modelled.
-- Context/W3c: context/_w3c.py. Hex has the digits, RoundTrip the reading of what was written,
--   Tracestate the vetting of an inbound tracestate.
-- Client: _client.py. State is the record Client with its buffer and its calls into the ledger,
--   Capture what fills the buffer (capture_span, capture_snapshot, _admit), Drain what empties it
--   (_drain, _abandon, _undelivered, _return_to_buffer, close). What a drain meets (the export slot,
--   the hook, the transport, the spans that other threads capture meanwhile) is the argument Meets.
--   Measures, Conservation, Sent and Drained follow the items, Bounds and Returned the buffer's bounds,
--   Order the order of spans, Closed what a close leaves. Flush timing, the batch worker, and the
--   stamps of scopes are not modelled.
-- Finalize: _finalize.py. Queue is the state and submit, Drain drain_all on a queue that no other
--   thread touches, Threads the step relation between callers, the worker and draining threads. The
--   deadline of a drain is the number of jobs that it begins. Room, Running, Places and Leftovers
--   hold the theorems. What a job's parse gives is an argument, since the parse is the native
--   extension's.
-- Assembly/Integrity: the enumeration of _assembly/_integrity.py. Assembly/Parentage:
--   _assembly/_parentage.py. Confidence has the sources with their tiers and markers, over floats that
--   are NaN, infinite or multiples of the least positive float; Resolve has the resolution of an edge.
--   Generated identifiers and in_degraded_run() are arguments. Tiers, Edges and Observed hold the
--   theorems.
-- Assembly/PatchSet: _assembly/_patchset.py. Patches has the set and the attributes that it writes to;
--   what a target makes of a patch of a name (_may_patch, _own_value, setattr) is the argument Target. Layers and
--   Foreign hold the theorems. The tests of descriptors behind _may_patch are not modelled.
-- Scope: _scope.py, with dictionaries as lists of items (Prelude/Dicts).
-- Hub: _hub.py. Retired has the links between scopes that were taken down away from home (retire,
--   _settled); its loops run on fuel, an argument, for which the length of the longest chain of links is
--   enough (Chains). TakeDown has take_down and get_current_scope over the scope that each Context has
--   installed; whether a token resets and whether a task's Context can be entered are arguments.
-- Worker: _worker.py. Spawn has the methods of BatchWorker over the holder of _spawn_lock and its calls
--   inside, with _spawn_locked cut into its parts and a round of _run cut at the drain function; Life is
--   the step relation between threads, finalizers and forks. The lock is re-entrant: finalizers come on
--   the holder's thread from the making of the thread to the end of the spawn, none before. A fork is by
--   a thread outside the lock, and its child's process id, where no hook runs, is not one the worker
--   remembers. Standing and Inside say what holds inside the lock; Single,
--   Stopped and Forked hold the theorems; nine parts finish a call of ensure_alive.
--   What join waits for and the wake-up event are not modelled.
-- Interceptors/Http1Requests: _interceptors/_http1_requests.py. Readings is one parse of a connection's
--   request bytes (_Reading), over the native parser as a record of its methods; Side the request half
--   of a connection (RequestSide). Bodies of messages are not modelled. Issued, Origin and Paired
--   follow the issue of a request, Choice the choice between two readings.
-- Spans: the records of _types.py and _enums.py that make up a span. Attributes has its blocks,
--   Span the span, Sizes the estimate of its size in a buffer (span_buffer_bytes). Transport
--   metadata is named by a number, floats and provider names by texts or numbers; a released memory
--   view, classes derived from the collections and loosely typed conversation fields are not
--   modelled.
-- Assembly/Vocabulary: _assembly/_vocab.py. Assembly/Builder: _assembly/_builder.py. Integrity has
--   IntegrityBuilder, Draft the draft with its three ways to open one, Setters its setters, Finish
--   its checks in the order of finish, each a step that may raise VocabularyError, and the span.
--   What raises is a Result (Prelude/Results). Manual, Ready, Distinct and Markers hold the
--   theorems. Token counts are natural numbers; the draft that does nothing (_NullDraft) and
--   counters are not modelled.
-- Assembly/Units: _assembly/_units.py and _forgotten.py. State has Unit and UnitRegistry; units
--   and drafts are named by their places in two stores, functions from places, and dictionaries are
--   lists of items, oldest first. Forgotten is ForgottenAliases; Tables the tables of a unit; Close
--   the close of a unit with its subtree (_collect_locked, _detach_locked, _flush); Aliases the
--   alias index; Ambience what the context variable says and the edge of a span (resolve, _edge);
--   Spans a unit's own spans; Edges what a unit is opened with and its parent edge; Open the opening
--   with both evictions, and close and close_all; Pins the driver's pin; Climbs the walks up
--   (enclosing, ambient_stated_conversation); Life any list of calls from __init__ on. The context
--   variable, the running task, clocks and new identifiers are arguments. An operation is atomic,
--   with the flush that follows its lock. A parent is made before its children, so the walk down
--   runs on fuel for each unit made and the walks up on fuel for each older unit; the two loops that
--   make room run on fuel for each root. Detached, Grown, Collecting and Gone follow the tree
--   through a close, Paid and Alike the drafts that are owed to the sink, Evicting, Entering,
--   Opening, Attaching, Rekeying, Binding and Entered an opening, Acts, SpanTables and SpanActs the
--   other calls, Fewer, Bounded, Capacity, Limits and Rooms the bounds. Outcomes holds the theorems.
--   There is one registry in the process, so the branches for units of another registry are absent;
--   counters, failures that the guards catch, and the activation with its carriers are not modelled.
--   The limits are taken to be 1 or more, as the defaults are: with a limit of 0 the code looks for
--   the oldest entry of an empty table, which raises.
pub mod Assembly
pub mod Client
pub mod Context
pub mod Finalize
pub mod Hub
pub mod Interceptors
pub mod Prelude
pub mod Scope
pub mod Spans
pub mod Types
pub mod Worker
