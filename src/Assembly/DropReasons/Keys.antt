-- ===== src/Assembly/DropReasons/Keys.antt =====
-- The wire names of reasons and units: each names one member and holds no colon.
use wardex_sdk.Prelude.{
  ℕ, true, not, nat_eq, HasEq, ◌++◌, ◌≡◌, ◌↔◌, refl, ap, both_true, and_true, pair_path, Bool, ◌&&◌,
  Option, none, some, List, [], ◌∷◌, arith, if◌then◌else◌,
}
use wardex_sdk.Prelude.Text.{
  Text, text_eq, text_eq_iff, Lacks, before_first, after_first, before_first-append,
  after_first-append,
}
use wardex_sdk.Assembly.DropReasons.{
  DropUnit, DropReason, unit_value, reason_value, all_units, all_reasons,
}

abbrev pub colon : ℕ
colon = b':'

-- `_REASON_OF.get(value)`: the member with that value.
unfoldable pub find_reason : Text → List DropReason → Option DropReason
find_reason v [] = none
find_reason v (r ∷ rs) = if text_eq (reason_value r) v then some r else find_reason v rs

unfoldable pub reason_of : Text → Option DropReason
unfolding find_reason all_reasons
reason_of v = find_reason v all_reasons

-- `_UNIT_OF.get(value)`.
unfoldable pub find_unit : Text → List DropUnit → Option DropUnit
find_unit v [] = none
find_unit v (u ∷ us) = if text_eq (unit_value u) v then some u else find_unit v us

unfoldable pub unit_of : Text → Option DropUnit
unfolding find_unit all_units
unit_of v = find_unit v all_units

pub reason_of-reason_value : (r : DropReason) → reason_of (reason_value r) ≡ some r
unfolding reason_of reason_value text_eq
reason_of-reason_value DropReason.network_error = refl
reason_of-reason_value DropReason.send_error = refl
reason_of-reason_value DropReason.ratelimit_backoff = refl
reason_of-reason_value DropReason.send_unconfirmed = refl
reason_of-reason_value DropReason.request_too_large = refl
reason_of-reason_value DropReason.budget_exhausted = refl
reason_of-reason_value DropReason.partial_success = refl
reason_of-reason_value DropReason.unmarshallable = refl
reason_of-reason_value DropReason.transport_unsupported = refl
reason_of-reason_value DropReason.queue_overflow = refl
reason_of-reason_value DropReason.cache_overflow = refl
reason_of-reason_value DropReason.before_send = refl
reason_of-reason_value DropReason.before_send_error = refl
reason_of-reason_value DropReason.after_close = refl
reason_of-reason_value DropReason.shutdown_tail = refl
reason_of-reason_value DropReason.backpressure = refl
reason_of-reason_value DropReason.internal_sdk_error = refl
reason_of-reason_value DropReason.diagnostic_unwritable = refl
reason_of-reason_value DropReason.ledger_overflow = refl
reason_of-reason_value DropReason.mode_refused = refl
reason_of-reason_value DropReason.excluded_by_policy = refl
reason_of-reason_value DropReason.parser_disabled = refl
reason_of-reason_value DropReason.response_unobserved = refl
reason_of-reason_value DropReason.request_unobserved = refl
reason_of-reason_value DropReason.connection_evicted = refl
reason_of-reason_value DropReason.in_flight_at_close = refl
reason_of-reason_value DropReason.unclassified_connection = refl
reason_of-reason_value DropReason.table_full = refl
reason_of-reason_value DropReason.late_to_closed_unit = refl
reason_of-reason_value DropReason.marker_lost = refl
reason_of-reason_value DropReason.link_lost = refl
reason_of-reason_value DropReason.attribute_dropped = refl
reason_of-reason_value DropReason.instrumentation_unavailable = refl
reason_of-reason_value DropReason.patch_superseded = refl
reason_of-reason_value DropReason.child_uninitialized = refl
reason_of-reason_value DropReason.attribute_cap = refl
reason_of-reason_value DropReason.body_cap = refl
reason_of-reason_value DropReason.ws_sample_cap = refl
reason_of-reason_value DropReason.ws_frame_cap = refl
reason_of-reason_value DropReason.decoded_cap = refl
reason_of-reason_value DropReason.bridge_late = refl
reason_of-reason_value DropReason.bridge_unroutable = refl
reason_of-reason_value DropReason.bridge_request_rejected = refl
reason_of-reason_value DropReason.bridge_unrecognized = refl
reason_of-reason_value DropReason.bridge_incomplete = refl
reason_of-reason_value DropReason.bridge_retired = refl
reason_of-reason_value DropReason.bridge_merge_skipped = refl
reason_of-reason_value DropReason.bridge_unavailable = refl
reason_of-reason_value DropReason.framework_tracing_disabled = refl
reason_of-reason_value DropReason.framework_event_unmatched = refl
reason_of-reason_value DropReason.framework_span_kind_unmapped = refl
reason_of-reason_value DropReason.hooks_absent = refl
reason_of-reason_value DropReason.stream_line_unrecognized = refl
reason_of-reason_value DropReason.payload_unserializable = refl
reason_of-reason_value DropReason.usage_withheld = refl
reason_of-reason_value DropReason.launch_unrecognized = refl

pub unit_of-unit_value : (u : DropUnit) → unit_of (unit_value u) ≡ some u
unfolding unit_of unit_value text_eq
unit_of-unit_value DropUnit.span = refl
unit_of-unit_value DropUnit.snapshot = refl
unit_of-unit_value DropUnit.request = refl
unit_of-unit_value DropUnit.connection = refl
unit_of-unit_value DropUnit.stream = refl
unit_of-unit_value DropUnit.session = refl
unit_of-unit_value DropUnit.run = refl
unit_of-unit_value DropUnit.message = refl
unit_of-unit_value DropUnit.bridge_span = refl
unit_of-unit_value DropUnit.bridge_session = refl
unit_of-unit_value DropUnit.entry = refl
unit_of-unit_value DropUnit.link = refl
unit_of-unit_value DropUnit.hook_event = refl
unit_of-unit_value DropUnit.payload = refl
unit_of-unit_value DropUnit.marker = refl
unit_of-unit_value DropUnit.attribute = refl
unit_of-unit_value DropUnit.process = refl
unit_of-unit_value DropUnit.seam = refl
unit_of-unit_value DropUnit.adapter = refl
unit_of-unit_value DropUnit.failure = refl
unit_of-unit_value DropUnit.report = refl

-- `DropReason` members are equal when their values are.
pub reason_value-injective : (r q : DropReason) → reason_value r ≡ reason_value q → r ≡ q
reason_value-injective r q h = cc (reason_of-reason_value r, reason_of-reason_value q)

pub unit_value-injective : (u v : DropUnit) → unit_value u ≡ unit_value v → u ≡ v
unit_value-injective u v h = cc (unit_of-unit_value u, unit_of-unit_value v)

-- A key of the ledger's tables, and what Python's `==` says of two: members of a `str` enumeration
-- are equal when their values are.
abbrev pub Key : Type 0
Key = DropReason × DropUnit

pub same_reason : DropReason → DropReason → Bool
same_reason r q = text_eq (reason_value r) (reason_value q)

pub same_unit : DropUnit → DropUnit → Bool
same_unit u v = text_eq (unit_value u) (unit_value v)

pub same_reason_iff : (r q : DropReason) → (same_reason r q ≡ true) ↔ (r ≡ q)
unfolding same_reason
same_reason_iff r q = (
  λ h. reason_value-injective r q ((text_eq_iff _ _).0 h),
  λ e. (text_eq_iff _ _).1 (ap reason_value e),
)

pub same_unit_iff : (u v : DropUnit) → (same_unit u v ≡ true) ↔ (u ≡ v)
unfolding same_unit
same_unit_iff u v = (
  λ h. unit_value-injective u v ((text_eq_iff _ _).0 h),
  λ e. (text_eq_iff _ _).1 (ap unit_value e),
)

unfoldable pub same_key : Key → Key → Bool
unfolding same_reason same_unit
same_key (r, u) (q, v) = same_reason r q && same_unit u v

pub same_key_iff : (k j : Key) → (same_key k j ≡ true) ↔ (k ≡ j)
unfolding same_key
same_key_iff (r, u) (q, v) = (
  λ h.
      let (a, b) = both_true (same_reason r q) (same_unit u v) h in
      pair_path ((same_reason_iff r q).0 a) ((same_unit_iff u v).0 b),
  λ e.
      and_true (same_reason r q) (same_unit u v) ((same_reason_iff r q).1 (ap (λ k. k.0) e))
        ((same_unit_iff u v).1 (ap (λ k. k.1) e)),
)

instance abbrev pub key_Eq : HasEq Key
key_Eq = record { same = same_key; same_iff = same_key_iff }

-- A key of the local view: a reason and a call site's label.
abbrev pub Site : Type 0
Site = DropReason × Text

unfoldable pub same_site : Site → Site → Bool
unfolding same_reason
same_site (r, w) (q, v) = same_reason r q && text_eq w v

pub same_site_iff : (k j : Site) → (same_site k j ≡ true) ↔ (k ≡ j)
unfolding same_site
same_site_iff (r, w) (q, v) = (
  λ h.
      let (a, b) = both_true (same_reason r q) (text_eq w v) h in
      pair_path ((same_reason_iff r q).0 a) ((text_eq_iff w v).0 b),
  λ e.
      and_true (same_reason r q) (text_eq w v) ((same_reason_iff r q).1 (ap (λ k. k.0) e))
        ((text_eq_iff w v).1 (ap (λ k. k.1) e)),
)

instance abbrev pub site_Eq : HasEq Site
site_Eq = record { same = same_site; same_iff = same_site_iff }

-- No value holds a colon, by evaluation.
colonless : Text → Bool
colonless [] = true
colonless (c ∷ s) = not (nat_eq c colon) && colonless s

colonless-Lacks : (s : Text) → colonless s ≡ true → Lacks colon s
unfolding colonless
colonless-Lacks [] h = tt
colonless-Lacks (c ∷ s) h = (ground arith, colonless-Lacks s (ground arith))

reason_colonless : (r : DropReason) → colonless (reason_value r) ≡ true
unfolding reason_value colonless
reason_colonless DropReason.network_error = refl
reason_colonless _ = refl

-- `f"{key[0].value}:{key[1].value}"`.
unfoldable pub wire_key : Key → Text
wire_key (r, u) = reason_value r ++ (colon ∷ unit_value u)

pub before_first-wire_key : (k : Key) → before_first colon (wire_key k) ≡ reason_value k.0
unfolding wire_key
before_first-wire_key (r, u) =
    before_first-append colon (reason_value r) (unit_value u)
      (colonless-Lacks _ (reason_colonless r))

pub after_first-wire_key : (k : Key) → after_first colon (wire_key k) ≡ unit_value k.1
unfolding wire_key
after_first-wire_key (r, u) =
    after_first-append colon (reason_value r) (unit_value u)
      (colonless-Lacks _ (reason_colonless r))
