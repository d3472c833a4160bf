-- ===== src/Interceptors/Http1Requests/Readings.antt =====
-- One parse of a connection's request bytes.
use wardex_sdk.Prelude.{
  ℕ, Bool, true, false, not, ◌&&◌, ◌||◌, Option, none, some, List, [], ◌∷◌, ◌++◌, nat_eq,
  if◌then◌else◌,
}
use wardex_sdk.Prelude.Text.{Text, codes, text_eq}
use wardex_sdk.Types.{SpanContext}

-- A parsed request, named by a number.
pub record ParsedMessage : Type 0 where
  pub mid : ℕ
  pub method : Option Text

-- The native parser: a state, what it starts from, and what its methods answer.
pub record Http1RequestParser : Type 1 where
  pub State : Type 0
  pub new : State
  pub parse : Text → State → List ParsedMessage × State
  pub is_disabled : State → Bool
  pub is_idle : State → Bool
  pub method_in_flight : State → Option Text

-- Where a request was issued. Conversations and scopes are named by numbers.
pub record Issue : Type 0 where
  pub start_ns : ℕ
  pub parent : Option SpanContext
  pub parent_closed : Bool
  pub conversation : Option ℕ
  pub scope : Option ℕ

-- `NOT_SEEN`, with the scope of an unknown issuer.
abbrev pub not_seen : Issue
not_seen = record {
  start_ns = 0;
  parent = none;
  parent_closed = false;
  conversation = none;
  scope = none;
}

-- `REQUEST_METHODS`.
abbrev pub request_methods : List Text
request_methods =
    codes "GET "
    ∷ codes "POST "
    ∷ codes "PUT "
    ∷ codes "DELETE "
    ∷ codes "HEAD "
    ∷ codes "PATCH "
    ∷ codes "OPTIONS "
    ∷ codes "CONNECT "
    ∷ codes "TRACE "
    ∷ []

-- `a.startswith(b)`.
unfoldable pub starts_with : Text → Text → Bool
starts_with a [] = true
starts_with [] (d ∷ b) = false
starts_with (c ∷ a) (d ∷ b) = nat_eq c d && starts_with a b

unfoldable pub opens_with : List Text → Text → Bool
unfolding starts_with
opens_with [] s = false
opens_with (m ∷ ms) s = (starts_with s m || starts_with m s) || opens_with ms s

unfoldable pub opens_like_a_request : Text → Bool
unfolding opens_with
opens_like_a_request bytes = opens_with request_methods bytes

unfoldable pub has_text : Text → List Text → Bool
has_text t [] = false
has_text t (s ∷ ss) = text_eq s t || has_text t ss

unfoldable pub sent_by_a_client : Option Text → Bool
unfolding has_text
sent_by_a_client none = false
sent_by_a_client (some m) = has_text (m ++ codes " ") request_methods

pub record Reading (S : Type 0) : Type 0 where
  pub parser : S
  pub issue : Option Issue
  pub request : Option ParsedMessage
  pub orphan : Bool

unfoldable pub is_some {ℓ} : {A : Type ℓ} → Option A → Bool
is_some none = false
is_some (some a) = true

-- The parts of `_Reading.claim`: of a complete request, and of one that may be in flight.
unfoldable pub claim_waiting : Option ParsedMessage → Bool → ℕ
unfolding sent_by_a_client
claim_waiting none idle = 0
claim_waiting (some msg) idle = if not idle then 0 else if sent_by_a_client msg.method then 3 else 1

unfoldable pub claim_of : Option Text → Option ParsedMessage → Bool → ℕ
unfolding claim_waiting sent_by_a_client
claim_of (some m) request idle = if sent_by_a_client (some m) then 2 else 1
claim_of none request idle = claim_waiting request idle

unfoldable pub method_of : Option ParsedMessage → Option Text
method_of none = none
method_of (some msg) = msg.method

module _ (p : Http1RequestParser) where
  unfoldable pub new_reading : Reading p.State
  new_reading = record { parser = p.new; issue = none; request = none; orphan = false }

  -- The issue is read where none is known and the reading is inside no orphan.
  unfoldable pub latch_first : Issue → Reading p.State → Reading p.State
  unfolding is_some
  latch_first here r =
      if not (is_some r.issue) && not r.orphan then record r { issue = some here } else r

  -- The loop over the messages of a chunk.
  unfoldable pub take_messages : List ParsedMessage → Reading p.State → Reading p.State
  take_messages [] r = r
  take_messages (msg ∷ msgs) r =
      take_messages msgs
        (if r.orphan then record r { orphan = false } else record r { request = some msg })

  unfoldable pub stop_orphan : Reading p.State → Reading p.State
  stop_orphan r = if r.orphan && p.is_disabled r.parser then record r { orphan = false } else r

  -- The issue is read where the next request began in the chunk that ended the orphan.
  unfoldable pub latch_next : Issue → Reading p.State → Reading p.State
  unfolding is_some
  latch_next here r =
      if (not (is_some r.issue) && not r.orphan) && (is_some r.request || not (p.is_idle r.parser))
      then record r { issue = some here }
      else r

  -- `_Reading.feed`. What `_issued_here()` reads during a chunk is the argument `here`.
  unfoldable pub feed_reading : Issue → Text → Reading p.State → Reading p.State
  unfolding latch_first take_messages stop_orphan latch_next
  feed_reading here bytes r =
      let first = latch_first here r in
      let parsed = p.parse bytes first.parser in
      latch_next here (stop_orphan (take_messages parsed.0 (record first { parser = parsed.1 })))

  -- `_Reading.claim`.
  unfoldable pub claim : Reading p.State → ℕ
  unfolding claim_of
  claim r =
      if r.orphan then 0 else claim_of (p.method_in_flight r.parser) r.request (p.is_idle r.parser)

  -- `_Reading.methods`.
  unfoldable pub methods : Reading p.State → Option Text × Option Text
  unfolding method_of
  methods r = (method_of r.request, p.method_in_flight r.parser)
