-- ===== src/Interceptors/Http1Requests/Tests.antt =====
-- Witnesses of the theorems on requests, with a parser that takes a chunk for a request: it is in
-- flight after an odd chunk and complete after an even one.
use wardex_sdk.Prelude.{
  ℕ, ◌+◌, ◌%◌, ◌≡◌, refl, arith, false, none, some, List, [], ◌∷◌, nat_eq, if◌then◌else◌,
}
use wardex_sdk.Prelude.Text.{codes, text_eq}
use wardex_sdk.Interceptors.Http1Requests.Readings.{
  ParsedMessage, Http1RequestParser, Issue, not_seen, Reading, claim, methods, is_some, new_reading,
  latch_first, take_messages, stop_orphan, latch_next, feed_reading, claim_waiting, claim_of,
  sent_by_a_client, has_text, method_of,
}
use wardex_sdk.Interceptors.Http1Requests.Side.{
  RequestSide, same_methods, same_method, framing_method, decide, take, choose, handed_out, pair,
  pair_unseen, or_not_seen, new_side, open_fresh, drop_rejected, feed_fresh, feed,
}
use wardex_sdk.Interceptors.Http1Requests.Paired.{
  Event, fed, reply_ends, reply_arrives, after, happen, since, take-after,
}
use wardex_sdk.Interceptors.Http1Requests.Origin.{Among}
use wardex_sdk.Interceptors.Http1Requests.Choice.{
  IsBest, decide-IsBest, IsPending, happen_all, framing_method-happen_all,
}

abbrev post : ParsedMessage
post = record { mid = 1; method = some (codes "POST") }

abbrev get_request : ParsedMessage
get_request = record { mid = 2; method = some (codes "GET") }

-- The parser's state is the number of chunks that it was fed.
abbrev chunks : Http1RequestParser
chunks = record {
  State = ℕ;
  new = 0;
  parse = λ bytes n. (if nat_eq (n % 2) 1 then post ∷ [] else [], n + 1);
  is_disabled = λ n. false;
  is_idle = λ n. nat_eq (n % 2) 0;
  method_in_flight = λ n. none;
}

abbrev here : Issue
here = record not_seen { start_ns = 70; scope = some 1 }

abbrev earlier : Issue
earlier = record not_seen { start_ns = 30; scope = some 2 }

-- A request that is answered, and then one from elsewhere.
abbrev two_requests : List Event
two_requests =
    fed here (codes "body")
    ∷ fed here (codes "POST / HTTP/1.1")
    ∷ reply_ends
    ∷ fed earlier (codes "body")
    ∷ fed earlier (codes "POST / HTTP/1.1")
    ∷ []

answered : (take chunks (after chunks two_requests)).0 ≡ some (some post, here)
unfolding take decide choose handed_out pair pair_unseen or_not_seen after happen feed feed_fresh
    open_fresh drop_rejected feed_reading latch_first take_messages stop_orphan latch_next is_some
    new_side new_reading
answered = refl

take-after_example :
    (let decided = (decide chunks (after chunks two_requests)).0 in
      ((decided.reading.request ≡ some post) × (decided.reading.issue ≡ some here))
      × Among here (since two_requests)
      × ((next : ParsedMessage) (j : Issue)
          → ¬ ((take chunks (take chunks (after chunks two_requests)).1).0 ≡ some (some next, j))))
take-after_example = take-after chunks two_requests post here answered

abbrev waiting : ParsedMessage → Reading ℕ
waiting msg = record { parser = 0; issue = some here; request = some msg; orphan = false }

-- Both readings hold a whole request, one a GET and one a POST.
abbrev undecided : RequestSide ℕ
undecided = record {
  reading = waiting get_request;
  fresh = some (waiting post);
  just_orphaned = false;
  tied = false;
}

decide-IsBest_example :
    IsBest chunks undecided.reading (waiting post) (decide chunks undecided).0.reading
    × ((decide chunks undecided).0.fresh ≡ none)
decide-IsBest_example = decide-IsBest chunks (waiting post) undecided refl

-- More is fed, and the reply's head arrives again.
abbrev more_fed : List Event
more_fed = reply_arrives ∷ fed earlier (codes "more") ∷ []

framing_method-happen_all_example :
    (let later = happen_all chunks more_fed (decide chunks undecided).0 in
      (framing_method chunks later ≡ none) × ((take chunks later).1.tied ≡ false))
unfolding claim claim_of claim_waiting sent_by_a_client has_text methods method_of same_methods
    same_method text_eq IsPending
framing_method-happen_all_example =
    framing_method-happen_all chunks (waiting post) undecided more_fed refl refl (omega arith) refl
      tt
