-- ===== src/Interceptors/Http1Requests/Side.antt =====
-- The request half of a connection.
use wardex_sdk.Prelude.{
  Bool, true, false, not, ◌&&◌, ◌||◌, Option, none, some, nat_eq, ltb, leb, if◌then◌else◌,
}
use wardex_sdk.Prelude.Text.{Text, text_eq}
use wardex_sdk.Interceptors.Http1Requests.Readings.{
  ParsedMessage, Http1RequestParser, Issue, not_seen, opens_like_a_request, Reading, is_some,
  new_reading, feed_reading, claim, methods, method_of,
}

pub record RequestSide (S : Type 0) : Type 0 where
  pub reading : Reading S
  pub fresh : Option (Reading S)
  pub just_orphaned : Bool
  pub tied : Bool

-- `!=` on the methods of two readings.
unfoldable pub same_method : Option Text → Option Text → Bool
same_method none none = true
same_method none (some n) = false
same_method (some m) none = false
same_method (some m) (some n) = text_eq m n

unfoldable pub same_methods : Option Text × Option Text → Option Text × Option Text → Bool
unfolding same_method
same_methods a b = same_method a.0 b.0 && same_method a.1 b.1

-- `issue or NOT_SEEN`.
unfoldable pub or_not_seen : Option Issue → Issue
or_not_seen none = not_seen
or_not_seen (some i) = i

module _ (p : Http1RequestParser) where
  unfoldable pub new_side : RequestSide p.State
  unfolding new_reading
  new_side = record { reading = new_reading p; fresh = none; just_orphaned = false; tied = false }

  -- `RequestSide.method`, with "" as none.
  unfoldable pub framing_method : RequestSide p.State → Option Text
  unfolding method_of
  framing_method s = if s.tied then none else method_of s.reading.request

  -- The head of `feed`: the second reading that a chunk may open.
  unfoldable pub open_fresh : Text → RequestSide p.State → Option (Reading p.State)
  unfolding opens_like_a_request new_reading
  open_fresh bytes s =
      if s.just_orphaned && opens_like_a_request bytes then some (new_reading p) else s.fresh

  -- The end of `feed`: a reading that its parser rejects is dropped.
  unfoldable pub drop_rejected :
      Option (Reading p.State) → Reading p.State → Bool → RequestSide p.State
  drop_rejected none reading tied = record {
    reading = reading;
    fresh = none;
    just_orphaned = false;
    tied = tied;
  }
  drop_rejected (some fresh) reading tied =
      if p.is_disabled fresh.parser
      then record { reading = reading; fresh = none; just_orphaned = false; tied = tied }
      else if p.is_disabled reading.parser
      then record { reading = fresh; fresh = none; just_orphaned = false; tied = tied }
      else record { reading = reading; fresh = some fresh; just_orphaned = false; tied = tied }

  unfoldable pub feed_fresh : Issue → Text → Option (Reading p.State) → Option (Reading p.State)
  unfolding feed_reading
  feed_fresh here bytes none = none
  feed_fresh here bytes (some r) = some (feed_reading p here bytes r)

  unfoldable pub feed : Issue → Text → RequestSide p.State → RequestSide p.State
  unfolding drop_rejected feed_fresh open_fresh feed_reading
  feed here bytes s =
      drop_rejected (feed_fresh here bytes (open_fresh bytes s))
        (feed_reading p here bytes s.reading) s.tied

  -- `decide` between the reading and the fresh one, with whether it changes which request waits.
  unfoldable pub choose :
      Option (Reading p.State) → RequestSide p.State → RequestSide p.State × Bool
  unfolding claim methods same_methods
  choose none s = (s, false)
  choose (some fresh) s =
      let mine = claim p s.reading in
      let theirs = claim p fresh in
      let guess =
        (nat_eq mine theirs && ltb 0 theirs)
        && not (same_methods (methods p s.reading) (methods p fresh)) in
      let t = record s { fresh = none; tied = s.tied || guess } in
      if leb theirs mine then (t, false) else (record t { reading = fresh }, true)

  unfoldable pub decide : RequestSide p.State → RequestSide p.State × Bool
  unfolding choose
  decide s = choose s.fresh s

  -- The side once its reading's request is handed out.
  unfoldable pub handed_out : RequestSide p.State → RequestSide p.State
  handed_out s = record s {
    reading = record s.reading { request = none; issue = none };
    tied = false;
  }

  -- A reply without a request: nothing was seen of one, or it is left inside one as an orphan.
  unfoldable pub pair_unseen :
      Option Issue
      → RequestSide p.State
      → Option (Option ParsedMessage × Issue) × RequestSide p.State
  pair_unseen none s = (none, s)
  pair_unseen (some i) s = (
    some (none, i),
    record s { reading = record s.reading { orphan = true }; just_orphaned = true },
  )

  -- The request and the issue are the reading's before it was handed out.
  unfoldable pub pair :
      Option ParsedMessage
      → Option Issue
      → RequestSide p.State
      → Option (Option ParsedMessage × Issue) × RequestSide p.State
  unfolding is_some pair_unseen or_not_seen
  pair request issue s =
      if is_some request || p.is_disabled s.reading.parser
      then (some (request, or_not_seen issue), s)
      else pair_unseen issue s

  unfoldable pub take :
      RequestSide p.State → Option (Option ParsedMessage × Issue) × RequestSide p.State
  unfolding decide handed_out pair
  take s =
      let decided = (decide s).0 in
      pair decided.reading.request decided.reading.issue (handed_out decided)

  unfoldable pub release : RequestSide p.State → RequestSide p.State
  release s = record {
    reading = record s.reading { request = none; orphan = false };
    fresh = none;
    just_orphaned = false;
    tied = false;
  }
