-- ===== src/Interceptors/Http1Requests/Paired.antt =====
-- What a reply is paired with, after whatever was fed, answered and released before.
use mathlib.Core.Path.{subst}
use wardex_sdk.Prelude.{
  ◌≡◌, ◌∙◌, refl, sym, Bool, true, false, ◌||◌, Option, none, some, List, [], ◌∷◌, leb, holds_if,
}
use wardex_sdk.Prelude.Text.{Text}
use wardex_sdk.Interceptors.Http1Requests.Readings.{
  ParsedMessage, Http1RequestParser, Issue, Reading, is_some, claim, new_reading,
}
use wardex_sdk.Interceptors.Http1Requests.Side.{
  RequestSide, or_not_seen, new_side, feed, choose, decide, handed_out, pair_unseen, pair, take,
  release,
}
use wardex_sdk.Interceptors.Http1Requests.Origin.{
  Among, IsFrom, IsFreshFrom, IsSideFrom, feed-IsSideFrom, decide-IsSideFrom,
}
use wardex_sdk.Interceptors.Http1Requests.Issued.{
  IsReading, IsFresh, IsSide, not_both, none_is, feed-IsSide, choose-IsSide, new_reading-IsReading,
}

-- What happens on a connection: a chunk of a request, with what is read of its issue, the arrival of a
-- reply, a final reply, and the end.
pub data Event : Type 0 where
  fed : Issue → Text → Event
  reply_arrives reply_ends connection_ends : Event

abbrev pub Pairing : Type 0
Pairing = Option (Option ParsedMessage × Issue)

-- A reading that has nothing to hand out.
emptied : {S : Type 0} (r : Reading S) → r.request ≡ none → r.issue ≡ none → IsReading r
unfolding is_some
emptied r e f = ((λ _. (e, f)), λ waits. absurd (none_is r.request e waits))

module _ (p : Http1RequestParser) where
  choose-IsFresh :
      (fresh : Option (Reading p.State)) (s : RequestSide p.State)
      → IsFresh s.fresh
      → IsFresh (choose p fresh s).0.fresh
  unfolding choose
  choose-IsFresh none s h = h
  choose-IsFresh (some fresh) s h =
      holds_if (λ (r : RequestSide p.State × Bool). IsFresh r.0.fresh)
        (leb (claim p fresh) (claim p s.reading)) _ _ (λ _. tt) (λ _. tt)

  decide-IsSide : (s : RequestSide p.State) → IsSide s → IsSide (decide p s).0
  unfolding decide
  decide-IsSide s h = (choose-IsSide p s.fresh s h.1 h, choose-IsFresh s.fresh s h.1)

  -- After a reply was paired nothing waits.
  abbrev Answered : RequestSide p.State → Type 0
  Answered s = (s.reading.request ≡ none) × (s.reading.issue ≡ none)

  pair_unseen-IsSide :
      (issue : Option Issue) (s : RequestSide p.State)
      → Answered s
      → IsSide s
      → IsSide (pair_unseen p issue s).1 × Answered (pair_unseen p issue s).1
  unfolding pair_unseen
  pair_unseen-IsSide none s a h = (h, a)
  pair_unseen-IsSide (some i) s a h =
      ((emptied (record s.reading { orphan = true }) a.0 a.1, h.1), a)

  pair-IsSide :
      (request : Option ParsedMessage) (issue : Option Issue) (s : RequestSide p.State)
      → Answered s
      → IsSide s
      → IsSide (pair p request issue s).1 × Answered (pair p request issue s).1
  unfolding pair
  pair-IsSide request issue s a h =
      holds_if (λ (r : Pairing × RequestSide p.State). IsSide r.1 × Answered r.1)
        (is_some request || p.is_disabled s.reading.parser) (some (request, or_not_seen issue), s)
        (pair_unseen p issue s) (λ _. (h, a)) (λ _. pair_unseen-IsSide issue s a h)

  take-IsSide : (s : RequestSide p.State) → IsSide s → IsSide (take p s).1 × Answered (take p s).1
  unfolding take handed_out
  take-IsSide s h =
      let d = (decide p s).0 in
      pair-IsSide d.reading.request d.reading.issue (handed_out p d) (refl, refl)
        (emptied (handed_out p d).reading refl refl, (decide-IsSide s h).1)

  release-IsSide : (s : RequestSide p.State) → IsSide (release p s)
  unfolding release is_some
  release-IsSide s = (((λ e. cc), λ e. cc), tt)

  unfoldable pub happen : Event → RequestSide p.State → RequestSide p.State
  unfolding feed decide take release
  happen (fed here bytes) s = feed p here bytes s
  happen reply_arrives s = (decide p s).0
  happen reply_ends s = (take p s).1
  happen connection_ends s = release p s

  -- The side after events, the latest first.
  unfoldable pub after : List Event → RequestSide p.State
  unfolding new_side happen
  after [] = new_side p
  after (e ∷ events) = happen e (after events)

  happen-IsSide : (e : Event) (s : RequestSide p.State) → IsSide s → IsSide (happen e s)
  unfolding happen
  happen-IsSide (fed here bytes) s h = feed-IsSide p here bytes s h
  happen-IsSide reply_arrives s h = decide-IsSide s h
  happen-IsSide reply_ends s h = (take-IsSide s h).0
  happen-IsSide connection_ends s h = release-IsSide s

  after-IsSide : (events : List Event) → IsSide (after events)
  unfolding after new_side
  after-IsSide [] = (new_reading-IsReading p, tt)
  after-IsSide (e ∷ events) = happen-IsSide e (after events) (after-IsSide events)

  pair_unseen-none :
      (issue : Option Issue) (s : RequestSide p.State) (msg : ParsedMessage) (i : Issue)
      → (pair_unseen p issue s).0 ≡ some (some msg, i)
      → ⊥
  unfolding pair_unseen
  pair_unseen-none none s msg i e = cc
  pair_unseen-none (some j) s msg i e = cc

  pair-some :
      (request : Option ParsedMessage) (issue : Option Issue) (s : RequestSide p.State)
      → (is_some request ≡ true → is_some issue ≡ true)
      → (msg : ParsedMessage) (i : Issue) → (pair p request issue s).0 ≡ some (some msg, i)
      → (request ≡ some msg) × (issue ≡ some i)
  unfolding pair is_some or_not_seen
  pair-some (some m) (some j) s known msg i e = (cc, cc)
  pair-some (some m) none s known msg i e = absurd (not_both false refl (known refl))
  pair-some none issue s known msg i e = absurd (
      holds_if (λ (r : Pairing × RequestSide p.State). r.0 ≡ some (some msg, i) → ⊥)
        (p.is_disabled s.reading.parser) (some (none, or_not_seen issue), s) (pair_unseen p issue s)
        (λ _ f. cc) (λ _. pair_unseen-none issue s msg i) e)

  take-some :
      (s : RequestSide p.State) (msg : ParsedMessage) (i : Issue)
      → IsSide s
      → (take p s).0 ≡ some (some msg, i)
      → ((decide p s).0.reading.request ≡ some msg) × ((decide p s).0.reading.issue ≡ some i)
  unfolding take handed_out
  take-some s msg i h e =
      let d = (decide p s).0 in
      pair-some d.reading.request d.reading.issue (handed_out p d) (decide-IsSide s h).0.1 msg i e

  choose-same :
      (fresh : Option (Reading p.State)) (s : RequestSide p.State)
      → fresh ≡ none
      → (choose p fresh s).0.reading.request ≡ s.reading.request
  unfolding choose
  choose-same none s e = refl
  choose-same (some r) s e = cc

  pub choose-fresh :
      (fresh : Option (Reading p.State)) (s : RequestSide p.State)
      → s.fresh ≡ fresh
      → (choose p fresh s).0.fresh ≡ none
  unfolding choose
  choose-fresh none s e = e
  choose-fresh (some r) s e =
      holds_if (λ (t : RequestSide p.State × Bool). t.0.fresh ≡ none)
        (leb (claim p r) (claim p s.reading)) _ _ (λ _. refl) (λ _. refl)

  pair-fresh :
      (request : Option ParsedMessage) (issue : Option Issue) (s : RequestSide p.State)
      → (pair p request issue s).1.fresh ≡ s.fresh
  unfolding pair
  pair-fresh request issue s =
      holds_if (λ (r : Pairing × RequestSide p.State). r.1.fresh ≡ s.fresh)
        (is_some request || p.is_disabled s.reading.parser) (some (request, or_not_seen issue), s)
        (pair_unseen p issue s) (λ _. refl) (λ _. unseen issue s)
    where
      unseen :
          (issue : Option Issue) (s : RequestSide p.State)
          → (pair_unseen p issue s).1.fresh ≡ s.fresh
      unseen none s = unfold pair_unseen in refl
      unseen (some i) s = unfold pair_unseen in refl

  take-fresh : (s : RequestSide p.State) → (take p s).1.fresh ≡ none
  unfolding take handed_out decide
  take-fresh s =
      let d = (choose p s.fresh s).0 in
      pair-fresh d.reading.request d.reading.issue (handed_out p d) ∙ choose-fresh s.fresh s refl

  decide-answered :
      (s : RequestSide p.State)
      → s.fresh ≡ none
      → (decide p s).0.reading.request ≡ s.reading.request
  unfolding decide
  decide-answered s e = choose-same s.fresh s e

  take_again :
      (s : RequestSide p.State) (msg : ParsedMessage) (i : Issue)
      → IsSide s
      → (take p (take p s).1).0 ≡ some (some msg, i)
      → ⊥
  unfolding is_some
  take_again s msg i h e =
      let t = take-IsSide s h in
      let second = take-some (take p s).1 msg i t.0 e in
      let waits = sym second.0 ∙ decide-answered (take p s).1 (take-fresh s) ∙ t.1.0 in cc

-- The issues read for the chunks that were fed since the last final reply.
unfoldable pub since : List Event → List Issue
since [] = []
since (fed here bytes ∷ events) = here ∷ since events
since (reply_arrives ∷ events) = since events
since (reply_ends ∷ events) = []
since (connection_ends ∷ events) = since events

none-IsFrom : (issues : List Issue) (o : Option Issue) → o ≡ none → IsFrom issues o
none-IsFrom issues none e = tt
none-IsFrom issues (some i) e = cc

none-IsFreshFrom :
    {S : Type 0} (issues : List Issue) (o : Option (Reading S)) → o ≡ none → IsFreshFrom issues o
none-IsFreshFrom issues none e = tt
none-IsFreshFrom issues (some r) e = cc

module _ (p : Http1RequestParser) where
  happen-IsSideFrom :
      (e : Event) (events : List Event) (s : RequestSide p.State)
      → IsSide s
      → IsSideFrom (since events) s
      → IsSideFrom (since (e ∷ events)) (happen p e s)
  unfolding happen since release
  happen-IsSideFrom (fed here bytes) events s k h = feed-IsSideFrom p here (since events) bytes s h
  happen-IsSideFrom reply_arrives events s k h = decide-IsSideFrom p (since events) s h
  happen-IsSideFrom reply_ends events s k h = (
    none-IsFrom [] (take p s).1.reading.issue (take-IsSide p s k).1.1,
    none-IsFreshFrom [] (take p s).1.fresh (take-fresh p s),
  )
  happen-IsSideFrom connection_ends events s k h = (h.0, tt)

  after-IsSideFrom : (events : List Event) → IsSideFrom (since events) (after p events)
  unfolding after new_side new_reading
  after-IsSideFrom [] = (tt, tt)
  after-IsSideFrom (e ∷ events) =
      happen-IsSideFrom e events (after p events) (after-IsSide p events) (after-IsSideFrom events)

  -- The issue that is handed out was read since the last final reply.
  decided-Among :
      (events : List Event) (i : Issue)
      → (decide p (after p events)).0.reading.issue ≡ some i
      → Among i (since events)
  decided-Among events i e =
      subst (IsFrom (since events)) e
        (decide-IsSideFrom p (since events) (after p events) (after-IsSideFrom events)).0

-- Whatever happened on a connection before: where a final reply is paired with a request, it is the one
-- that waited in the reading decided on, with the issue that reading holds, which was read for a chunk
-- fed since the last final reply, so that no earlier request's issue is given, and the next reply is not
-- paired with a request unless more is fed.
pub take-after :
    (p : Http1RequestParser) (events : List Event) (msg : ParsedMessage) (i : Issue)
    → (take p (after p events)).0 ≡ some (some msg, i)
    → (let decided = (decide p (after p events)).0 in
        ((decided.reading.request ≡ some msg) × (decided.reading.issue ≡ some i))
        × Among i (since events)
        × ((next : ParsedMessage) (j : Issue)
            → ¬ ((take p (take p (after p events)).1).0 ≡ some (some next, j))))
take-after p events msg i e =
    let paired = take-some p (after p events) msg i (after-IsSide p events) e in
    (
      paired,
      decided-Among p events i paired.1,
      λ next j. take_again p (after p events) next j (after-IsSide p events),
    )
