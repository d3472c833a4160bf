-- ===== src/Interceptors/Http1Requests/Choice.antt =====
-- How a reply chooses between two readings of what followed an orphan.
use mathlib.Core.Path.{subst}
use wardex_sdk.Interceptors.Http1Requests.Paired.{
  choose-fresh, Event, fed, reply_arrives, reply_ends, connection_ends, happen,
}
use wardex_sdk.Prelude.{
  ℕ, ◌≤◌, ◌<◌, max, ◌≡◌, ◌⊎◌, refl, sym, ap, inl, inr, Bool, true, false, not, ◌&&◌, ◌||◌, Option,
  none, List, [], ◌∷◌, ◌∙◌, some, nat_eq, nat_eq_iff, ltb, leb, and_true, arith, if_true, holds_if,
}
use wardex_sdk.Interceptors.Http1Requests.Readings.{
  Http1RequestParser, ParsedMessage, Issue, Reading, claim, methods, method_of, is_some,
  feed_reading,
}
use wardex_sdk.Interceptors.Http1Requests.Side.{
  RequestSide, same_methods, framing_method, choose, decide, feed, open_fresh, feed_fresh,
  drop_rejected, take, handed_out, pair, pair_unseen, or_not_seen,
}

leb_less : (m n : ℕ) → leb m n ≡ true → m ≤ n
leb_less m n e = ground arith

leb_more : (m n : ℕ) → leb m n ≡ false → n < m
leb_more m n e = ground arith

module _ (p : Http1RequestParser) where
  -- The chosen reading holds as much as either, and it is the continuing one unless the other holds more.
  abbrev pub IsBest : Reading p.State → Reading p.State → Reading p.State → Type 0
  IsBest mine theirs chosen =
      (claim p chosen ≡ max (claim p mine) (claim p theirs))
      × ((chosen ≡ mine) ⊎ ((chosen ≡ theirs) × (claim p mine < claim p theirs)))

  choose-IsBest :
      (fresh : Reading p.State) (s : RequestSide p.State)
      → IsBest s.reading fresh (choose p (some fresh) s).0.reading
  unfolding choose
  choose-IsBest fresh s =
      holds_if (λ (r : RequestSide p.State × Bool). IsBest s.reading fresh r.0.reading)
        (leb (claim p fresh) (claim p s.reading)) _ _
        (λ e. (omega (arith, leb_less (claim p fresh) (claim p s.reading) e), inl refl))
        (λ e. (
          omega (arith, leb_more (claim p fresh) (claim p s.reading) e),
          inr (refl, leb_more (claim p fresh) (claim p s.reading) e),
        ))

  choose-tied :
      (fresh : Reading p.State) (s : RequestSide p.State)
      → claim p s.reading ≡ claim p fresh
      → 0 < claim p fresh
      → same_methods (methods p s.reading) (methods p fresh) ≡ false
      → (choose p (some fresh) s).0.tied ≡ true
  unfolding choose
  choose-tied fresh s even some_claim other =
      let guess =
        (nat_eq (claim p s.reading) (claim p fresh) && ltb 0 (claim p fresh))
        && not (same_methods (methods p s.reading) (methods p fresh)) in
      let guessed : guess ≡ true =
        and_true (nat_eq (claim p s.reading) (claim p fresh) && ltb 0 (claim p fresh))
          (not (same_methods (methods p s.reading) (methods p fresh)))
          (and_true (nat_eq (claim p s.reading) (claim p fresh)) (ltb 0 (claim p fresh))
            ((nat_eq_iff (claim p s.reading) (claim p fresh)).1 even) (ground (arith, some_claim)))
          (ap not other) in
      holds_if (λ (r : RequestSide p.State × Bool). r.0.tied ≡ true)
        (leb (claim p fresh) (claim p s.reading)) _ _ (λ _. or_guess s.tied guess guessed)
        (λ _. or_guess s.tied guess guessed)
    where
      or_guess : (a b : Bool) → b ≡ true → (a || b) ≡ true
      or_guess true b e = refl
      or_guess false b e = e

-- Where a reply arrives while the stream has not decided between two readings, the one is kept that
-- claims more of a request, the continuing one on a tie, and the choice is over.
pub decide-IsBest :
    (p : Http1RequestParser) (fresh : Reading p.State) (s : RequestSide p.State)
    → s.fresh ≡ some fresh
    → IsBest p s.reading fresh (decide p s).0.reading × ((decide p s).0.fresh ≡ none)
unfolding decide
decide-IsBest p fresh s e = (
  subst (λ o. IsBest p s.reading fresh (choose p o s).0.reading) (sym e) (choose-IsBest p fresh s),
  choose-fresh p s.fresh s refl,
)

-- Chunks and arrivals of replies, while the final reply is still to come.
unfoldable pub IsPending : List Event → Type 0
IsPending [] = Unit
IsPending (fed here bytes ∷ events) = IsPending events
IsPending (reply_arrives ∷ events) = IsPending events
IsPending (reply_ends ∷ events) = ⊥
IsPending (connection_ends ∷ events) = ⊥

module _ (p : Http1RequestParser) where
  -- A side after events, the latest first.
  unfoldable pub happen_all : List Event → RequestSide p.State → RequestSide p.State
  unfolding happen
  happen_all [] s = s
  happen_all (e ∷ events) s = happen p e (happen_all events s)

  drop_rejected-tied :
      (fresh : Option (Reading p.State)) (r : Reading p.State) (tied : Bool)
      → (drop_rejected p fresh r tied).tied ≡ tied
  unfolding drop_rejected
  drop_rejected-tied none r tied = refl
  drop_rejected-tied (some fresh) r tied =
      holds_if (λ (t : RequestSide p.State). t.tied ≡ tied) (p.is_disabled fresh.parser) _ _
        (λ _. refl)
        (λ _.
          holds_if (λ (t : RequestSide p.State). t.tied ≡ tied) (p.is_disabled r.parser)
            (record { reading = fresh; fresh = none; just_orphaned = false; tied = tied })
            (record { reading = r; fresh = some fresh; just_orphaned = false; tied = tied })
            (λ _. refl) (λ _. refl))

  stays_tied :
      (fresh : Option (Reading p.State)) (s : RequestSide p.State)
      → s.tied ≡ true
      → (choose p fresh s).0.tied ≡ true
  unfolding choose
  stays_tied none s e = e
  stays_tied (some fresh) s e =
      holds_if (λ (r : RequestSide p.State × Bool). r.0.tied ≡ true)
        (leb (claim p fresh) (claim p s.reading)) _ _ (λ _. rw e refl) (λ _. rw e refl)

  pending_tied :
      (events : List Event) (s : RequestSide p.State)
      → IsPending events
      → s.tied ≡ true
      → (happen_all events s).tied ≡ true
  unfolding IsPending happen_all happen feed decide
  pending_tied [] s k e = e
  pending_tied (fed here bytes ∷ events) s k e =
      let t = happen_all events s in
      drop_rejected-tied (feed_fresh p here bytes (open_fresh p bytes t))
        (feed_reading p here bytes t.reading) t.tied
      ∙ pending_tied events s k e
  pending_tied (reply_arrives ∷ events) s k e =
      stays_tied (happen_all events s).fresh (happen_all events s) (pending_tied events s k e)
  pending_tied (reply_ends ∷ events) s k e = elim k [ ]
  pending_tied (connection_ends ∷ events) s k e = elim k [ ]

  pair-tied :
      (request : Option ParsedMessage) (issue : Option Issue) (s : RequestSide p.State)
      → (pair p request issue s).1.tied ≡ s.tied
  unfolding pair
  pair-tied request issue s =
      holds_if
        (λ (r : Option (Option ParsedMessage × Issue) × RequestSide p.State). r.1.tied ≡ s.tied)
        (is_some request || p.is_disabled s.reading.parser) (some (request, or_not_seen issue), s)
        (pair_unseen p issue s) (λ _. refl) (λ _. unseen issue)
    where
      unseen : (issue : Option Issue) → (pair_unseen p issue s).1.tied ≡ s.tied
      unseen none = unfold pair_unseen in refl
      unseen (some i) = unfold pair_unseen in refl

  take-tied : (s : RequestSide p.State) → (take p s).1.tied ≡ false
  unfolding take handed_out
  take-tied s =
      let d = (decide p s).0 in pair-tied d.reading.request d.reading.issue (handed_out p d)

-- A reply is not framed by a guess. Where one arrives while two readings claim as much of a request but
-- of different methods, no method is given from then on, whatever is fed and whatever replies arrive,
-- until a final reply takes its request, which ends the tie.
pub framing_method-happen_all :
    (p : Http1RequestParser) (fresh : Reading p.State) (s : RequestSide p.State)
    (events : List Event)
    → s.fresh ≡ some fresh
    → claim p s.reading ≡ claim p fresh
    → 0 < claim p fresh
    → same_methods (methods p s.reading) (methods p fresh) ≡ false
    → IsPending events
    → (let later = happen_all p events (decide p s).0 in
        (framing_method p later ≡ none) × ((take p later).1.tied ≡ false))
unfolding decide framing_method
framing_method-happen_all p fresh s events e even some_claim other k =
    let tied : (decide p s).0.tied ≡ true =
      subst (λ o. (choose p o s).0.tied ≡ true) (sym e)
        (choose-tied p fresh s even some_claim other) in
    let later = happen_all p events (decide p s).0 in
    (
      if_true later.tied none (method_of later.reading.request)
          (pending_tied p events (decide p s).0 k tied),
      take-tied p later,
    )
