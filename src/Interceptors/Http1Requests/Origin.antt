-- ===== src/Interceptors/Http1Requests/Origin.antt =====
-- Where the issue of a request comes from: a chunk that was fed.
use wardex_sdk.Prelude.{
  ◌≡◌, ◌⊎◌, refl, inl, inr, Bool, false, not, ◌&&◌, ◌||◌, Option, none, some, List, [], ◌∷◌, leb,
  holds_if,
}
use wardex_sdk.Prelude.Text.{Text}
use wardex_sdk.Interceptors.Http1Requests.Readings.{
  ParsedMessage, Http1RequestParser, Issue, Reading, is_some, new_reading, latch_first,
  take_messages, stop_orphan, latch_next, feed_reading, claim, opens_like_a_request,
}
use wardex_sdk.Interceptors.Http1Requests.Side.{
  RequestSide, open_fresh, drop_rejected, feed_fresh, feed, choose, decide,
}

-- An issue of the list.
abbrev pub Among : Issue → List Issue → Type 0
Among i [] = ⊥
Among i (j ∷ js) = (i ≡ j) ⊎ Among i js

-- No issue, or one of the list.
abbrev pub IsFrom : List Issue → Option Issue → Type 0
IsFrom issues none = Unit
IsFrom issues (some i) = Among i issues

abbrev pub IsFreshFrom : {S : Type 0} → List Issue → Option (Reading S) → Type 0
IsFreshFrom issues none = Unit
IsFreshFrom issues (some r) = IsFrom issues r.issue

abbrev pub IsSideFrom : {S : Type 0} → List Issue → RequestSide S → Type 0
IsSideFrom issues s = IsFrom issues s.reading.issue × IsFreshFrom issues s.fresh

more-IsFrom : (j : Issue) (js : List Issue) (o : Option Issue) → IsFrom js o → IsFrom (j ∷ js) o
more-IsFrom j js none h = tt
more-IsFrom j js (some i) h = inr h

more-IsFreshFrom :
    {S : Type 0} (j : Issue) (js : List Issue) (o : Option (Reading S))
    → IsFreshFrom js o
    → IsFreshFrom (j ∷ js) o
more-IsFreshFrom j js none h = tt
more-IsFreshFrom j js (some r) h = more-IsFrom j js r.issue h

module _ (p : Http1RequestParser) (here : Issue) (js : List Issue) where
  latch_first-IsFrom :
      (r : Reading p.State) → IsFrom js r.issue → IsFrom (here ∷ js) (latch_first p here r).issue
  unfolding latch_first
  latch_first-IsFrom r h =
      holds_if (λ (t : Reading p.State). IsFrom (here ∷ js) t.issue)
        (not (is_some r.issue) && not r.orphan) (record r { issue = some here }) r (λ _. inl refl)
        (λ _. more-IsFrom here js r.issue h)

  take_messages-issue :
      (msgs : List ParsedMessage) (r : Reading p.State)
      → IsFrom (here ∷ js) r.issue
      → IsFrom (here ∷ js) (take_messages p msgs r).issue
  unfolding take_messages
  take_messages-issue [] r h = h
  take_messages-issue (msg ∷ msgs) r h = take_messages-issue msgs _ (
      holds_if (λ (t : Reading p.State). IsFrom (here ∷ js) t.issue) r.orphan
        (record r { orphan = false }) (record r { request = some msg }) (λ _. h) (λ _. h))

  feed_reading-IsFrom :
      (bytes : Text) (r : Reading p.State)
      → IsFrom js r.issue
      → IsFrom (here ∷ js) (feed_reading p here bytes r).issue
  unfolding feed_reading stop_orphan latch_next
  feed_reading-IsFrom bytes r h =
      let first = latch_first p here r in
      let parsed = p.parse bytes first.parser in
      let taken = take_messages p parsed.0 (record first { parser = parsed.1 }) in
      let kept =
        take_messages-issue parsed.0 (record first { parser = parsed.1 })
          (latch_first-IsFrom r h) in
      let stopped = stop_orphan p taken in
      let still : IsFrom (here ∷ js) stopped.issue =
        holds_if (λ (t : Reading p.State). IsFrom (here ∷ js) t.issue)
          (taken.orphan && p.is_disabled taken.parser) (record taken { orphan = false }) taken
          (λ _. kept) (λ _. kept) in
      holds_if (λ (t : Reading p.State). IsFrom (here ∷ js) t.issue)
        ((not (is_some stopped.issue) && not stopped.orphan)
          && (is_some stopped.request || not (p.is_idle stopped.parser)))
        (record stopped { issue = some here }) stopped (λ _. inl refl) (λ _. still)

  feed_fresh-IsFreshFrom :
      (bytes : Text) (fresh : Option (Reading p.State))
      → IsFreshFrom js fresh
      → IsFreshFrom (here ∷ js) (feed_fresh p here bytes fresh)
  unfolding feed_fresh
  feed_fresh-IsFreshFrom bytes none h = tt
  feed_fresh-IsFreshFrom bytes (some r) h = feed_reading-IsFrom bytes r h

  drop_rejected-IsSideFrom :
      (fresh : Option (Reading p.State)) (r : Reading p.State) (tied : Bool)
      → IsFreshFrom (here ∷ js) fresh
      → IsFrom (here ∷ js) r.issue
      → IsSideFrom (here ∷ js) (drop_rejected p fresh r tied)
  unfolding drop_rejected
  drop_rejected-IsSideFrom none r tied f h = (h, tt)
  drop_rejected-IsSideFrom (some fresh) r tied f h =
      holds_if (IsSideFrom (here ∷ js)) (p.is_disabled fresh.parser) _ _ (λ _. (h, tt))
        (λ _.
          holds_if (IsSideFrom (here ∷ js)) (p.is_disabled r.parser)
            (record { reading = fresh; fresh = none; just_orphaned = false; tied = tied })
            (record { reading = r; fresh = some fresh; just_orphaned = false; tied = tied })
            (λ _. (f, tt)) (λ _. (h, f)))

  -- What is fed adds its own issue to those that the readings may hold.
  pub feed-IsSideFrom :
      (bytes : Text) (s : RequestSide p.State)
      → IsSideFrom js s
      → IsSideFrom (here ∷ js) (feed p here bytes s)
  unfolding feed open_fresh new_reading
  feed-IsSideFrom bytes s h =
      drop_rejected-IsSideFrom (feed_fresh p here bytes (open_fresh p bytes s))
        (feed_reading p here bytes s.reading) s.tied
        (feed_fresh-IsFreshFrom bytes (open_fresh p bytes s) (
          holds_if (IsFreshFrom js) (s.just_orphaned && opens_like_a_request bytes)
            (some (new_reading p)) s.fresh (λ _. tt) (λ _. h.1)))
        (feed_reading-IsFrom bytes s.reading h.0)

module _ (p : Http1RequestParser) (js : List Issue) where
  choose-IsSideFrom :
      (fresh : Option (Reading p.State)) (s : RequestSide p.State)
      → IsFreshFrom js fresh
      → IsSideFrom js s
      → IsSideFrom js (choose p fresh s).0
  unfolding choose
  choose-IsSideFrom none s f h = h
  choose-IsSideFrom (some fresh) s f h =
      holds_if (λ (r : RequestSide p.State × Bool). IsSideFrom js r.0)
        (leb (claim p fresh) (claim p s.reading)) _ _ (λ _. (h.0, tt)) (λ _. (f, tt))

  pub decide-IsSideFrom : (s : RequestSide p.State) → IsSideFrom js s → IsSideFrom js (decide p s).0
  unfolding decide
  decide-IsSideFrom s h = choose-IsSideFrom s.fresh s h.1 h
