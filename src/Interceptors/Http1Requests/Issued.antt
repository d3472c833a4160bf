-- ===== src/Interceptors/Http1Requests/Issued.antt =====
-- A request is paired with the place where it was issued, and only once.
use wardex_sdk.Prelude.{
  ◌≡◌, refl, sym, inl, inr, Bool, true, false, not, ◌&&◌, ◌||◌, Option, none, some, List, [], ◌∷◌,
  leb, Bool-cases, if◌then◌else◌, holds_if, both_true,
}
use wardex_sdk.Prelude.Text.{Text}
use wardex_sdk.Interceptors.Http1Requests.Readings.{
  ParsedMessage, Http1RequestParser, Issue, Reading, is_some, new_reading, latch_first,
  take_messages, stop_orphan, latch_next, feed_reading, claim, opens_like_a_request,
}
use wardex_sdk.Interceptors.Http1Requests.Side.{
  RequestSide, open_fresh, drop_rejected, feed_fresh, feed, choose,
}

-- What a reading holds while it is inside an orphan: nothing.
abbrev pub IsEmptyOrphan : {S : Type 0} → Reading S → Type 0
IsEmptyOrphan r = r.orphan ≡ true → (r.request ≡ none) × (r.issue ≡ none)

-- And a request that waits has the place where it was issued.
abbrev pub IsReading : {S : Type 0} → Reading S → Type 0
IsReading r = IsEmptyOrphan r × (is_some r.request ≡ true → is_some r.issue ≡ true)

abbrev pub IsFresh : {S : Type 0} → Option (Reading S) → Type 0
IsFresh none = Unit
IsFresh (some r) = IsReading r

abbrev pub IsSide : {S : Type 0} → RequestSide S → Type 0
IsSide s = IsReading s.reading × IsFresh s.fresh

pub not_both : {A : Type 0} (b : Bool) → b ≡ false → b ≡ true → A
not_both true e f = cc
not_both false e f = cc

not-true : (b : Bool) → not b ≡ true → b ≡ false
not-true true e = sym e
not-true false e = refl

-- A reading that is inside no orphan.
outside : {S : Type 0} (r : Reading S) → r.orphan ≡ false → IsEmptyOrphan r
outside r e f = not_both r.orphan e f

or_true : (a b : Bool) → a ≡ true → (a || b) ≡ true
or_true a b e = cc

and_false_left : (a b : Bool) → (a && b) ≡ false → b ≡ true → a ≡ false
and_false_left true b e f = cc
and_false_left false b e f = refl

pub none_is : {A : Type 0} (o : Option A) → o ≡ none → is_some o ≡ true → ⊥
unfolding is_some
none_is none e f = cc
none_is (some a) e f = cc

-- The issue is known where it was not asked for.
latched :
    (issue orphan request began : Bool)
    → ((not issue && not orphan) && (request || began)) ≡ false
    → request ≡ true
    → orphan ≡ false
    → issue ≡ true
latched true orphan request began e w f = refl
latched false orphan request began e w f = cc

module _ (p : Http1RequestParser) where
  latch_first-IsEmptyOrphan :
      (here : Issue) (r : Reading p.State) → IsEmptyOrphan r → IsEmptyOrphan (latch_first p here r)
  unfolding latch_first
  latch_first-IsEmptyOrphan here r h =
      holds_if IsEmptyOrphan (not (is_some r.issue) && not r.orphan)
        (record r { issue = some here }) r
        (λ e.
          outside (record r { issue = some here })
            (not-true r.orphan (both_true (not (is_some r.issue)) (not r.orphan) e).1))
        (λ _. h)

  take_messages-IsEmptyOrphan :
      (msgs : List ParsedMessage) (r : Reading p.State)
      → IsEmptyOrphan r
      → IsEmptyOrphan (take_messages p msgs r)
  unfolding take_messages
  take_messages-IsEmptyOrphan [] r h = h
  take_messages-IsEmptyOrphan (msg ∷ msgs) r h =
      take_messages-IsEmptyOrphan msgs
        (if r.orphan then record r { orphan = false } else record r { request = some msg })
        (holds_if IsEmptyOrphan r.orphan (record r { orphan = false })
          (record r { request = some msg }) (λ _. outside (record r { orphan = false }) refl)
          (λ e. outside (record r { request = some msg }) e))

  stop_orphan-IsEmptyOrphan :
      (r : Reading p.State) → IsEmptyOrphan r → IsEmptyOrphan (stop_orphan p r)
  unfolding stop_orphan
  stop_orphan-IsEmptyOrphan r h =
      holds_if IsEmptyOrphan (r.orphan && p.is_disabled r.parser) (record r { orphan = false }) r
        (λ _. outside (record r { orphan = false }) refl) (λ _. h)

  latch_next-IsReading :
      (here : Issue) (r : Reading p.State) → IsEmptyOrphan r → IsReading (latch_next p here r)
  unfolding latch_next
  latch_next-IsReading here r h =
      let asked = (not (is_some r.issue) && not r.orphan) in
      let began = is_some r.request || not (p.is_idle r.parser) in
      holds_if IsReading (asked && began) (record r { issue = some here }) r
        (λ e. (
          outside (record r { issue = some here })
              (not-true r.orphan
                (both_true (not (is_some r.issue)) (not r.orphan) (both_true asked began e).0).1),
          λ _. unfold is_some in refl,
        ))
        (λ e. (
          h,
          λ waits. elim (Bool-cases r.orphan) [
            | inl inside ↦ absurd (none_is r.request (h inside).0 waits)
            | inr free ↦
                latched (is_some r.issue) r.orphan (is_some r.request) (not (p.is_idle r.parser)) e
                  waits free
          ],
        ))

  feed_reading-IsReading :
      (here : Issue) (bytes : Text) (r : Reading p.State)
      → IsEmptyOrphan r
      → IsReading (feed_reading p here bytes r)
  unfolding feed_reading
  feed_reading-IsReading here bytes r h =
      let first = latch_first p here r in
      let parsed = p.parse bytes first.parser in
      let taken = take_messages p parsed.0 (record first { parser = parsed.1 }) in
      latch_next-IsReading here (stop_orphan p taken) (
        stop_orphan-IsEmptyOrphan taken (
          take_messages-IsEmptyOrphan parsed.0 (record first { parser = parsed.1 })
            (latch_first-IsEmptyOrphan here r h)))

  drop_rejected-IsSide :
      (fresh : Option (Reading p.State)) (r : Reading p.State) (tied : Bool)
      → IsFresh fresh
      → IsReading r
      → IsSide (drop_rejected p fresh r tied)
  unfolding drop_rejected
  drop_rejected-IsSide none r tied f h = (h, tt)
  drop_rejected-IsSide (some fresh) r tied f h =
      holds_if IsSide (p.is_disabled fresh.parser) _ _ (λ _. (h, tt))
        (λ _.
          holds_if IsSide (p.is_disabled r.parser)
            (record { reading = fresh; fresh = none; just_orphaned = false; tied = tied })
            (record { reading = r; fresh = some fresh; just_orphaned = false; tied = tied })
            (λ _. (f, tt)) (λ _. (h, f)))

  pub new_reading-IsReading : IsReading (new_reading p)
  unfolding new_reading is_some
  new_reading-IsReading = ((λ e. (refl, refl)), λ e. cc)

  feed_fresh-IsFresh :
      (here : Issue) (bytes : Text) (fresh : Option (Reading p.State))
      → IsFresh fresh
      → IsFresh (feed_fresh p here bytes fresh)
  unfolding feed_fresh
  feed_fresh-IsFresh here bytes none h = tt
  feed_fresh-IsFresh here bytes (some r) h = feed_reading-IsReading here bytes r h.0

  pub feed-IsSide :
      (here : Issue) (bytes : Text) (s : RequestSide p.State)
      → IsSide s
      → IsSide (feed p here bytes s)
  unfolding feed open_fresh
  feed-IsSide here bytes s h =
      drop_rejected-IsSide (feed_fresh p here bytes (open_fresh p bytes s))
        (feed_reading p here bytes s.reading) s.tied
        (feed_fresh-IsFresh here bytes (open_fresh p bytes s) (
          holds_if IsFresh (s.just_orphaned && opens_like_a_request bytes) (some (new_reading p))
            s.fresh (λ _. new_reading-IsReading) (λ _. h.1)))
        (feed_reading-IsReading here bytes s.reading h.0.0)

  pub choose-IsSide :
      (fresh : Option (Reading p.State)) (s : RequestSide p.State)
      → IsFresh fresh
      → IsSide s
      → IsReading (choose p fresh s).0.reading
  unfolding choose
  choose-IsSide none s f h = h.0
  choose-IsSide (some fresh) s f h =
      holds_if (λ (r : RequestSide p.State × Bool). IsReading r.0.reading)
        (leb (claim p fresh) (claim p s.reading)) _ _ (λ _. h.0) (λ _. f)
