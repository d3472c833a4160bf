-- ===== src/Hub/Chains.antt =====
-- The links between retired scopes never make a loop, and a scope that is taken down reads as what
-- stood before it.
use wardex_sdk.Prelude.{
  ℕ, zero, suc, ◌≤◌, ◌≡◌, ◌∙◌, refl, sym, ap, inl, inr, Bool, true, false, none, some, nat_eq,
  nat_eq_iff, Bool-cases, arith, if◌then◌else◌, if_true, if_false,
}
use wardex_sdk.Hub.Retired.{Retirements, next_of, follow_from, follow, link, retire}

-- From `s` a Context gets to `e` in so many links, and no further.
pub data Ends (owner : ℕ) (t : Retirements) : ℕ → ℕ → ℕ → Type 0 where
  here : (s : ℕ) → next_of owner (t s) ≡ none → Ends owner t 0 s s
  onward :
      (n s u e : ℕ) → next_of owner (t s) ≡ some u → Ends owner t n u e → Ends owner t (suc n) s e

-- Whatever scope a Context holds, it gets to an end within so many links.
abbrev pub IsRooted : ℕ → Retirements → Type 0
IsRooted bound t = (owner s : ℕ) → (n : ℕ) × (e : ℕ) × (n ≤ bound) × Ends owner t n s e

pub follow-Ends :
    (fuel owner : ℕ) (t : Retirements) (n s e : ℕ)
    → Ends owner t n s e
    → n ≤ fuel
    → follow fuel owner t s ≡ e
unfolding follow follow_from
follow-Ends zero owner t _ s _ (here _ stop) h = refl
follow-Ends (suc fuel) owner t _ s _ (here _ stop) h = ap (follow_from (follow fuel owner t) s) stop
follow-Ends zero owner t _ s e (onward n _ u _ step rest) h = absurd (omega arith)
follow-Ends (suc fuel) owner t _ s e (onward n _ u _ step rest) h =
    ap (follow_from (follow fuel owner t) s) step
    ∙ follow-Ends fuel owner t n u e rest (omega arith)

last-Ends :
    (owner : ℕ) (t : Retirements) (n s e : ℕ) → Ends owner t n s e → next_of owner (t e) ≡ none
last-Ends owner t _ s _ (here _ stop) = stop
last-Ends owner t _ s e (onward n _ u _ step rest) = last-Ends owner t n u e rest

module _ (fork last owner : ℕ) (t : Retirements) where
  pub link-other : (s : ℕ) → nat_eq s fork ≡ false → link fork last owner t s ≡ t s
  unfolding link
  link-other s e = rw e refl

  link-fork : (s : ℕ) → nat_eq s fork ≡ true → link fork last owner t s ≡ some (last, owner)
  unfolding link
  link-fork s e = rw e refl

  -- What a Context reads in place of the scope that was linked.
  next-fork :
      (o s : ℕ)
      → nat_eq s fork ≡ true
      → next_of o (link fork last owner t s) ≡ (if nat_eq owner o then some last else none)
  unfolding next_of
  next-fork o s e = ap (next_of o) (link-fork s e)

  fork-Ends :
      (o s : ℕ)
      → nat_eq s fork ≡ true
      → nat_eq last fork ≡ false
      → next_of owner (t last) ≡ none
      → (n : ℕ) × (e : ℕ) × (n ≤ 1) × Ends o (link fork last owner t) n s e
  fork-Ends o s at away stop = elim (Bool-cases (nat_eq owner o)) [
    | inl mine ↦ (
      1,
      last,
      omega arith,
      onward 0 s last last (next-fork o s at ∙ if_true (nat_eq owner o) (some last) none mine) (
          here last (
            ap (next_of o) (link-other last away)
            ∙ ap (λ x. next_of x (t last)) (sym ((nat_eq_iff owner o).0 mine))
            ∙ stop)),
    )
    | inr other ↦ (
      0,
      s,
      omega arith,
      here s (next-fork o s at ∙ if_false (nat_eq owner o) (some last) none other),
    )
  ]

  pub own-Ends :
      nat_eq last fork ≡ false
      → next_of owner (t last) ≡ none
      → Ends owner (link fork last owner t) 1 fork last
  own-Ends away stop =
      onward 0 fork last last
        (next-fork owner fork ((nat_eq_iff fork fork).1 refl)
          ∙ if_true (nat_eq owner owner) (some last) none ((nat_eq_iff owner owner).1 refl))
        (here last (ap (next_of owner) (link-other last away) ∙ stop))

  link-Ends :
      (o n s e : ℕ)
      → nat_eq last fork ≡ false
      → next_of owner (t last) ≡ none
      → Ends o t n s e
      → (m : ℕ) × (d : ℕ) × (m ≤ suc n) × Ends o (link fork last owner t) m s d
  link-Ends o _ s _ away stop (here _ end) = elim (Bool-cases (nat_eq s fork)) [
    | inl at ↦ fork-Ends o s at away stop
    | inr else_where ↦ (0, s, omega arith, here s (ap (next_of o) (link-other s else_where) ∙ end))
  ]
  link-Ends o _ s e away stop (onward n _ u _ step rest) = elim (Bool-cases (nat_eq s fork)) [
    | inl at ↦
        let linked = fork-Ends o s at away stop in
        (linked.0, linked.1, omega (arith, linked.2), linked.3)
    | inr else_where ↦
        let after = link-Ends o n u e away stop rest in
        (
          suc after.0,
          after.1,
          omega (arith, after.2),
          onward after.0 s u after.1 (ap (next_of o) (link-other s else_where) ∙ step) after.3,
        )
  ]

-- A table that is rooted stays so, whichever of two it is.
IsRooted-if :
    (b : Bool) (bound : ℕ) (t u : Retirements)
    → IsRooted bound t
    → (b ≡ false → IsRooted bound u)
    → IsRooted bound (if b then t else u)
IsRooted-if true bound t u h k = h
IsRooted-if false bound t u h k = k refl

IsRooted-more : (bound : ℕ) (t : Retirements) → IsRooted bound t → IsRooted (suc bound) t
IsRooted-more bound t h owner s =
    let chain = h owner s in (chain.0, chain.1, omega (arith, chain.2), chain.3)

pub last_stop :
    (bound fuel owner : ℕ) (t : Retirements) (prev : ℕ)
    → IsRooted bound t
    → bound ≤ fuel
    → next_of owner (t (follow fuel owner t prev)) ≡ none
last_stop bound fuel owner t prev h enough =
    let chain = h owner prev in
    ap (λ e. next_of owner (t e))
      (follow-Ends fuel owner t chain.0 prev chain.1 chain.3 (omega (arith, chain.2, enough)))
    ∙ last-Ends owner t chain.0 prev chain.1 chain.3

-- A take-down keeps every chain of links finite and lengthens it by one link at most, with fuel for
-- the chains there were.
pub retire-IsRooted :
    (bound fuel fork prev owner : ℕ) (t : Retirements)
    → IsRooted bound t
    → bound ≤ fuel
    → IsRooted (suc bound) (retire fuel fork prev owner t)
unfolding retire
retire-IsRooted bound fuel fork prev owner t h enough =
    let last = follow fuel owner t prev in
    IsRooted-if (nat_eq last fork) (suc bound) t (link fork last owner t) (IsRooted-more bound t h)
      (λ away o s.
        let chain = h o s in
        let linked =
          link-Ends fork last owner t o chain.0 s chain.1 away
            (last_stop bound fuel owner t prev h enough) chain.3 in
        (linked.0, linked.1, omega (arith, linked.2, chain.2), linked.3))

-- The Context that installed a scope reads it, once it is taken down, as what it then reads in place of
-- the scope before, whatever was retired earlier.
pub follow-retire :
    (bound fuel fork prev owner : ℕ) (t : Retirements)
    → IsRooted bound t
    → bound ≤ fuel
    → follow (suc fuel) owner (retire fuel fork prev owner t) fork ≡ follow fuel owner t prev
unfolding retire
follow-retire bound fuel fork prev owner t h enough =
    follow-table (nat_eq last fork) refl (last_stop bound fuel owner t prev h enough)
  where
    last : ℕ
    last = follow fuel owner t prev

    follow-table :
        (b : Bool)
        → nat_eq last fork ≡ b
        → next_of owner (t last) ≡ none
        → follow (suc fuel) owner (if b then t else link fork last owner t) fork ≡ last
    follow-table true e stop =
        let at = (nat_eq_iff last fork).0 e in
        follow-Ends (suc fuel) owner t 0 fork fork
          (here fork (ap (λ s. next_of owner (t s)) (sym at) ∙ stop)) (omega arith)
        ∙ sym at
    follow-table false e stop =
        follow-Ends (suc fuel) owner (link fork last owner t) 1 fork last
          (own-Ends fork last owner t e stop) (omega arith)
