-- ===== src/Hub/TakeDown.antt =====
-- `take_down` and `get_current_scope`, over the scope that each Context has installed.
use mathlib.Core.Path.{subst}
use wardex_sdk.Prelude.{
  ℕ, suc, ◌≤◌, ◌≡◌, ◌∙◌, refl, sym, ap, inl, inr, Bool, true, false, none, nat_eq, nat_eq_iff,
  Bool-cases, arith, if◌then◌else◌, if_true, if_false, holds_if,
}
use wardex_sdk.Hub.Retired.{Retirements, next_of, follow, link, retire}
use wardex_sdk.Hub.Chains.{
  Ends, here, onward, IsRooted, follow-Ends, last_stop, own-Ends, link-other, follow-retire,
}

-- The value of one context variable in each Context, and the retired scopes.
pub record Contexts : Type 0 where
  pub installed : ℕ → ℕ
  pub retired : Retirements

-- `var.set` in a Context.
unfoldable pub set_in : ℕ → ℕ → Contexts → Contexts
set_in context scope c = record c {
  installed = λ o. if nat_eq o context then scope else c.installed o;
}

-- `_settle_in`, and the same test of `take_down` for the Context that runs.
unfoldable pub set_if : ℕ → ℕ → ℕ → Contexts → Contexts
unfolding set_in
set_if context gone prev c = if nat_eq (c.installed context) gone then set_in context prev c else c

-- `_settle_from_afar`, where `reached` says whether the owner's Context can be entered.
unfoldable pub settle_from_afar : Bool → ℕ → ℕ → ℕ → Contexts → Contexts
unfolding set_if
settle_from_afar reached owner gone prev c = if reached then set_if owner gone prev c else c

-- `take_down` in the Context `running`, where `resets` says whether the token was set there, and so
-- whether `var.reset` gives back what was installed before. The result says whether it did not.
unfoldable pub take_down : ℕ → Bool → Bool → ℕ → ℕ → ℕ → ℕ → Contexts → Contexts × Bool
unfolding set_in set_if settle_from_afar retire
take_down fuel resets reached running owner gone prev c =
    if resets then (set_in running prev c, false) else (
      let left = set_if running gone prev c in
          settle_from_afar reached owner gone prev
            (record left { retired = retire fuel gone prev owner c.retired }),
      true,
    )

-- What a Context reads: `get_current_scope`, with `_settled`.
unfoldable pub read_scope : ℕ → ℕ → Contexts → ℕ
unfolding follow
read_scope fuel owner c = follow fuel owner c.retired (c.installed owner)

module _ (fork last owner : ℕ) (t : Retirements) where
  -- A chain that ended at the new link's end still does.
  link-last :
      (n s : ℕ)
      → nat_eq last fork ≡ false
      → next_of owner (t last) ≡ none
      → Ends owner t n s last
      → (m : ℕ) × (m ≤ suc n) × Ends owner (link fork last owner t) m s last
  link-last _ s away stop (here _ _) =
      (0, omega arith, here s (ap (next_of owner) (link-other fork last owner t s away) ∙ stop))
  link-last _ s away stop (onward n _ u _ step rest) = elim (Bool-cases (nat_eq s fork)) [
    | inl at ↦ (
      1,
      omega arith,
      subst (λ x. Ends owner (link fork last owner t) 1 x last) (sym ((nat_eq_iff s fork).0 at))
          (own-Ends fork last owner t away stop),
    )
    | inr else_where ↦
        let after = link-last n u away stop rest in
        (
          suc after.0,
          omega (arith, after.1),
          onward after.0 s u last
              (ap (next_of owner) (link-other fork last owner t s else_where) ∙ step) after.2,
        )
  ]

follow-retire_prev :
    (bound fuel fork prev owner : ℕ) (t : Retirements)
    → IsRooted bound t
    → bound ≤ fuel
    → follow (suc fuel) owner (retire fuel fork prev owner t) prev ≡ follow fuel owner t prev
unfolding retire
follow-retire_prev bound fuel fork prev owner t h enough = from_table (nat_eq last fork) refl
  where
    last : ℕ
    last = follow fuel owner t prev

    chain : (n : ℕ) × (n ≤ bound) × Ends owner t n prev last
    chain =
        let found = h owner prev in
        (
          found.0,
          found.2,
          subst (λ e. Ends owner t found.0 prev e)
              (sym (
                follow-Ends fuel owner t found.0 prev found.1 found.3
                  (omega (arith, found.2, enough))))
              found.3,
        )

    from_table :
        (b : Bool)
        → nat_eq last fork ≡ b
        → follow (suc fuel) owner (if b then t else link fork last owner t) prev ≡ last
    from_table true e =
        follow-Ends (suc fuel) owner t chain.0 prev last chain.2 (omega (arith, chain.1, enough))
    from_table false e =
        let linked =
          link-last fork last owner t chain.0 prev e (last_stop bound fuel owner t prev h enough)
            chain.2 in
        follow-Ends (suc fuel) owner (link fork last owner t) linked.0 prev last linked.2
          (omega (arith, linked.1, chain.1, enough))

set_if-here :
    (context gone prev : ℕ) (c : Contexts)
    → c.installed context ≡ gone
    → (set_if context gone prev c).installed context ≡ prev
unfolding set_if set_in
set_if-here context gone prev c e =
    holds_if (λ (d : Contexts). d.installed context ≡ prev) (nat_eq (c.installed context) gone) _ c
      (λ _.
        if_true (nat_eq context context) prev (c.installed context)
          ((nat_eq_iff context context).1 refl))
      (λ f. absurd (
        neither (nat_eq (c.installed context) gone) ((nat_eq_iff (c.installed context) gone).1 e)
          f))
  where
    neither : (b : Bool) → b ≡ true → b ≡ false → ⊥
    neither true e f = cc
    neither false e f = cc

set_if-elsewhere :
    (context o gone prev : ℕ) (c : Contexts)
    → nat_eq o context ≡ false
    → (set_if context gone prev c).installed o ≡ c.installed o
unfolding set_if set_in
set_if-elsewhere context o gone prev c e =
    holds_if (λ (d : Contexts). d.installed o ≡ c.installed o) (nat_eq (c.installed context) gone) _
      c (λ _. if_false (nat_eq o context) prev (c.installed o) e) (λ _. refl)

retired-set_if :
    (context gone prev : ℕ) (c : Contexts) → (set_if context gone prev c).retired ≡ c.retired
unfolding set_if set_in
retired-set_if context gone prev c =
    holds_if (λ (d : Contexts). d.retired ≡ c.retired) (nat_eq (c.installed context) gone) _ c
      (λ _. refl) (λ _. refl)

read_scope-afar :
    (bound fuel owner gone prev : ℕ) (reached : Bool) (d : Contexts) (t : Retirements)
    → IsRooted bound t
    → bound ≤ fuel
    → d.installed owner ≡ gone
    → d.retired ≡ retire fuel gone prev owner t
    → read_scope (suc fuel) owner (settle_from_afar reached owner gone prev d)
      ≡ follow fuel owner t prev
unfolding read_scope settle_from_afar
read_scope-afar bound fuel owner gone prev true d t h enough inside table =
    ap (λ r. follow (suc fuel) owner r ((set_if owner gone prev d).installed owner))
      (retired-set_if owner gone prev d ∙ table)
    ∙ ap (follow (suc fuel) owner (retire fuel gone prev owner t))
        (set_if-here owner gone prev d inside)
    ∙ follow-retire_prev bound fuel gone prev owner t h enough
read_scope-afar bound fuel owner gone prev false d t h enough inside table =
    ap (λ r. follow (suc fuel) owner r (d.installed owner)) table
    ∙ ap (follow (suc fuel) owner (retire fuel gone prev owner t)) inside
    ∙ follow-retire bound fuel gone prev owner t h enough

-- Where a block ends in another Context than it began in, so that its token resets nothing there, the
-- Context that began it and still holds its scope reads next what it would then read in place of the
-- scope before, whether or not that Context can be entered at once.
pub read_scope-take_down :
    (bound fuel running owner gone prev : ℕ) (reached : Bool) (c : Contexts)
    → IsRooted bound c.retired
    → bound ≤ fuel
    → c.installed owner ≡ gone
    → nat_eq owner running ≡ false
    → read_scope (suc fuel) owner (take_down fuel false reached running owner gone prev c).0
      ≡ follow fuel owner c.retired prev
unfolding take_down
read_scope-take_down bound fuel running owner gone prev reached c h enough inside away =
    read_scope-afar bound fuel owner gone prev reached
      (record (set_if running gone prev c) { retired = retire fuel gone prev owner c.retired })
      c.retired h enough (set_if-elsewhere running owner gone prev c away ∙ inside) refl
