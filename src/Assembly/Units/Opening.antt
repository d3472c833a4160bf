-- ===== src/Assembly/Units/Opening.antt =====
-- A unit that is opened enters the tree of units, which stands, and owes its span.
use mathlib.Core.Path.{subst}
use wardex_sdk.Prelude.{
  ℕ, suc, ◌<◌, true, false, none, some, List, [], ◌∷◌, nat_eq, includes, length, ltb, ◌≡◌, refl,
  sym, ◌∙◌, arith, if_true, if_false, Bool-cases, inl, inr, ◌⊎◌,
}
use wardex_sdk.Assembly.Units.State.{Registry}
use wardex_sdk.Assembly.Units.Tables.{evict_oldest}
use wardex_sdk.Assembly.Units.Grown.{is_open_in}
use wardex_sdk.Assembly.Units.Paid.{IsPaid}
use wardex_sdk.Assembly.Units.Entering.{IsNewcomer, old_or_new}

-- What a full table loses, or that it is not full.
pub evict_cases {ℓ} :
    {A : Type ℓ} (bound : ℕ) (xs : List A)
    → (evict_oldest bound xs ≡ (none, xs))
      ⊎ ((x : A) × (rest : List A) × (xs ≡ x ∷ rest) × (evict_oldest bound xs ≡ (some x, rest)))
unfolding evict_oldest
evict_cases bound [] = inl refl
evict_cases bound (x ∷ xs) = elim (Bool-cases (ltb (length (x ∷ xs)) bound)) [
  | inl room ↦ inl (if_true _ _ _ room)
  | inr full ↦ inr (x, xs, refl, if_false _ _ _ full)
]

module _ (n m : ℕ) (pending : List ℕ) (r : Registry) (h : IsPaid n m pending r)
    (new : IsNewcomer n m r) where
  entered_apart : (u v : ℕ) → u < suc n → v < suc n → (r.units u).draft ≡ (r.units v).draft → u ≡ v
  entered_apart u v lt mt e = elim (old_or_new u n lt) [
    | inl old ↦ elim (old_or_new v n mt) [
      | inl old_too ↦ h.apart u v old old_too e
      | inr same ↦
          let here : (r.units v).draft ≡ m = subst (λ w. (r.units w).draft ≡ m) same new.draft in
          absurd (ground (arith, h.drawn u old))
    ]
    | inr same ↦ elim (old_or_new v n mt) [
      | inl old ↦
          let here : (r.units u).draft ≡ m = subst (λ w. (r.units w).draft ≡ m) same new.draft in
          absurd (ground (arith, h.drawn v old))
      | inr same_too ↦ sym same ∙ same_too
    ]
  ]

  entered_unopened :
      (u v x : ℕ)
      → u < suc n
      → v < suc n
      → is_open_in x (r.units u).opened ≡ true
      → (x < suc m) × (nat_eq x (r.units v).draft ≡ false)
  entered_unopened u v x lt mt held = elim (old_or_new u n lt) [
    | inr same ↦
        let empty : (r.units u).opened ≡ [] =
          subst (λ w. (r.units w).opened ≡ []) same new.opened in
        absurd (unfold is_open_in in ground arith)
    | inl old ↦ elim (old_or_new v n mt) [
      | inl old_too ↦ let q = h.unopened u v x old old_too held in (omega (arith, q.0), q.1)
      | inr same ↦
          let q = h.unopened u u x old old held in
          let here : (r.units v).draft ≡ m = subst (λ w. (r.units w).draft ≡ m) same new.draft in
          (omega (arith, q.0), ground (arith, q.0))
    ]
  ]

  entered_unpaid :
      (u : ℕ)
      → u < suc n
      → (r.units u).live ≡ true
      → ((r.drafts (r.units u).draft).emitted ≡ false)
        × (includes (r.units u).draft pending ≡ false)
  entered_unpaid u lt e = elim (old_or_new u n lt) [
    | inl old ↦ h.unpaid u old e
    | inr same ↦
        let here : m ≡ (r.units u).draft =
          sym (subst (λ w. (r.units w).draft ≡ m) same new.draft) in
        subst (λ x. ((r.drafts x).emitted ≡ false) × (includes x pending ≡ false)) here
          (new.flag, ground (arith, h.pending_known m))
  ]

  entered_paid :
      (u : ℕ)
      → u < suc n
      → (r.units u).live ≡ false
      → ((r.drafts (r.units u).draft).emitted ≡ true) ⊎ (includes (r.units u).draft pending ≡ true)
  entered_paid u lt e = elim (old_or_new u n lt) [
    | inl old ↦ h.paid u old e
    | inr same ↦ absurd (ground (arith, subst (λ w. (r.units w).live ≡ true) same new.live))
  ]

  entered_told : (x : ℕ) → x < suc m → includes x r.emitted ≡ (r.drafts x).emitted
  entered_told x lt = elim (old_or_new x m lt) [
    | inl old ↦ h.told x old
    | inr same ↦
        subst (λ y. includes y r.emitted ≡ (r.drafts y).emitted) same
          (ground (arith, new.flag, h.emitted_known m))
  ]

  -- The new unit owes its span, and has opened none.
  pub entered-IsPaid : IsPaid (suc n) (suc m) pending r
  entered-IsPaid = record {
    drawn = λ u lt. elim (old_or_new u n lt) [
      | inl old ↦ omega (arith, h.drawn u old)
      | inr same ↦ subst (λ v. (r.units v).draft < suc m) same (rw new.draft (omega arith))
    ];
    apart = entered_apart;
    unopened = entered_unopened;
    unpaid = entered_unpaid;
    paid = entered_paid;
    told = entered_told;
    emitted_known = λ x held. omega (arith, h.emitted_known x held);
    pending_known = λ x held. omega (arith, h.pending_known x held);
    once = h.once;
  }
