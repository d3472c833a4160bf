-- ===== src/Context/W3c/Tracestate.antt =====
-- What `sanitize_tracestate` lets through, and what it keeps of it.
use mathlib.Core.Path.{subst}
use mathlib.Core.List.{append-nil}
use wardex_sdk.Prelude.{
  ℕ, suc, ◌≤◌, ◌≡◌, ◌≢◌, ◌↔◌, ◌⊎◌, ◌∙◌, refl, sym, inl, inr, Bool, true, false, not, none, some,
  List, [], ◌∷◌, ◌++◌, length, take, take_short, length-take, all, All-take, arith, ltb, Bool-cases,
  if◌then◌else◌,
}
use wardex_sdk.Prelude.Text.{Text, strip, Lacks}
use wardex_sdk.Prelude.Split.{split, join-split, split-join, join-take, split-Lacks, split-ne-nil}
use wardex_sdk.Context.W3c.{
  sanitize_tracestate, cap_members, comma, is_printable, is_nonempty, max_tracestate_members,
}

abbrev pub members : Text → List Text
members = split comma

all-append : (p : ℕ → Bool) (s t : Text) → all p (s ++ t) ≡ true → all p s ≡ true
all-append p [] t h = refl
all-append p (c ∷ s) t h = ground (arith, all-append p s t)

cap_members-prefix : (s : Text) → (rest : Text) × (s ≡ cap_members s ++ rest)
unfolding cap_members
cap_members-prefix s = elim (Bool-cases (ltb max_tracestate_members (length (split comma s)))) [
  | inl long ↦
      let (rest, e) = join-take comma max_tracestate_members (split comma s) in
      (rest, rw long (sym (join-split comma s) ∙ e))
  | inr short ↦ ([], rw short (sym (append-nil s)))
]

take-ne-nil {ℓ} : {A : Type ℓ} (n : ℕ) (xs : List A) → xs ≢ [] → take (suc n) xs ≢ []
take-ne-nil n [] h = h
take-ne-nil n (x ∷ xs) h = λ e. cc

-- The cut keeps the first members as they were.
members-cap_members : (s : Text) → members (cap_members s) ≡ take max_tracestate_members (members s)
unfolding cap_members
members-cap_members s = elim (Bool-cases (ltb max_tracestate_members (length (split comma s)))) [
  | inl long ↦ rw long (
      split-join comma (take max_tracestate_members (split comma s))
        (take-ne-nil 31 (split comma s) (split-ne-nil comma s))
        (All-take (Lacks comma) max_tracestate_members (split comma s) (split-Lacks comma s)))
  | inr short ↦ rw short (sym (take_short max_tracestate_members (split comma s) (ground arith)))
]

-- What is let through of an inbound value.
pub record IsVetted (value result : Text) : Type 0 where
  pub printable : all is_printable result ≡ true
  pub bounded : length (members result) ≤ max_tracestate_members
  pub kept : members result ≡ take max_tracestate_members (members (strip value))
  pub rest : Text
  pub prefix : strip value ≡ result ++ rest

sanitize_vets :
    (value : Text)
    → all is_printable (strip value) ≡ true
    → IsVetted value (cap_members (strip value))
sanitize_vets value p =
    let (rest, e) = cap_members-prefix (strip value) in
    record {
      printable =
          all-append is_printable (cap_members (strip value)) rest
            (subst (λ t. all is_printable t ≡ true) e p);
      bounded =
          rw (members-cap_members (strip value))
            (omega (arith, length-take max_tracestate_members (members (strip value))));
      kept = members-cap_members (strip value);
      rest = rest;
      prefix = e;
    }

-- A value that `sanitize_tracestate` returns is printable ASCII throughout, holds at most 32 list
-- members, which are the first members of the stripped value unchanged, and is a prefix of it.
pub sanitize_tracestate-IsVetted :
    (value result : Text) → sanitize_tracestate (some value) ≡ some result → IsVetted value result
unfolding sanitize_tracestate
sanitize_tracestate-IsVetted value result h = elim (Bool-cases (is_nonempty (strip value))) [
  | inr none_left ↦ absurd (ground arith)
  | inl more ↦ elim (Bool-cases (all is_printable (strip value))) [
    | inr bad ↦ absurd (ground arith)
    | inl good ↦
        let e : cap_members (strip value) ≡ result = ground arith in
        subst (IsVetted value) e (sanitize_vets value good)
  ]
]

-- An inbound value is dropped exactly when it is absent, blank, or holds a character outside
-- printable ASCII once stripped.
pub sanitize_tracestate-none :
    (value : Text)
    → (sanitize_tracestate (some value) ≡ none)
      ↔ ((strip value ≡ []) ⊎ (all is_printable (strip value) ≡ false))
unfolding sanitize_tracestate
sanitize_tracestate-none value = go (strip value)
  where
    go :
        (s : Text)
        → ((if not (is_nonempty s)
              then none
              else if not (all is_printable s)
              then none
              else some (cap_members s))
            ≡ none)
          ↔ ((s ≡ []) ⊎ (all is_printable s ≡ false))
    go [] = (λ h. inl refl, λ h. refl)
    go (c ∷ s) = elim (Bool-cases (all is_printable (c ∷ s))) [
      | inl good ↦ (λ h. absurd (ground arith), λ h. ground arith)
      | inr bad ↦ (λ h. inr bad, λ h. rw bad)
    ]
