-- ===== src/Assembly/PatchSet/Foreign.antt =====
-- What another party has put over a patch stays.
use mathlib.Core.Path.{subst}
use wardex_sdk.Prelude.{
  ℕ, ◌+◌, ◌≡◌, ◌∙◌, refl, sym, ap, inl, inr, Bool, true, false, not, ◌&&◌, Option, List, [], ◌∷◌,
  nat_eq, nat_eq_iff, both_true, Bool-cases, if◌then◌else◌, if_false,
}
use wardex_sdk.Assembly.PatchSet.Patches.{
  Store, Target, Patch, PatchSet, set_attr, is_dead, holds, restore, restore_each, restore_all,
}

-- No patch of the list has its wrapper at that attribute.
abbrev pub IsForeign : ℕ → ℕ → Option ℕ → List Patch → Type 0
IsForeign o n value [] = Unit
IsForeign o n value (p ∷ ps) =
    ((nat_eq o p.object && nat_eq n p.name) ≡ true → holds p.wrapper value ≡ false)
    × IsForeign o n value ps

store_if :
    (b : Bool) (s t : PatchSet) (o n : ℕ) {value : Option ℕ}
    → (b ≡ true → s.store o n ≡ value)
    → (b ≡ false → t.store o n ≡ value)
    → (if b then s else t).store o n ≡ value
store_if true s t o n h k = h refl
store_if false s t o n h k = k refl

set_attr-other :
    (o n : ℕ) (value : Option ℕ) (store : Store) (p m : ℕ)
    → (nat_eq p o && nat_eq m n) ≡ false
    → set_attr o n value store p m ≡ store p m
unfolding set_attr
set_attr-other o n value store p m e = if_false (nat_eq p o && nat_eq m n) value (store p m) e

module _ (host : ℕ → ℕ → Target) (alive : ℕ → Bool) (o n : ℕ) where
  -- An attribute that holds the patch's wrapper is another one.
  own_attr :
      (p : Patch) (s : PatchSet)
      → ((nat_eq o p.object && nat_eq n p.name) ≡ true → holds p.wrapper (s.store o n) ≡ false)
      → not (holds p.wrapper (s.store p.object p.name)) ≡ false
      → set_attr p.object p.name p.original s.store o n ≡ s.store o n
  own_attr p s foreign mine = elim (Bool-cases (nat_eq o p.object && nat_eq n p.name)) [
    | inl at ↦
        let place = both_true (nat_eq o p.object) (nat_eq n p.name) at in
        let same_object = (nat_eq_iff o p.object).0 place.0 in
        let same_name = (nat_eq_iff n p.name).0 place.1 in
        let read : s.store o n ≡ s.store p.object p.name =
          ap (λ x. s.store x n) same_object ∙ ap (s.store p.object) same_name in
        absurd (
          clash (holds p.wrapper (s.store p.object p.name))
            (sym (ap (holds p.wrapper) read) ∙ foreign at) mine)
    | inr away ↦ set_attr-other p.object p.name p.original s.store o n away
  ]
    where
      clash : (b : Bool) → b ≡ false → not b ≡ false → ⊥
      clash true e f = cc
      clash false e f = cc

  store-restore :
      (p : Patch) (s : PatchSet)
      → ((nat_eq o p.object && nat_eq n p.name) ≡ true → holds p.wrapper (s.store o n) ≡ false)
      → (restore host alive p s).store o n ≡ s.store o n
  unfolding restore
  store-restore p s foreign =
      store_if (is_dead alive p) (record s { collected = s.collected + 1 }) _ o n (λ _. refl)
        (λ _.
          store_if (not (host p.object p.name).readable) s _ o n (λ _. refl)
            (λ _.
              store_if (not (holds p.wrapper (s.store p.object p.name)))
                (record s { superseded = s.superseded + 1 }) _ o n (λ _. refl)
                (λ mine.
                  store_if (host p.object p.name).settable
                    (record s { store = set_attr p.object p.name p.original s.store }) s o n
                    (λ _. own_attr p s foreign mine) (λ _. refl))))

  IsForeign-restore_each :
      (ps : List Patch) (s : PatchSet)
      → IsForeign o n (s.store o n) ps
      → (restore_each host alive ps s).store o n ≡ s.store o n
  unfolding restore_each
  IsForeign-restore_each [] s h = refl
  IsForeign-restore_each (p ∷ ps) s h =
      let popped = record s { patches = ps } in
      let after = store-restore p popped h.0 in
      IsForeign-restore_each ps (restore host alive p popped)
        (subst (λ v. IsForeign o n v ps) (sym after) h.1)
      ∙ after

-- An attribute that holds something else than the wrappers of this set's patches of it, such as a
-- host's own later patch, is left as it is by a restore of the whole set.
pub store-restore_all :
    (host : ℕ → ℕ → Target) (alive : ℕ → Bool) (o n : ℕ) (s : PatchSet)
    → IsForeign o n (s.store o n) s.patches
    → (restore_all host alive s).store o n ≡ s.store o n
unfolding restore_all
store-restore_all host alive o n s h = IsForeign-restore_each host alive o n s.patches s h
