-- ===== src/Assembly/PatchSet/Layers.antt =====
-- A set of patches is undone in the reverse order, down to the store that it started from.
use mathlib.Core.Path.{subst}
use wardex_sdk.Prelude.{
  ℕ, ◌≡◌, ◌∙◌, refl, sym, ap, inl, inr, Bool, true, false, not, ◌&&◌, Option, some, List, [], ◌∷◌,
  filter, nat_eq, nat_eq_iff, both_true, and_true, Bool-cases, if◌then◌else◌, if_true, if_false,
}
use wardex_sdk.Assembly.PatchSet.Patches.{
  Store, Target, Patch, PatchSet, set_attr, is_dead, holds, prune, refuse, record_patch, patch,
  restore, restore_each, restore_all,
}

-- Every object is alive.
abbrev pub all_alive : ℕ → Bool
all_alive o = true

-- A call of `patch`: the object, the name and the wrapper.
abbrev pub PatchCall : Type 0
PatchCall = ℕ × ℕ × ℕ

unfoldable pub patch_all : (ℕ → ℕ → Target) → List PatchCall → PatchSet → PatchSet
unfolding patch
patch_all host [] s = s
patch_all host ((o, n, w) ∷ calls) s = patch_all host calls (patch host all_alive o n w s).0

-- The store has the patches of the list over the base, the first of the list last, on targets that
-- can be read and set.
data IsLayered (host : ℕ → ℕ → Target) (base : Store) : List Patch → Store → Type 0 where
  bare : IsLayered host base [] base
  layer :
      (p : Patch) (ps : List Patch) (store : Store)
      → (host p.object p.name).readable ≡ true
      → (host p.object p.name).settable ≡ true
      → store p.object p.name ≡ p.original
      → IsLayered host base ps store
      → IsLayered host base (p ∷ ps) (set_attr p.object p.name (some p.wrapper) store)

-- Undoing an assignment.
set_attr-undo :
    (o n : ℕ) (v : Option ℕ) (store : Store) (original : Option ℕ)
    → store o n ≡ original
    → set_attr o n original (set_attr o n v store) ≡ store
unfolding set_attr
set_attr-undo o n v store original e = λ i. λ p m. undo p m i
  where
    undo : (p m : ℕ) → set_attr o n original (set_attr o n v store) p m ≡ store p m
    undo p m = elim (Bool-cases (nat_eq p o && nat_eq m n)) [
      | inl at ↦
          let place = both_true (nat_eq p o) (nat_eq m n) at in
          if_true (nat_eq p o && nat_eq m n) original (set_attr o n v store p m) at
          ∙ sym e
          ∙ ap (λ x. store x n) (sym ((nat_eq_iff p o).0 place.0))
          ∙ ap (store p) (sym ((nat_eq_iff m n).0 place.1))
      | inr away ↦
          if_false (nat_eq p o && nat_eq m n) original (set_attr o n v store p m) away
          ∙ if_false (nat_eq p o && nat_eq m n) v (store p m) away
    ]

filter_alive : (ps : List Patch) → filter (λ p. not (is_dead all_alive p)) ps ≡ ps
unfolding is_dead
filter_alive [] = refl
filter_alive (p ∷ ps) =
    if_true (not (p.weak && false)) (p ∷ filter (λ q. not (is_dead all_alive q)) ps)
      (filter (λ q. not (is_dead all_alive q)) ps) (alive_not p.weak)
    ∙ ap (λ qs. p ∷ qs) (filter_alive ps)
  where
    alive_not : (b : Bool) → not (b && false) ≡ true
    alive_not true = refl
    alive_not false = refl

not-false : (b : Bool) → not b ≡ false → b ≡ true
not-false true e = refl
not-false false e = sym e

never_dead : (b : Bool) → (b && false) ≡ false
never_dead true = refl
never_dead false = refl

holds-set_attr :
    (p : Patch) (store : Store)
    → holds p.wrapper (set_attr p.object p.name (some p.wrapper) store p.object p.name) ≡ true
unfolding set_attr holds
holds-set_attr p store =
    ap (holds p.wrapper) (
      if_true (nat_eq p.object p.object && nat_eq p.name p.name) (some p.wrapper)
        (store p.object p.name)
        (and_true (nat_eq p.object p.object) (nat_eq p.name p.name)
          ((nat_eq_iff p.object p.object).1 refl) ((nat_eq_iff p.name p.name).1 refl)))
    ∙ (nat_eq_iff p.wrapper p.wrapper).1 refl

module _ (host : ℕ → ℕ → Target) (base : Store) where
  -- The set's patches are layered over the base.
  abbrev Layered : PatchSet → Type 0
  Layered s = IsLayered host base s.patches s.store

  Layered-if :
      (b : Bool) (s t : PatchSet × Bool)
      → (b ≡ true → Layered s.0)
      → (b ≡ false → Layered t.0)
      → Layered (if b then s else t).0
  Layered-if true s t h k = h refl
  Layered-if false s t h k = k refl

  prune-Layered : (s : PatchSet) → Layered s → Layered (prune all_alive s)
  unfolding prune
  prune-Layered s h = subst (λ ps. IsLayered host base ps s.store) (sym (filter_alive s.patches)) h

  patch-Layered : (o n w : ℕ) (s : PatchSet) → Layered s → Layered (patch host all_alive o n w s).0
  unfolding patch refuse record_patch
  patch-Layered o n w s h =
      let pruned = prune-Layered s h in
      Layered-if (not (host o n).may_patch) (refuse (prune all_alive s), false) _ (λ _. pruned)
        (λ _.
          Layered-if (not (host o n).readable) (refuse (prune all_alive s), false) _ (λ _. pruned)
            (λ can_read.
              Layered-if (not (host o n).settable) (prune all_alive s, false)
                (record_patch (host o n).weak o n w (prune all_alive s), true) (λ _. pruned)
                (λ can_set.
                  layer
                    (record {
                      object = o;
                      name = n;
                      wrapper = w;
                      original = (prune all_alive s).store o n;
                      weak = (host o n).weak;
                    })
                    (prune all_alive s).patches (prune all_alive s).store
                    (not-false (host o n).readable can_read) (not-false (host o n).settable can_set)
                    refl pruned)))

  patch_all-Layered :
      (calls : List PatchCall) (s : PatchSet) → Layered s → Layered (patch_all host calls s)
  unfolding patch_all
  patch_all-Layered [] s h = h
  patch_all-Layered ((o, n, w) ∷ calls) s h =
      patch_all-Layered calls (patch host all_alive o n w s).0 (patch-Layered o n w s h)

  restore-own :
      (p : Patch) (s : PatchSet)
      → (host p.object p.name).readable ≡ true
      → (host p.object p.name).settable ≡ true
      → holds p.wrapper (s.store p.object p.name) ≡ true
      → restore host all_alive p s
        ≡ record s { store = set_attr p.object p.name p.original s.store }
  unfolding restore is_dead
  restore-own p s can_read can_set own =
      if_false (is_dead all_alive p) _ _ (never_dead p.weak)
      ∙ if_false (not (host p.object p.name).readable) _ _ (ap not can_read)
      ∙ if_false (not (holds p.wrapper (s.store p.object p.name))) _ _ (ap not own)
      ∙ if_true (host p.object p.name).settable _ _ can_set

  restore_each-base :
      (ps : List Patch) (store : Store) (s : PatchSet)
      → s.store ≡ store
      → s.patches ≡ ps
      → IsLayered host base ps store
      → ((restore_each host all_alive ps s).store ≡ base)
        × ((restore_each host all_alive ps s).patches ≡ [])
        × ((restore_each host all_alive ps s).superseded ≡ s.superseded)
  unfolding restore_each
  restore_each-base _ _ s e patched bare = (e, patched, refl)
  restore_each-base _ _ s e patched (layer p ps store can_read can_set original rest) =
      let popped = record s { patches = ps } in
      let own : holds p.wrapper (s.store p.object p.name) ≡ true =
        ap (λ t. holds p.wrapper (t p.object p.name)) e ∙ holds-set_attr p store in
      let undone = restore-own p popped can_read can_set own in
      let after =
        restore_each-base ps store (restore host all_alive p popped)
          (ap (λ r. r.store) undone
            ∙ ap (set_attr p.object p.name p.original) e
            ∙ set_attr-undo p.object p.name (some p.wrapper) store p.original original)
          (ap (λ r. r.patches) undone) rest in
      (after.0, after.1, after.2 ∙ ap (λ r. r.superseded) undone)

-- A set with no patches over a store.
abbrev pub fresh_set : Store → PatchSet
fresh_set base = record { store = base; patches = []; superseded = 0; collected = 0; refused = 0 }

-- Whatever is patched, and whatever the targets refuse, also one attribute several times over: while
-- its targets live and nobody else writes to them, a restore of the whole set gives back the store that
-- it started from, leaves no patch, and finds none superseded.
pub restore_all-patch_all :
    (host : ℕ → ℕ → Target) (base : Store) (calls : List PatchCall)
    → (let restored = restore_all host all_alive (patch_all host calls (fresh_set base)) in
        (restored.store ≡ base)
        × (restored.patches ≡ [])
        × (restored.superseded ≡ (patch_all host calls (fresh_set base)).superseded))
unfolding restore_all
restore_all-patch_all host base calls =
    let s = patch_all host calls (fresh_set base) in
    restore_each-base host base s.patches s.store s refl refl
      (patch_all-Layered host base calls (fresh_set base) bare)
