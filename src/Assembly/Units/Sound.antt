-- ===== src/Assembly/Units/Sound.antt =====
-- What holds of the units and the tables of a registry, and that a detachment keeps it.
use mathlib.Core.Path.{subst}
use wardex_sdk.Prelude.{
  ℕ, ◌<◌, true, false, ◌||◌, some, List, ◌∷◌, nat_eq, includes, ◌≡◌, sym, ap, ◌∙◌, arith,
  Bool-cases, inl, inr, ◌⊎◌, nat_eq_iff,
}
use wardex_sdk.Prelude.Dicts.{get}
use wardex_sdk.Assembly.Units.State.{UnitKey, unit_key_Eq, Registry}
use wardex_sdk.Assembly.Units.Tables.{is_key_in}
use wardex_sdk.Assembly.Units.Detached.{IsDetached}

-- A live unit is a root, or a child of a live unit that is not about to go.
unfoldable pub Placed : List ℕ → Registry → ℕ → Type 0
Placed doomed r u =
    (includes u r.roots ≡ true)
    ⊎ ((p : ℕ) × ((r.units u).parent ≡ some p)
        × ((r.units p).live ≡ true)
        × (includes u (r.units p).children ≡ true)
        × (includes p doomed ≡ false))

-- Of the first `n` units, where `doomed` are about to go: the tables name the live ones, each in its
-- place, and the index names a live unit that has the key.
pub record IsSound (n : ℕ) (doomed : List ℕ) (r : Registry) : Type 0 where
  pub known : (u : ℕ) → includes u r.live_units ≡ true → u < n
  pub listed : (u : ℕ) → u < n → includes u r.live_units ≡ (r.units u).live
  pub rooted : (u : ℕ) → includes u r.roots ≡ true → (u < n) × ((r.units u).live ≡ true)
  pub placed :
      (u : ℕ) → u < n → (r.units u).live ≡ true → includes u doomed ≡ false → Placed doomed r u
  pub older : (u p : ℕ) → u < n → (r.units u).parent ≡ some p → p < u
  pub child :
      (p c : ℕ)
      → p < n
      → includes c (r.units p).children ≡ true
      → (c < n) × ((r.units c).parent ≡ some p) × ((r.units c).live ≡ true)
  pub aliased :
      (k : UnitKey) (u : ℕ)
      → get k r.by_alias ≡ some u
      → (u < n) × ((r.units u).live ≡ true) × (is_key_in k (r.units u).alias_keys ≡ true)

module _ (n d : ℕ) (doomed : List ℕ) (r s : Registry) (h : IsSound n (d ∷ doomed) r)
    (gone : IsDetached d r s) where
  detached_known : (u : ℕ) → includes u s.live_units ≡ true → u < n
  detached_known u e = ground (arith, gone.live_units u, h.known u)

  detached_listed : (u : ℕ) → u < n → includes u s.live_units ≡ (s.units u).live
  detached_listed u lt = ground (arith, gone.live_units u, gone.live u, h.listed u lt)

  detached_rooted : (u : ℕ) → includes u s.roots ≡ true → (u < n) × ((s.units u).live ≡ true)
  detached_rooted u e = ground (arith, gone.roots u, gone.live u, h.rooted u)

  detached_child :
      (p c : ℕ)
      → p < n
      → includes c (s.units p).children ≡ true
      → (c < n) × ((s.units c).parent ≡ some p) × ((s.units c).live ≡ true)
  detached_child p c lt e =
      let old = gone.children_old p c e in
      let was = h.child p c lt old.0 in ground (arith, gone.parent c, gone.live c)

  detached-Placed :
      (u : ℕ) → u < n → (s.units u).live ≡ true → includes u doomed ≡ false → Placed doomed s u
  unfolding Placed includes
  detached-Placed u lt e spared =
      let apart : nat_eq u d ≡ false = ground (arith, gone.live u) in
      let lived : (r.units u).live ≡ true = ground (arith, gone.live u) in
      let unharmed : (nat_eq d u || includes u doomed) ≡ false = ground arith in
      elim (h.placed u lt lived unharmed) [
        | inl root ↦ inl (ground (arith, gone.roots u))
        | inr (p, named, living, held, safe) ↦
            let other : nat_eq p d ≡ false = ground arith in
            inr (
              p,
              gone.parent u ∙ named,
              ground (arith, gone.live p),
              gone.children_kept p u other apart held,
              ground arith,
            )
      ]

  detached_aliased :
      (k : UnitKey) (u : ℕ)
      → get k s.by_alias ≡ some u
      → (u < n) × ((s.units u).live ≡ true) × (is_key_in k (s.units u).alias_keys ≡ true)
  detached_aliased k u e =
      let old = gone.index k u e in
      let was = h.aliased k u old.0 in
      elim (Bool-cases (nat_eq u d)) [
        | inl same ↦
            let here : u ≡ d = (nat_eq_iff u d).0 same in
            absurd (
              ground
                (arith, old.1 (subst (λ v. is_key_in k (r.units v).alias_keys ≡ true) here was.2)))
        | inr apart ↦
            (was.0, ground (arith, gone.live u), ap (is_key_in k) (gone.alias_keys u apart) ∙ was.2)
      ]

  -- What is about to go may go.
  pub detached-IsSound : IsSound n doomed s
  detached-IsSound = record {
    known = detached_known;
    listed = detached_listed;
    rooted = detached_rooted;
    placed = detached-Placed;
    older = λ u p lt e. h.older u p lt (sym (gone.parent u) ∙ e);
    child = detached_child;
    aliased = detached_aliased;
  }
