-- ===== src/Assembly/Units/Bounded.antt =====
-- The bounds on roots and on live units hold, and the loops that make room end with room made.
use wardex_sdk.Prelude.{
  ℕ, zero, suc, ◌<◌, ◌≤◌, true, false, ◌||◌, List, [], ◌∷◌, ◌++◌, includes, length, ltb, ◌≡◌, refl,
  ap, arith, holds_if, Bool-cases, inl, inr, ◌⊎◌,
}
use wardex_sdk.Assembly.Units.State.{Registry}
use wardex_sdk.Assembly.Units.Close.{evict_root_locked}
use wardex_sdk.Assembly.Units.Open.{evict_while_full, evict_while_rooted, has_none}
use wardex_sdk.Assembly.Units.Sound.{IsSound, Placed}
use wardex_sdk.Assembly.Units.Evicting.{IsGood, evict_root-IsDone, evict_while_full-IsDone}
use wardex_sdk.Assembly.Units.Fewer.{
  IsFewer, same-IsFewer, IsFewer-trans, evict_root-IsFewer, evict_root_roots,
}

nothing : (xs : List ℕ) → length xs ≤ 0 → xs ≡ []
nothing [] h = refl
nothing (x ∷ xs) h = absurd (omega arith)

-- A list is empty or has a first item.
list_cases : (xs : List ℕ) → (xs ≡ []) ⊎ ((x : ℕ) × (rest : List ℕ) × (xs ≡ x ∷ rest))
list_cases [] = inl refl
list_cases (x ∷ xs) = inr (x, xs, refl)

has_none_lem : (xs : List ℕ) → has_none xs ≡ true → xs ≡ []
has_none_lem [] h = refl
has_none_lem (x ∷ xs) h = absurd (cc)

module _ (n m task now : ℕ) where
  pub evict_while_full-IsFewer :
      (fuel : ℕ) (r : Registry) → IsFewer r (evict_while_full fuel task now r).0
  unfolding evict_while_full
  evict_while_full-IsFewer zero r = same-IsFewer r
  evict_while_full-IsFewer (suc fuel) r =
      let once = evict_root_locked task now r.roots r in
      holds_if (λ (a : Registry × List ℕ). IsFewer r a.0) _ (r, []) _ (λ _. same-IsFewer r)
        (λ _.
          IsFewer-trans r once.0 _ (evict_root-IsFewer n m task now r.roots r)
            (evict_while_full-IsFewer fuel once.0))

  pub evict_while_rooted-IsFewer :
      (fuel : ℕ) (r : Registry) → IsFewer r (evict_while_rooted fuel task now r).0
  unfolding evict_while_rooted
  evict_while_rooted-IsFewer zero r = same-IsFewer r
  evict_while_rooted-IsFewer (suc fuel) r =
      let once = evict_root_locked task now r.roots r in
      holds_if (λ (a : Registry × List ℕ). IsFewer r a.0) _ (r, []) _ (λ _. same-IsFewer r)
        (λ _.
          IsFewer-trans r once.0 _ (evict_root-IsFewer n m task now r.roots r)
            (evict_while_rooted-IsFewer fuel once.0))

  -- An eviction takes a step of the fuel that it needs.
  once_less :
      (fuel : ℕ) (pending : List ℕ) (r : Registry)
      → IsGood n m pending r
      → length r.roots ≤ suc fuel
      → length (evict_root_locked task now r.roots r).0.roots ≤ fuel
  once_less fuel pending r h enough = elim (list_cases r.roots) [
    | inl empty ↦
        let less = (evict_root-IsFewer n m task now r.roots r).roots in
        omega (arith, less, ap length empty)
    | inr (oldest, rest, e) ↦
        omega (arith, evict_root_roots n m task now pending oldest rest r e h, enough)
  ]

  -- There is room for a live unit afterwards, or no root is left.
  evict_while_full_room :
      (fuel : ℕ) (pending : List ℕ) (r : Registry)
      → IsGood n m pending r
      → length r.roots ≤ fuel
      → (length (evict_while_full fuel task now r).0.live_units
          < (evict_while_full fuel task now r).0.max_total_units)
        ⊎ ((evict_while_full fuel task now r).0.roots ≡ [])
  unfolding evict_while_full
  evict_while_full_room zero pending r h enough = inr (nothing r.roots enough)
  evict_while_full_room (suc fuel) pending r h enough =
      let once = evict_root_locked task now r.roots r in
      let done = evict_root-IsDone n m pending task now r.roots r refl h in
      holds_if
        (λ (a : Registry × List ℕ).
          (length a.0.live_units < a.0.max_total_units) ⊎ (a.0.roots ≡ []))
        (ltb (length r.live_units) r.max_total_units || has_none r.roots) (r, []) _
        (λ e. elim (Bool-cases (ltb (length r.live_units) r.max_total_units)) [
          | inl room ↦ inl (ground arith)
          | inr full ↦ inr (has_none_lem r.roots (ground arith))
        ])
        (λ _.
          evict_while_full_room fuel (pending ++ once.1) once.0 done.good
            (once_less fuel pending r h enough))

  -- There is room for a root afterwards.
  pub evict_while_rooted_room :
      (fuel : ℕ) (pending : List ℕ) (r : Registry)
      → IsGood n m pending r
      → 1 ≤ r.max_units
      → length r.roots ≤ fuel
      → length (evict_while_rooted fuel task now r).0.roots
        < (evict_while_rooted fuel task now r).0.max_units
  unfolding evict_while_rooted
  evict_while_rooted_room zero pending r h positive enough = omega (arith, positive, enough)
  evict_while_rooted_room (suc fuel) pending r h positive enough =
      let once = evict_root_locked task now r.roots r in
      let done = evict_root-IsDone n m pending task now r.roots r refl h in
      let same = (evict_root-IsFewer n m task now r.roots r).max_units in
      holds_if (λ (a : Registry × List ℕ). length a.0.roots < a.0.max_units)
        (ltb (length r.roots) r.max_units) (r, []) _ (λ e. ground arith)
        (λ _.
          evict_while_rooted_room fuel (pending ++ once.1) once.0 done.good (rw same positive)
            (once_less fuel pending r h enough))

  -- Where no root is left, no unit is live.
  no_live :
      (fuel u : ℕ) (r : Registry)
      → IsSound n [] r
      → r.roots ≡ []
      → u < n
      → u < fuel
      → (r.units u).live ≡ false
  unfolding Placed includes
  no_live zero u r h e lt far = absurd (omega arith)
  no_live (suc fuel) u r h e lt far = elim (Bool-cases (r.units u).live) [
    | inr dead ↦ dead
    | inl lives ↦ elim (h.placed u lt lives refl) [
      | inl root ↦ absurd (ground arith)
      | inr (p, named, living, held, safe) ↦
          let below = h.older u p lt named in
          absurd (
            ground
              (arith, no_live fuel p r h e (omega (arith, lt, below)) (omega (arith, far, below))))
    ]
  ]

  no_live_units : (r : Registry) → IsSound n [] r → r.roots ≡ [] → r.live_units ≡ []
  no_live_units r h e = elim (list_cases r.live_units) [
    | inl empty ↦ empty
    | inr (u, rest, some_left) ↦
        let first : includes u r.live_units ≡ true = unfold includes in ground arith in
        let near = h.known u first in
        absurd (ground (arith, h.listed u near, no_live (suc u) u r h e near (omega arith)))
  ]

  -- After the first loop there is room for one more live unit.
  pub full_room :
      (pending : List ℕ) (r : Registry)
      → IsGood n m pending r
      → 1 ≤ r.max_total_units
      → length (evict_while_full (length r.roots) task now r).0.live_units
        < (evict_while_full (length r.roots) task now r).0.max_total_units
  full_room pending r h positive =
      let s = (evict_while_full (length r.roots) task now r).0 in
      let done = evict_while_full-IsDone n m (length r.roots) task now pending r h in
      let same = (evict_while_full-IsFewer (length r.roots) r).max_total_units in
      elim (evict_while_full_room (length r.roots) pending r h (omega arith)) [
        | inl room ↦ room
        | inr empty ↦
            omega (arith, ap length (no_live_units s done.good.sound empty), positive, same)
      ]
