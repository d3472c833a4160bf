-- ===== src/Assembly/Units/Outcomes.antt =====
-- What a registry promises after any calls.
use mathlib.Core.Path.{subst}
use wardex_sdk.Prelude.{
  ℕ, zero, suc, ◌+◌, ◌*◌, ◌<◌, ◌≤◌, true, false, none, some, List, [], ◌∷◌, nat_eq, includes, ◌≡◌,
  refl, ap, ◌∙◌, arith, if◌then◌else◌, if_true, Bool-cases, Option-cases, inl, inr, ◌⊎◌, nat_eq_iff,
}
use wardex_sdk.Prelude.Dicts.{get}
use wardex_sdk.Assembly.Builder.Draft.{SpanDraft}
use wardex_sdk.Assembly.Units.State.{UnitKey, unit_key_Eq, WorkUnit, Registry}
use wardex_sdk.Assembly.Units.Tables.{is_key_in}
use wardex_sdk.Assembly.Units.Aliases.{find, resolve_link_target, link_from}
use wardex_sdk.Assembly.Units.Sound.{Placed}
use wardex_sdk.Assembly.Units.Paid.{IsOnce}
use wardex_sdk.Assembly.Units.Entered.{IsWell}
use wardex_sdk.Assembly.Units.Acts.{find_lem}
use wardex_sdk.Assembly.Units.Life.{Call, IsRun, run, run-IsWell, new_registry, new-IsWell}
use wardex_sdk.Assembly.Units.Rooms.{IsBounded, run-IsBounded}

-- How often a number stands in a list.
unfoldable pub count : ℕ → List ℕ → ℕ
count x [] = 0
count x (y ∷ ys) = (if nat_eq y x then 1 else 0) + count x ys

count_absent : (x : ℕ) (xs : List ℕ) → includes x xs ≡ false → count x xs ≡ 0
unfolding count includes
count_absent x [] e = refl
count_absent x (y ∷ xs) e = ground (arith, count_absent x xs)

count_once : (x : ℕ) (xs : List ℕ) → IsOnce xs → includes x xs ≡ true → count x xs ≡ 1
unfolding count includes IsOnce
count_once x [] h e = absurd (cc)
count_once x (y ∷ xs) h e = elim (Bool-cases (nat_eq y x)) [
  | inl same ↦
      let here = (nat_eq_iff y x).0 same in
      let gone = count_absent x xs (subst (λ z. includes z xs ≡ false) here h.0) in ground arith
  | inr other ↦ ground (arith, count_once x xs h.1)
]

product_positive : (a b : ℕ) → 1 ≤ a → 1 ≤ b → 1 ≤ a * b
product_positive zero b p q = absurd (omega arith)
product_positive (suc a) b p q = grind arith

-- The way up from a unit through live parents ends at a root.
unfoldable pub IsRooted : ℕ → Registry → ℕ → Type 0
IsRooted zero r u = (includes u r.roots ≡ true) × ((r.units u).live ≡ true)
IsRooted (suc fuel) r u =
    ((r.units u).live ≡ true)
    × ((includes u r.roots ≡ true)
        ⊎ ((p : ℕ) × ((r.units u).parent ≡ some p)
            × (p < u)
            × (includes u (r.units p).children ≡ true)
            × IsRooted fuel r p))

climb-IsRooted :
    (fuel u : ℕ) (r : Registry)
    → IsWell r
    → u < r.next_unit
    → u < fuel
    → (r.units u).live ≡ true
    → IsRooted fuel r u
unfolding IsRooted Placed includes
climb-IsRooted zero u r h lt far e = absurd (omega arith)
climb-IsRooted (suc fuel) u r h lt far e = elim (h.sound.placed u lt e refl) [
  | inl root ↦ (e, inl root)
  | inr (p, named, living, held, safe) ↦
      let below = h.sound.older u p lt named in
      (
        e,
        inr (
          p,
          named,
          below,
          held,
          climb-IsRooted fuel p r h (omega (arith, lt, below)) (omega (arith, far, below)) living,
        ),
      )
]

module _ (units entries links bytes : ℕ) (unit_store : ℕ → WorkUnit) (draft_store : ℕ → SpanDraft)
    (calls : List Call) where
  -- A registry after the calls.
  unfoldable pub life : Registry
  unfolding run new_registry
  life = run calls (new_registry units entries links bytes unit_store draft_store)

  life-IsWell :
      IsRun calls (new_registry units entries links bytes unit_store draft_store) → IsWell life
  unfolding life
  life-IsWell k =
      run-IsWell calls (new_registry units entries links bytes unit_store draft_store) k
        (new-IsWell units entries links bytes unit_store draft_store)

  -- After any calls that name units of the registry, whatever was closed, evicted or closed with its
  -- parent on the way, the span of each unit was given to the sink once if the unit is closed, and
  -- not at all while it is live.
  pub count-life :
      (u : ℕ)
      → IsRun calls (new_registry units entries links bytes unit_store draft_store)
      → u < life.next_unit
      → count (life.units u).draft life.emitted ≡ (if (life.units u).live then 0 else 1)
  count-life u k lt =
      let h = (life-IsWell k).paid in
      let x = (life.units u).draft in
      let told = h.told x (h.drawn u lt) in
      elim (Bool-cases (life.units u).live) [
        | inl lives ↦ rw lives (count_absent x life.emitted (told ∙ (h.unpaid u lt lives).0))
        | inr dead ↦ elim (h.paid u lt dead) [
          | inl flagged ↦ rw dead (count_once x life.emitted h.once (told ∙ flagged))
          | inr waiting ↦ absurd (unfold includes in cc)
        ]
      ]

  -- After any calls, a live unit stands under a root: each parent on the way up is live, older, and
  -- has the unit below it among its children.
  pub life-IsRooted :
      (u : ℕ)
      → IsRun calls (new_registry units entries links bytes unit_store draft_store)
      → u < life.next_unit
      → (life.units u).live ≡ true
      → IsRooted (suc u) life u
  life-IsRooted u k lt lives = climb-IsRooted (suc u) u life (life-IsWell k) lt (omega arith) lives

  -- After any calls, an alias finds nothing, or a live unit that has it, to whose span it also
  -- links; a lookup never meets a unit that is closed, and changes nothing.
  pub find-life :
      (key : UnitKey)
      → IsRun calls (new_registry units entries links bytes unit_store draft_store)
      → (find key life ≡ (life, none))
        ⊎ ((u : ℕ) × (find key life ≡ (life, some u))
            × (u < life.next_unit)
            × ((life.units u).live ≡ true)
            × (is_key_in key (life.units u).alias_keys ≡ true)
            × (resolve_link_target key life ≡ some (life.units u).context))
  unfolding resolve_link_target link_from
  find-life key k =
      let h = life-IsWell k in
      let told = find_lem key life h in
      elim (Option-cases (get key life.by_alias)) [
        | inl absent ↦ inl (told ∙ ap (λ o. (life, o)) absent)
        | inr (u, found) ↦
            let q = h.sound.aliased key u found in
            inr (
              u,
              told ∙ ap (λ o. (life, o)) found,
              q.0,
              q.1,
              q.2,
              ap (λ o. link_from o key life) found ∙ if_true _ _ _ q.1,
            )
      ]

  -- Where both limits are positive, no calls leave more roots than `units`, or more live units in all
  -- than `units * entries`, the bounds that the registry was made with.
  pub life-IsBounded :
      1 ≤ units
      → 1 ≤ entries
      → IsRun calls (new_registry units entries links bytes unit_store draft_store)
      → IsBounded units (units * entries) life
  unfolding life
  life-IsBounded some_units some_entries k =
      run-IsBounded units (units * entries) some_units
        (product_positive units entries some_units some_entries) calls
        (new_registry units entries links bytes unit_store draft_store) k
        (new-IsWell units entries links bytes unit_store draft_store)
        (unfold IsBounded new_registry in (refl, refl, omega arith, omega arith))
