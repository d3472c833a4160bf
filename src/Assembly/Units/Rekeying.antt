-- ===== src/Assembly/Units/Rekeying.antt =====
-- The alias table of a unit takes a key, and may lose its oldest.
use mathlib.Core.Path.{subst}
use wardex_sdk.Prelude.{
  ℕ, ◌<◌, true, false, ◌||◌, Option, none, some, List, [], ◌∷◌, ◌++◌, nat_eq, ◌≡◌, refl, sym, ap,
  ◌∙◌, arith, if◌then◌else◌, holds_if, Bool-cases, inl, inr, ◌⊎◌, nat_eq_iff, ◌==◌,
}
use wardex_sdk.Prelude.Dicts.{get, drop_key, get-drop_key}
use wardex_sdk.Types.{SpanContext}
use wardex_sdk.Assembly.Units.State.{UnitKey, unit_key_Eq, WorkUnit, Forgotten, Registry, change}
use wardex_sdk.Assembly.Units.Forgotten.{is_owned_by, forget}
use wardex_sdk.Assembly.Units.Tables.{is_key_in, evict_oldest}
use wardex_sdk.Assembly.Units.Aliases.{add_alias_key, lose_alias, forget_link}
use wardex_sdk.Assembly.Units.Alike.{change_unit_alike}

-- A change of alias tables and of the index only.
pub record IsRebound (r s : Registry) : Type 0 where
  pub live : (v : ℕ) → (s.units v).live ≡ (r.units v).live
  pub parent : (v : ℕ) → (s.units v).parent ≡ (r.units v).parent
  pub children : (v : ℕ) → (s.units v).children ≡ (r.units v).children
  pub draft : (v : ℕ) → (s.units v).draft ≡ (r.units v).draft
  pub opened : (v : ℕ) → (s.units v).opened ≡ (r.units v).opened
  pub context : (v : ℕ) → (s.units v).context ≡ (r.units v).context
  pub roots : s.roots ≡ r.roots
  pub live_units : s.live_units ≡ r.live_units
  pub drafts : s.drafts ≡ r.drafts
  pub emitted : s.emitted ≡ r.emitted
  pub next_unit : s.next_unit ≡ r.next_unit
  pub next_draft : s.next_draft ≡ r.next_draft
  pub max_units : s.max_units ≡ r.max_units
  pub max_total_units : s.max_total_units ≡ r.max_total_units

pub IsRebound-trans : (r s t : Registry) → IsRebound r s → IsRebound s t → IsRebound r t
IsRebound-trans r s t a b = record {
  live = λ v. b.live v ∙ a.live v;
  parent = λ v. b.parent v ∙ a.parent v;
  children = λ v. b.children v ∙ a.children v;
  draft = λ v. b.draft v ∙ a.draft v;
  opened = λ v. b.opened v ∙ a.opened v;
  context = λ v. b.context v ∙ a.context v;
  roots = b.roots ∙ a.roots;
  live_units = b.live_units ∙ a.live_units;
  drafts = b.drafts ∙ a.drafts;
  emitted = b.emitted ∙ a.emitted;
  next_unit = b.next_unit ∙ a.next_unit;
  next_draft = b.next_draft ∙ a.next_draft;
  max_units = b.max_units ∙ a.max_units;
  max_total_units = b.max_total_units ∙ a.max_total_units;
}

pub indexed-IsRebound :
    (r : Registry) (index : List (UnitKey × ℕ)) (lost : Forgotten)
    (memory : List (UnitKey × SpanContext))
    → IsRebound r (record r { by_alias = index; forgotten = lost; link_memory = memory })
indexed-IsRebound r index lost memory = record {
  live = λ v. refl;
  parent = λ v. refl;
  children = λ v. refl;
  draft = λ v. refl;
  opened = λ v. refl;
  context = λ v. refl;
  roots = refl;
  live_units = refl;
  drafts = refl;
  emitted = refl;
  next_unit = refl;
  next_draft = refl;
  max_units = refl;
  max_total_units = refl;
}

-- The index names live units of the first `n`, each of which has the key.
unfoldable pub Aliased : ℕ → (ℕ → WorkUnit) → List (UnitKey × ℕ) → Type 0
Aliased n units index =
    (k : UnitKey) (u : ℕ)
    → get k index ≡ some u
    → (u < n) × ((units u).live ≡ true) × (is_key_in k (units u).alias_keys ≡ true)

key_last :
    (j k : UnitKey) (keys : List UnitKey)
    → is_key_in j (keys ++ (k ∷ [])) ≡ (is_key_in j keys || k == j)
unfolding is_key_in
key_last j k [] = ground arith
key_last j k (i ∷ keys) = ground (arith, key_last j k keys)

-- What an eviction from the table of aliases leaves.
key_stays :
    (bound : ℕ) (j : UnitKey) (keys : List UnitKey)
    → is_key_in j keys ≡ true
    → (is_key_in j (evict_oldest bound keys).1 ≡ true) ⊎ ((evict_oldest bound keys).0 ≡ some j)
unfolding is_key_in evict_oldest
key_stays bound j [] h = absurd (cc)
key_stays bound j (k ∷ keys) h = ground (arith, unit_key_Eq.same_iff k j)

module _ (u : ℕ) (r : Registry) where
  lose_alias-get :
      (lost : Option UnitKey) (j : UnitKey) (v : ℕ)
      → get j (lose_alias lost u r).by_alias ≡ some v
      → (get j r.by_alias ≡ some v) × (lost ≡ some j → nat_eq v u ≡ false)
  unfolding lose_alias is_owned_by
  lose_alias-get none j v h = (h, λ e. absurd (cc))
  lose_alias-get (some k) j v h =
      ground (arith, get-drop_key j k r.by_alias, unit_key_Eq.same_iff k j)

  lose_alias_units : (lost : Option UnitKey) → (lose_alias lost u r).units ≡ r.units
  unfolding lose_alias
  lose_alias_units none = refl
  lose_alias_units (some k) = holds_if (λ s. s.units ≡ r.units) _ _ r (λ _. refl) (λ _. refl)

  -- Only the index and the forgotten keys change.
  lose_alias-IsRebound : (lost : Option UnitKey) → IsRebound r (lose_alias lost u r)
  unfolding lose_alias
  lose_alias-IsRebound none = indexed-IsRebound r r.by_alias r.forgotten r.link_memory
  lose_alias-IsRebound (some k) =
      holds_if (IsRebound r) _ _ r
        (λ _.
          indexed-IsRebound r (drop_key k r.by_alias)
            (forget r.max_entries_per_unit k u r.forgotten) r.link_memory)
        (λ _. indexed-IsRebound r r.by_alias r.forgotten r.link_memory)

module _ (key : UnitKey) (u : ℕ) (r : Registry) where
  -- The unit's table with the new key, where it has room for it.
  rekeyed : Registry
  rekeyed =
      let table = evict_oldest r.max_entries_per_unit (r.units u).alias_keys in
      record r {
        units =
            change u
              (λ unit. record unit {
                alias_keys = table.1 ++ (key ∷ []);
                remembered = forget_link table.0 unit.remembered;
              })
              r.units;
      }

  rekeyed-IsRebound : IsRebound r rekeyed
  unfolding rekeyed
  rekeyed-IsRebound =
      let table = evict_oldest r.max_entries_per_unit (r.units u).alias_keys in
      let f : WorkUnit → WorkUnit = λ unit. record unit {
        alias_keys = table.1 ++ (key ∷ []);
        remembered = forget_link table.0 unit.remembered;
      } in
      record {
        live = change_unit_alike (λ unit. unit.live) f u r.units (λ unit. refl);
        parent = change_unit_alike (λ unit. unit.parent) f u r.units (λ unit. refl);
        children = change_unit_alike (λ unit. unit.children) f u r.units (λ unit. refl);
        draft = change_unit_alike (λ unit. unit.draft) f u r.units (λ unit. refl);
        opened = change_unit_alike (λ unit. unit.opened) f u r.units (λ unit. refl);
        context = change_unit_alike (λ unit. unit.context) f u r.units (λ unit. refl);
        roots = refl;
        live_units = refl;
        drafts = refl;
        emitted = refl;
        next_unit = refl;
        next_draft = refl;
        max_units = refl;
        max_total_units = refl;
      }

  rekeyed_keys :
      (v : ℕ)
      → (rekeyed.units v).alias_keys ≡ (
          if nat_eq v u
          then (evict_oldest r.max_entries_per_unit (r.units u).alias_keys).1 ++ (key ∷ [])
          else (r.units v).alias_keys)
  unfolding rekeyed change
  rekeyed_keys v = elim (Bool-cases (nat_eq v u)) [
    | inl same ↦ rw same refl
    | inr other ↦ rw other refl
  ]

  pub add_alias_key-IsRebound : IsRebound r (add_alias_key key u r)
  unfolding add_alias_key rekeyed
  add_alias_key-IsRebound =
      IsRebound-trans r rekeyed _ rekeyed-IsRebound (lose_alias-IsRebound u rekeyed _)

  add_alias_key_units : (add_alias_key key u r).units ≡ rekeyed.units
  unfolding add_alias_key rekeyed
  add_alias_key_units = lose_alias_units u rekeyed _

  rekeyed-Aliased :
      (n : ℕ)
      → Aliased n r.units r.by_alias
      → Aliased n rekeyed.units (add_alias_key key u r).by_alias
  unfolding Aliased add_alias_key rekeyed
  rekeyed-Aliased n h k v e =
      let bound = r.max_entries_per_unit in
      let keys = (r.units u).alias_keys in
      let table = evict_oldest bound keys in
      let old = lose_alias-get u rekeyed table.0 k v e in
      let was = h k v old.0 in
      (
        was.0,
        rekeyed-IsRebound.live v ∙ was.1,
        ap (is_key_in k) (rekeyed_keys v) ∙ elim (Bool-cases (nat_eq v u)) [
          | inr other ↦ rw other was.2
          | inl same ↦
              let here = (nat_eq_iff v u).0 same in
              let held = subst (λ w. is_key_in k (r.units w).alias_keys ≡ true) here was.2 in
              rw same (elim (key_stays bound k keys held) [
                | inl stays ↦ ground (arith, key_last k key table.1)
                | inr lost ↦ absurd (ground (arith, old.1 lost))
              ])
        ],
      )

  rekeyed_here : is_key_in key (rekeyed.units u).alias_keys ≡ true
  rekeyed_here =
      let table = evict_oldest r.max_entries_per_unit (r.units u).alias_keys in
      ap (is_key_in key) (rekeyed_keys u)
      ∙ rw ((nat_eq_iff u u).1 refl)
          (ground (arith, key_last key key table.1, (unit_key_Eq.same_iff key key).1 refl))

  pub added-Aliased :
      (n : ℕ)
      → Aliased n r.units r.by_alias
      → Aliased n (add_alias_key key u r).units (add_alias_key key u r).by_alias
        × (is_key_in key ((add_alias_key key u r).units u).alias_keys ≡ true)
  added-Aliased n h = (
    subst (λ units. Aliased n units (add_alias_key key u r).by_alias) (sym add_alias_key_units)
        (rekeyed-Aliased n h),
    ap (λ units. is_key_in key (units u).alias_keys) add_alias_key_units ∙ rekeyed_here,
  )
