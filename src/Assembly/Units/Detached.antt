-- ===== src/Assembly/Units/Detached.antt =====
-- What the detachment of one unit makes of every unit and of the tables.
use wardex_sdk.Prelude.{
  ℕ, true, false, not, ◌&&◌, Option, none, some, List, [], ◌∷◌, nat_eq, includes, includes-remove,
  ◌≡◌, refl, ap, ◌∙◌, arith, if_false, ◌==◌,
}
use wardex_sdk.Prelude.Dicts.{get, get-drop_key}
use wardex_sdk.Assembly.Units.State.{UnitKey, unit_key_Eq, WorkUnit, Registry, change}
use wardex_sdk.Assembly.Units.Forgotten.{disown, disown_each, is_owned_by}
use wardex_sdk.Assembly.Units.Tables.{is_key_in}
use wardex_sdk.Assembly.Units.Close.{leave_parent, detach_locked}

-- What a parent loses with a child is only its place in the table of children.
module _ (u : ℕ) (units : ℕ → WorkUnit) (v : ℕ) where
  leave_parent_rest :
      (parent : Option ℕ)
      → ((leave_parent parent u units v).live ≡ (units v).live)
        × ((leave_parent parent u units v).parent ≡ (units v).parent)
        × ((leave_parent parent u units v).draft ≡ (units v).draft)
        × ((leave_parent parent u units v).alias_keys ≡ (units v).alias_keys)
        × ((leave_parent parent u units v).opened ≡ (units v).opened)
        × ((leave_parent parent u units v).context ≡ (units v).context)
  unfolding leave_parent change
  leave_parent_rest none = (refl, refl, refl, refl, refl, refl)
  leave_parent_rest (some p) = ground arith

  leave_parent_children :
      (parent : Option ℕ) (c : ℕ)
      → includes c (leave_parent parent u units v).children ≡ true
      → (includes c (units v).children ≡ true) × ((parent ≡ some v) → nat_eq c u ≡ false)
  unfolding leave_parent change
  leave_parent_children none c h = (h, λ e. cc)
  leave_parent_children (some p) c h = ground (arith, includes-remove c u (units v).children)

  leave_parent_elsewhere :
      (parent : Option ℕ)
      → ((p : ℕ) → parent ≡ some p → nat_eq v p ≡ false)
      → leave_parent parent u units v ≡ units v
  unfolding leave_parent change
  leave_parent_elsewhere none h = refl
  leave_parent_elsewhere (some p) h = if_false (nat_eq v p) _ _ (h p refl)

  leave_parent_others :
      (parent : Option ℕ) (c : ℕ)
      → nat_eq c u ≡ false
      → includes c (units v).children ≡ true
      → includes c (leave_parent parent u units v).children ≡ true
  unfolding leave_parent change
  leave_parent_others none c h e = e
  leave_parent_others (some p) c h e = ground (arith, includes-remove c u (units v).children)

module _ (u : ℕ) (j : UnitKey) (w : ℕ) where
  disown-get :
      (k : UnitKey) (d : List (UnitKey × ℕ))
      → get j (disown k u d) ≡ some w
      → (get j d ≡ some w) × ((k == j) ≡ true → nat_eq w u ≡ false)
  unfolding disown is_owned_by
  disown-get k d h = ground (arith, get-drop_key j k d, unit_key_Eq.same_iff k j)

  disown_each-get :
      (ks : List UnitKey) (d : List (UnitKey × ℕ))
      → get j (disown_each ks u d) ≡ some w
      → (get j d ≡ some w) × (is_key_in j ks ≡ true → nat_eq w u ≡ false)
  unfolding disown_each is_key_in
  disown_each-get [] d h = (h, λ e. cc)
  disown_each-get (k ∷ ks) d h =
      let rest = disown_each-get ks (disown k u d) h in
      let one = disown-get k d rest.0 in (one.0, λ e. ground arith)

pub record IsDetached (u : ℕ) (r s : Registry) : Type 0 where
  pub live : (v : ℕ) → (s.units v).live ≡ ((r.units v).live && not (nat_eq v u))
  pub parent : (v : ℕ) → (s.units v).parent ≡ (r.units v).parent
  pub draft : (v : ℕ) → (s.units v).draft ≡ (r.units v).draft
  pub context : (v : ℕ) → (s.units v).context ≡ (r.units v).context
  pub alias_keys : (v : ℕ) → nat_eq v u ≡ false → (s.units v).alias_keys ≡ (r.units v).alias_keys
  pub opened : (v : ℕ) → nat_eq v u ≡ false → (s.units v).opened ≡ (r.units v).opened
  pub elsewhere :
      (v : ℕ)
      → nat_eq v u ≡ false
      → ((p : ℕ) → (r.units u).parent ≡ some p → nat_eq v p ≡ false)
      → s.units v ≡ r.units v
  pub opened_here : (s.units u).opened ≡ []
  pub roots : (v : ℕ) → includes v s.roots ≡ (includes v r.roots && not (nat_eq u v))
  pub live_units : (v : ℕ) → includes v s.live_units ≡ (includes v r.live_units && not (nat_eq u v))
  pub children_old :
      (v c : ℕ)
      → includes c (s.units v).children ≡ true
      → (includes c (r.units v).children ≡ true)
        × (nat_eq v u ≡ false)
        × (((r.units u).parent ≡ some v) → nat_eq c u ≡ false)
  pub children_kept :
      (v c : ℕ)
      → nat_eq v u ≡ false
      → nat_eq c u ≡ false
      → includes c (r.units v).children ≡ true
      → includes c (s.units v).children ≡ true
  pub index :
      (k : UnitKey) (w : ℕ)
      → get k s.by_alias ≡ some w
      → (get k r.by_alias ≡ some w)
        × (is_key_in k (r.units u).alias_keys ≡ true → nat_eq w u ≡ false)

module _ (task u : ℕ) (r : Registry) where
  emptied : ℕ → WorkUnit
  unfolding change
  emptied =
      change u
        (λ old. record old {
          live = false;
          children = [];
          opened = [];
          remembered = [];
          alias_keys = [];
        })
        r.units

  emptied_rest :
      (v : ℕ)
      → ((emptied v).live ≡ ((r.units v).live && not (nat_eq v u)))
        × ((emptied v).parent ≡ (r.units v).parent)
        × ((emptied v).draft ≡ (r.units v).draft)
        × ((emptied v).context ≡ (r.units v).context)
  unfolding emptied change
  emptied_rest v = ground arith

  emptied_tables :
      (v : ℕ)
      → nat_eq v u ≡ false
      → ((emptied v).alias_keys ≡ (r.units v).alias_keys)
        × ((emptied v).opened ≡ (r.units v).opened)
        × ((emptied v).children ≡ (r.units v).children)
  unfolding emptied change
  emptied_tables v e = ground arith

  emptied_here : (emptied u).opened ≡ []
  unfolding emptied change
  emptied_here = ground arith

  emptied_children :
      (v c : ℕ)
      → includes c (emptied v).children ≡ true
      → (includes c (r.units v).children ≡ true) × (nat_eq v u ≡ false)
  unfolding emptied change includes
  emptied_children v c h = ground arith

  pub detach_locked-IsDetached : IsDetached u r (detach_locked task u r)
  unfolding detach_locked emptied
  detach_locked-IsDetached = record {
    live = λ v. (leave_parent_rest u emptied v (r.units u).parent).0 ∙ (emptied_rest v).0;
    parent = λ v. (leave_parent_rest u emptied v (r.units u).parent).1 ∙ (emptied_rest v).1;
    draft = λ v. (leave_parent_rest u emptied v (r.units u).parent).2 ∙ (emptied_rest v).2;
    context = λ v. (leave_parent_rest u emptied v (r.units u).parent).5 ∙ (emptied_rest v).3;
    alias_keys =
        λ v e. (leave_parent_rest u emptied v (r.units u).parent).3 ∙ (emptied_tables v e).0;
    opened = λ v e. (leave_parent_rest u emptied v (r.units u).parent).4 ∙ (emptied_tables v e).1;
    elsewhere = λ v e f.
        leave_parent_elsewhere u emptied v (r.units u).parent f
        ∙ unfold change in if_false (nat_eq v u) _ _ e;
    opened_here = (leave_parent_rest u emptied u (r.units u).parent).4 ∙ emptied_here;
    roots = λ v. includes-remove v u r.roots;
    live_units = λ v. includes-remove v u r.live_units;
    children_old = λ v c h.
        let left = leave_parent_children u emptied v (r.units u).parent c h in
        let old = emptied_children v c left.0 in (old.0, old.1, left.1);
    children_kept = λ v c e f h.
        leave_parent_others u emptied v (r.units u).parent c f
          (ap (includes c) (emptied_tables v e).2 ∙ h);
    index = λ k w h. disown_each-get u k w (r.units u).alias_keys r.by_alias h;
  }
