-- ===== src/Assembly/Units/Binding.antt =====
-- A bound alias keeps the tree of units and its books, and the index right.
use mathlib.Core.Path.{subst}
use wardex_sdk.Prelude.{
  ℕ, ◌<◌, Bool, true, false, some, List, [], ◌∷◌, includes, ◌≡◌, sym, ap, ◌∙◌, if◌then◌else◌,
  if_true, if_false, holds_if, Bool-cases, inl, inr, ◌==◌,
}
use wardex_sdk.Prelude.Dicts.{put, drop_key, get-put}
use wardex_sdk.Assembly.Units.State.{UnitKey, unit_key_Eq, Registry}
use wardex_sdk.Assembly.Units.Forgotten.{rebound}
use wardex_sdk.Assembly.Units.Tables.{is_key_in}
use wardex_sdk.Assembly.Units.Aliases.{bind_alias_locked, add_alias_key, bind_each}
use wardex_sdk.Assembly.Units.Sound.{IsSound, Placed}
use wardex_sdk.Assembly.Units.Alike.{even-IsPaid}
use wardex_sdk.Assembly.Units.Paid.{IsPaid}
use wardex_sdk.Assembly.Units.Rekeying.{
  IsRebound, IsRebound-trans, indexed-IsRebound, Aliased, add_alias_key-IsRebound, added-Aliased,
}

-- What binding gives: the rest stands, and the index is right with the key in it.
bind_result :
    (n : ℕ) (key : UnitKey) (u : ℕ) (kept : Registry)
    → u < n
    → (kept.units u).live ≡ true
    → is_key_in key (kept.units u).alias_keys ≡ true
    → Aliased n kept.units kept.by_alias
    → Aliased n kept.units (put key u kept.by_alias)
unfolding Aliased
bind_result n key u kept lt lives here h k v e = elim (Bool-cases (key == k)) [
  | inl same ↦
      let told : some u ≡ some v = sym (get-put k key u kept.by_alias ∙ if_true _ _ _ same) ∙ e in
      let at : u ≡ v = cc in
      let found : key ≡ k = (unit_key_Eq.same_iff key k).0 same in
      subst
        (λ w.
          (w < n) × ((kept.units w).live ≡ true) × (is_key_in k (kept.units w).alias_keys ≡ true))
        at (lt, lives, subst (λ j. is_key_in j (kept.units u).alias_keys ≡ true) found here)
  | inr other ↦ h k v (sym (get-put k key u kept.by_alias ∙ if_false _ _ _ other) ∙ e)
]

module _ (n : ℕ) (key : UnitKey) (u : ℕ) (carries_loss : Bool) (r : Registry) where
  told : Registry
  told = record r { forgotten = rebound key u carries_loss r.forgotten }

  kept : Registry
  unfolding told
  kept = if is_key_in key (r.units u).alias_keys then told else add_alias_key key u told

  IsKept : Registry → Type 0
  IsKept s =
      IsRebound r s × Aliased n s.units s.by_alias × (is_key_in key (s.units u).alias_keys ≡ true)

  kept-IsKept : Aliased n r.units r.by_alias → IsKept kept
  unfolding kept told IsKept
  kept-IsKept h =
      let plain =
        indexed-IsRebound r r.by_alias (rebound key u carries_loss r.forgotten) r.link_memory in
      let added = added-Aliased key u told n h in
      holds_if IsKept (is_key_in key (r.units u).alias_keys) told (add_alias_key key u told)
        (λ there. (plain, h, there))
        (λ _. (
          IsRebound-trans r told (add_alias_key key u told) plain
              (add_alias_key-IsRebound key u told),
          added.0,
          added.1,
        ))

  pub bind_alias_locked-IsRebound :
      u < n
      → (r.units u).live ≡ true
      → Aliased n r.units r.by_alias
      → IsRebound r (bind_alias_locked key u carries_loss r)
        × Aliased n
            (bind_alias_locked key u carries_loss r).units
            (bind_alias_locked key u carries_loss r).by_alias
  unfolding bind_alias_locked kept told IsKept
  bind_alias_locked-IsRebound lt lives h =
      let k = kept-IsKept h in
      (
        IsRebound-trans r kept _ k.0 (
            indexed-IsRebound kept (put key u kept.by_alias) kept.forgotten
              (drop_key key kept.link_memory)),
        bind_result n key u kept lt (k.0.live u ∙ lives) k.2 k.1,
      )

pub bind_each-IsRebound :
    (n : ℕ) (keys : List UnitKey) (u : ℕ) (r : Registry)
    → u < n
    → (r.units u).live ≡ true
    → Aliased n r.units r.by_alias
    → IsRebound r (bind_each keys u r)
      × Aliased n (bind_each keys u r).units (bind_each keys u r).by_alias
unfolding bind_each
bind_each-IsRebound n [] u r lt lives h =
    (indexed-IsRebound r r.by_alias r.forgotten r.link_memory, h)
bind_each-IsRebound n (key ∷ keys) u r lt lives h =
    let one = bind_alias_locked-IsRebound n key u false r lt lives h in
    let next = bind_alias_locked key u false r in
    let rest = bind_each-IsRebound n keys u next lt (one.0.live u ∙ lives) one.1 in
    (IsRebound-trans r next (bind_each keys u next) one.0 rest.0, rest.1)

-- The tree and the books do not mind.
pub rebound-IsSound :
    (n : ℕ) (r s : Registry)
    → IsRebound r s
    → Aliased n s.units s.by_alias
    → IsSound n [] r
    → IsSound n [] s
unfolding Placed Aliased
rebound-IsSound n r s a index h = record {
  known = λ u held. h.known u (rw (← a.live_units) held);
  listed = λ u lt. rw (a.live_units, a.live u) (h.listed u lt);
  rooted = λ u held. let old = h.rooted u (rw (← a.roots) held) in (old.0, a.live u ∙ old.1);
  placed = λ u lt e spared. elim (h.placed u lt (sym (a.live u) ∙ e) spared) [
    | inl root ↦ inl (rw a.roots root)
    | inr (p, named, living, held, safe) ↦
        inr (p, a.parent u ∙ named, a.live p ∙ living, ap (includes u) (a.children p) ∙ held, safe)
  ];
  older = λ u p lt e. h.older u p lt (sym (a.parent u) ∙ e);
  child = λ p c lt held.
      let old = h.child p c lt (ap (includes c) (sym (a.children p)) ∙ held) in
      (old.0, a.parent c ∙ old.1, a.live c ∙ old.2);
  aliased = index;
}

pub rebound-IsPaid :
    (n m : ℕ) (pending : List ℕ) (r s : Registry)
    → IsRebound r s
    → IsPaid n m pending r
    → IsPaid n m pending s
rebound-IsPaid n m pending r s a = even-IsPaid n m pending r s (record {
  live = λ v lt. a.live v;
  draft = λ v lt. a.draft v;
  opened = λ v lt. a.opened v;
  flags = λ x lt. ap (λ store. (store x).emitted) a.drafts;
  emitted = a.emitted;
})
