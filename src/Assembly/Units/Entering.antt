-- ===== src/Assembly/Units/Entering.antt =====
-- A new unit enters the tree, as a root or as a child of a live unit.
use mathlib.Core.Path.{subst}
use wardex_sdk.Prelude.{
  ℕ, suc, ◌<◌, true, false, ◌||◌, some, List, [], ◌∷◌, ◌++◌, nat_eq, includes, includes-append, ◌≡◌,
  refl, sym, ap, ◌∙◌, arith, Bool-cases, inl, inr, ◌⊎◌,
}
use wardex_sdk.Assembly.Units.State.{WorkUnit, Registry, change}
use wardex_sdk.Assembly.Units.Tables.{is_key_in}
use wardex_sdk.Assembly.Units.Sound.{IsSound, Placed}
use wardex_sdk.Assembly.Units.Evicting.{IsAfter}

-- The unit at place `n`, with its draft at place `m`, as it was made.
pub record IsNewcomer (n m : ℕ) (r : Registry) : Type 0 where
  pub live : (r.units n).live ≡ true
  pub older : (p : ℕ) → (r.units n).parent ≡ some p → p < n
  pub children : (r.units n).children ≡ []
  pub alias_keys : (r.units n).alias_keys ≡ []
  pub opened : (r.units n).opened ≡ []
  pub draft : (r.units n).draft ≡ m
  pub flag : (r.drafts m).emitted ≡ false

pub after-IsNewcomer :
    (n m : ℕ) (r s : Registry) → IsAfter n r s → IsNewcomer n m r → IsNewcomer n m s
after-IsNewcomer n m r s a h =
    let same = a.beyond n (omega arith) in
    record {
      live = ap (λ unit. unit.live) same ∙ h.live;
      older = λ p e. h.older p (sym (ap (λ unit. unit.parent) same) ∙ e);
      children = ap (λ unit. unit.children) same ∙ h.children;
      alias_keys = ap (λ unit. unit.alias_keys) same ∙ h.alias_keys;
      opened = ap (λ unit. unit.opened) same ∙ h.opened;
      draft = ap (λ unit. unit.draft) same ∙ h.draft;
      flag = a.flags m ∙ h.flag;
    }

-- One more place than before is an old place or the new one.
pub old_or_new : (u n : ℕ) → u < suc n → (u < n) ⊎ (n ≡ u)
old_or_new u n h = ground arith

unfoldable pub as_root : ℕ → Registry → Registry
as_root n r = record r { roots = r.roots ++ (n ∷ []); live_units = r.live_units ++ (n ∷ []) }

unfoldable pub as_child : ℕ → ℕ → Registry → Registry
as_child p n r = record r {
  units = change p (λ unit. record unit { children = unit.children ++ (n ∷ []) }) r.units;
  live_units = r.live_units ++ (n ∷ []);
}

module _ (n : ℕ) (ns : List ℕ) (u : ℕ) where
  last_includes : includes u (ns ++ (n ∷ [])) ≡ (includes u ns || nat_eq n u)
  unfolding includes
  last_includes = ground (arith, includes-append u ns (n ∷ []))

module _ (n m : ℕ) (r : Registry) (h : IsSound n [] r) (new : IsNewcomer n m r) where
  absent : includes n r.live_units ≡ false
  absent = ground (arith, h.known n)

  entered_known : (u : ℕ) → includes u (r.live_units ++ (n ∷ [])) ≡ true → u < suc n
  entered_known u e = ground (arith, last_includes n r.live_units u, h.known u)

  root_listed : (u : ℕ) → u < suc n → includes u (r.live_units ++ (n ∷ [])) ≡ (r.units u).live
  root_listed u lt = elim (old_or_new u n lt) [
    | inl old ↦ ground (arith, last_includes n r.live_units u, h.listed u old)
    | inr same ↦
        subst (λ v. includes v (r.live_units ++ (n ∷ [])) ≡ (r.units v).live) same
          (ground (arith, last_includes n r.live_units n, new.live))
  ]

  entered_older : (u p : ℕ) → u < suc n → (r.units u).parent ≡ some p → p < u
  entered_older u p lt = elim (old_or_new u n lt) [
    | inl old ↦ h.older u p old
    | inr same ↦ subst (λ v. (r.units v).parent ≡ some p → p < v) same (new.older p)
  ]

  no_children : (c : ℕ) → includes c (r.units n).children ≡ false
  unfolding includes
  no_children c = ap (includes c) new.children

  root_child :
      (p c : ℕ)
      → p < suc n
      → includes c (r.units p).children ≡ true
      → (c < suc n) × ((r.units c).parent ≡ some p) × ((r.units c).live ≡ true)
  root_child p c lt e = elim (old_or_new p n lt) [
    | inl old ↦ let q = h.child p c old e in (omega (arith, q.0), q.1, q.2)
    | inr same ↦ absurd (
        ground
          (arith, no_children c, subst (λ v. includes c (r.units v).children ≡ true) (sym same) e))
  ]

  pub as_root-IsSound : IsSound (suc n) [] (as_root n r)
  unfolding as_root Placed
  as_root-IsSound = record {
    known = entered_known;
    listed = root_listed;
    rooted = λ u e. elim (Bool-cases (includes u r.roots)) [
      | inl before ↦ let q = h.rooted u before in (omega (arith, q.0), q.1)
      | inr after ↦
          let here : n ≡ u = ground (arith, last_includes n r.roots u) in
          subst (λ v. (v < suc n) × ((r.units v).live ≡ true)) here (omega arith, new.live)
    ];
    placed = λ u lt e spared. elim (old_or_new u n lt) [
      | inl old ↦ elim (h.placed u old e spared) [
        | inl root ↦ inl (ground (arith, last_includes n r.roots u))
        | inr below ↦ inr below
      ]
      | inr same ↦ inl (ground (arith, last_includes n r.roots u))
    ];
    older = entered_older;
    child = root_child;
    aliased = λ k u e. let q = h.aliased k u e in (omega (arith, q.0), q.1, q.2);
  }

  module _ (p : ℕ) (near : p < n) (lives : (r.units p).live ≡ true)
      (named : (r.units n).parent ≡ some p) where
    joined : ℕ → WorkUnit
    joined = change p (λ unit. record unit { children = unit.children ++ (n ∷ []) }) r.units

    joined_rest :
        (v : ℕ)
        → ((joined v).live ≡ (r.units v).live)
          × ((joined v).parent ≡ (r.units v).parent)
          × ((joined v).alias_keys ≡ (r.units v).alias_keys)
    unfolding joined change
    joined_rest v = ground arith

    joined_children :
        (v c : ℕ)
        → includes c (joined v).children ≡ true
        → (includes c (r.units v).children ≡ true) ⊎ ((p ≡ v) × (n ≡ c))
    unfolding joined change
    joined_children v c e = ground (arith, last_includes n (r.units v).children c)

    joined_kept :
        (v c : ℕ) → includes c (r.units v).children ≡ true → includes c (joined v).children ≡ true
    unfolding joined change
    joined_kept v c e = ground (arith, last_includes n (r.units v).children c)

    joined_new : includes n (joined p).children ≡ true
    unfolding joined change
    joined_new = ground (arith, last_includes n (r.units p).children n)

    child_child :
        (q c : ℕ)
        → q < suc n
        → includes c (joined q).children ≡ true
        → (c < suc n) × ((joined c).parent ≡ some q) × ((joined c).live ≡ true)
    child_child q c lt e =
        let same = joined_rest c in
        elim (joined_children q c e) [
          | inl old ↦ let was = root_child q c lt old in (was.0, same.1 ∙ was.1, same.0 ∙ was.2)
          | inr (at, new_one) ↦ (
            ground arith,
            same.1 ∙ subst (λ v. (r.units v).parent ≡ some q) new_one (named ∙ ap some at),
            same.0 ∙ subst (λ v. (r.units v).live ≡ true) new_one new.live,
          )
        ]

    child-Placed :
        (u : ℕ)
        → u < suc n
        → (joined u).live ≡ true
        → includes u [] ≡ false
        → Placed [] (as_child p n r) u
    unfolding Placed as_child joined
    child-Placed u lt e spared = elim (old_or_new u n lt) [
      | inl old ↦ elim (h.placed u old (sym (joined_rest u).0 ∙ e) spared) [
        | inl root ↦ inl root
        | inr (q, parent, living, held, safe) ↦
            inr (
              q,
              (joined_rest u).1 ∙ parent,
              (joined_rest q).0 ∙ living,
              joined_kept q u held,
              safe,
            )
      ]
      | inr same ↦ inr (
        p,
        (joined_rest u).1 ∙ subst (λ v. (r.units v).parent ≡ some p) same named,
        (joined_rest p).0 ∙ lives,
        subst (λ v. includes v (joined p).children ≡ true) same joined_new,
        unfold includes in refl,
      )
    ]

    pub as_child-IsSound : IsSound (suc n) [] (as_child p n r)
    unfolding as_child joined
    as_child-IsSound = record {
      known = entered_known;
      listed = λ u lt. root_listed u lt ∙ sym (joined_rest u).0;
      rooted = λ u e. let q = h.rooted u e in (omega (arith, q.0), (joined_rest u).0 ∙ q.1);
      placed = child-Placed;
      older = λ u q lt e. entered_older u q lt (sym (joined_rest u).1 ∙ e);
      child = child_child;
      aliased = λ k u e.
          let q = h.aliased k u e in
          (omega (arith, q.0), (joined_rest u).0 ∙ q.1, ap (is_key_in k) (joined_rest u).2 ∙ q.2);
    }
