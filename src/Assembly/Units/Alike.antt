-- ===== src/Assembly/Units/Alike.antt =====
-- Changes that leave the tree of units, or its books, as they are.
use wardex_sdk.Prelude.{
  ℕ, ◌<◌, List, [], nat_eq, includes, ◌≡◌, refl, sym, ap, ◌∙◌, arith, Bool-cases, inl, inr,
}
use wardex_sdk.Assembly.Integrity.{Limitation}
use wardex_sdk.Assembly.Units.State.{WorkUnit, Registry, change}
use wardex_sdk.Assembly.Units.Tables.{note, is_key_in}
use wardex_sdk.Assembly.Units.Sound.{IsSound, Placed}
use wardex_sdk.Assembly.Units.Grown.{is_open_in, note_on_flags}
use wardex_sdk.Assembly.Units.Paid.{IsPaid}

-- The first `n` units stand as they did.
pub record IsAlike (n : ℕ) (r s : Registry) : Type 0 where
  pub live : (v : ℕ) → v < n → (s.units v).live ≡ (r.units v).live
  pub parent : (v : ℕ) → v < n → (s.units v).parent ≡ (r.units v).parent
  pub children : (v : ℕ) → v < n → (s.units v).children ≡ (r.units v).children
  pub alias_keys : (v : ℕ) → v < n → (s.units v).alias_keys ≡ (r.units v).alias_keys
  pub roots : s.roots ≡ r.roots
  pub live_units : s.live_units ≡ r.live_units
  pub by_alias : s.by_alias ≡ r.by_alias

pub alike-IsSound : (n : ℕ) (r s : Registry) → IsAlike n r s → IsSound n [] r → IsSound n [] s
unfolding Placed
alike-IsSound n r s a h = record {
  known = λ u m. h.known u (rw (← a.live_units) m);
  listed = λ u lt. rw (a.live_units, a.live u lt) (h.listed u lt);
  rooted = λ u m. let old = h.rooted u (rw (← a.roots) m) in (old.0, a.live u old.0 ∙ old.1);
  placed = λ u lt e spared. elim (h.placed u lt (sym (a.live u lt) ∙ e) spared) [
    | inl root ↦ inl (rw a.roots root)
    | inr (p, named, living, held, safe) ↦
        let near : p < n = omega (arith, lt, h.older u p lt named) in
        inr (
          p,
          a.parent u lt ∙ named,
          a.live p near ∙ living,
          ap (includes u) (a.children p near) ∙ held,
          safe,
        )
  ];
  older = λ u p lt e. h.older u p lt (sym (a.parent u lt) ∙ e);
  child = λ p c lt m.
      let old = h.child p c lt (ap (includes c) (sym (a.children p lt)) ∙ m) in
      (old.0, a.parent c old.0 ∙ old.1, a.live c old.0 ∙ old.2);
  aliased = λ k u e.
      let old = h.aliased k u (rw (← a.by_alias) e) in
      (old.0, a.live u old.0 ∙ old.1, ap (is_key_in k) (a.alias_keys u old.0) ∙ old.2);
}

-- The first `n` units owe what they did, and of the first `m` drafts as many are emitted.
pub record IsEven (n m : ℕ) (r s : Registry) : Type 0 where
  pub live : (v : ℕ) → v < n → (s.units v).live ≡ (r.units v).live
  pub draft : (v : ℕ) → v < n → (s.units v).draft ≡ (r.units v).draft
  pub opened : (v : ℕ) → v < n → (s.units v).opened ≡ (r.units v).opened
  pub flags : (x : ℕ) → x < m → (s.drafts x).emitted ≡ (r.drafts x).emitted
  pub emitted : s.emitted ≡ r.emitted

pub even-IsPaid :
    (n m : ℕ) (pending : List ℕ) (r s : Registry)
    → IsEven n m r s
    → IsPaid n m pending r
    → IsPaid n m pending s
even-IsPaid n m pending r s a h = record {
  drawn = λ u lt. rw (a.draft u lt) (h.drawn u lt);
  apart = λ u v lt mt e. h.apart u v lt mt (sym (a.draft u lt) ∙ e ∙ a.draft v mt);
  unopened = λ u v x lt mt held.
      rw (a.draft v mt) (h.unopened u v x lt mt (ap (is_open_in x) (sym (a.opened u lt)) ∙ held));
  unpaid = λ u lt e.
      let old = h.unpaid u lt (sym (a.live u lt) ∙ e) in
      rw (a.draft u lt) (a.flags (r.units u).draft (h.drawn u lt) ∙ old.0, old.1);
  paid = λ u lt e. rw (a.draft u lt) (elim (h.paid u lt (sym (a.live u lt) ∙ e)) [
    | inl flagged ↦ inl (a.flags (r.units u).draft (h.drawn u lt) ∙ flagged)
    | inr waiting ↦ inr waiting
  ]);
  told = λ x lt. rw a.emitted (h.told x lt ∙ sym (a.flags x lt));
  emitted_known = λ x held. h.emitted_known x (rw (← a.emitted) held);
  pending_known = h.pending_known;
  once = rw a.emitted h.once;
}

-- A change of one unit that keeps what the tree stands on.
pub change_unit_alike :
    {A : Type 0} (field : WorkUnit → A) (f : WorkUnit → WorkUnit) (u : ℕ) (store : ℕ → WorkUnit)
    → ((unit : WorkUnit) → field (f unit) ≡ field unit)
    → (v : ℕ) → field (change u f store v) ≡ field (store v)
unfolding change
change_unit_alike field f u store kept v = elim (Bool-cases (nat_eq v u)) [
  | inl same ↦ rw same (kept (store v))
  | inr other ↦ rw other refl
]

module _ (n m u : ℕ) (marker : Limitation) (r : Registry) where
  pub note-IsAlike : IsAlike n r (note marker u r)
  unfolding note
  note-IsAlike = record {
    live = λ v lt. refl;
    parent = λ v lt. refl;
    children = λ v lt. refl;
    alias_keys = λ v lt. refl;
    roots = refl;
    live_units = refl;
    by_alias = refl;
  }

  pub note-IsEven : IsEven n m r (note marker u r)
  unfolding note
  note-IsEven = record {
    live = λ v lt. refl;
    draft = λ v lt. refl;
    opened = λ v lt. refl;
    flags = λ x lt. note_on_flags marker u r.units r.drafts x;
    emitted = refl;
  }

-- A change of one unit that keeps each of these fields.
pub record Keeps (f : WorkUnit → WorkUnit) : Type 0 where
  pub live : (unit : WorkUnit) → (f unit).live ≡ unit.live
  pub parent : (unit : WorkUnit) → (f unit).parent ≡ unit.parent
  pub children : (unit : WorkUnit) → (f unit).children ≡ unit.children
  pub alias_keys : (unit : WorkUnit) → (f unit).alias_keys ≡ unit.alias_keys
  pub draft : (unit : WorkUnit) → (f unit).draft ≡ unit.draft
  pub opened : (unit : WorkUnit) → (f unit).opened ≡ unit.opened

module _ (n m u : ℕ) (f : WorkUnit → WorkUnit) (kept : Keeps f) (r : Registry) where
  pub kept-IsAlike : IsAlike n r (record r { units = change u f r.units })
  kept-IsAlike = record {
    live = λ v lt. change_unit_alike (λ unit. unit.live) f u r.units kept.live v;
    parent = λ v lt. change_unit_alike (λ unit. unit.parent) f u r.units kept.parent v;
    children = λ v lt. change_unit_alike (λ unit. unit.children) f u r.units kept.children v;
    alias_keys = λ v lt. change_unit_alike (λ unit. unit.alias_keys) f u r.units kept.alias_keys v;
    roots = refl;
    live_units = refl;
    by_alias = refl;
  }

  pub kept-IsEven : IsEven n m r (record r { units = change u f r.units })
  kept-IsEven = record {
    live = λ v lt. change_unit_alike (λ unit. unit.live) f u r.units kept.live v;
    draft = λ v lt. change_unit_alike (λ unit. unit.draft) f u r.units kept.draft v;
    opened = λ v lt. change_unit_alike (λ unit. unit.opened) f u r.units kept.opened v;
    flags = λ x lt. refl;
    emitted = refl;
  }
