-- ===== src/Assembly/Units/Attaching.antt =====
-- A unit is attached under a live parent, whose table may lose its oldest child, or as a root.
use mathlib.Core.Path.{subst}
use wardex_sdk.Prelude.{
  ℕ, ◌<◌, ◌≤◌, true, false, none, some, List, [], ◌∷◌, ◌++◌, nat_eq, includes, ◌≡◌, refl, sym, ap,
  ◌∙◌, arith, if_false, Bool-cases, inl, inr, nat_eq_iff,
}
use wardex_sdk.Assembly.Integrity.{unit_table_full}
use wardex_sdk.Assembly.Units.State.{Registry, change}
use wardex_sdk.Assembly.Units.Tables.{is_key_in, note}
use wardex_sdk.Assembly.Units.Close.{unset_at, close_locked, mark_evicted}
use wardex_sdk.Assembly.Units.Open.{attach_child, join_parent, close_evicted_child}
use wardex_sdk.Assembly.Units.Sound.{IsSound, Placed}
use wardex_sdk.Assembly.Units.Grown.{note_on_flags}
use wardex_sdk.Assembly.Units.Gone.{IsLoose, close_locked-IsClosed}
use wardex_sdk.Assembly.Units.Paid.{IsPaid}
use wardex_sdk.Assembly.Units.Alike.{IsEven, even-IsPaid, alike-IsSound}
use wardex_sdk.Assembly.Units.Evicting.{
  append_nil, IsGood, IsAfter, IsAfter-trans, close_loose-IsDone,
}
use wardex_sdk.Assembly.Units.Opening.{evict_cases}

-- A parent's table without its oldest child, which is marked and noted.
marked : ℕ → ℕ → List ℕ → Registry → Registry
marked p c rest r =
    mark_evicted c (record r { units = change p (λ unit. record unit { children = rest }) r.units })

popped : ℕ → ℕ → List ℕ → Registry → Registry
unfolding marked
popped p c rest r = note unit_table_full c (marked p c rest r)

module _ (p c : ℕ) (rest : List ℕ) (r : Registry) (held : (r.units p).children ≡ c ∷ rest) where
  popped_rest :
      (v : ℕ)
      → (((popped p c rest r).units v).live ≡ (r.units v).live)
        × (((popped p c rest r).units v).parent ≡ (r.units v).parent)
        × (((popped p c rest r).units v).alias_keys ≡ (r.units v).alias_keys)
        × (((popped p c rest r).units v).draft ≡ (r.units v).draft)
        × (((popped p c rest r).units v).opened ≡ (r.units v).opened)
  unfolding popped marked note mark_evicted change
  popped_rest v = ground arith

  popped_old :
      (v k : ℕ)
      → includes k ((popped p c rest r).units v).children ≡ true
      → includes k (r.units v).children ≡ true
  unfolding popped marked note mark_evicted change includes
  popped_old v k e = ground (arith, held)

  popped_kept :
      (v k : ℕ)
      → nat_eq c k ≡ false
      → includes k (r.units v).children ≡ true
      → includes k ((popped p c rest r).units v).children ≡ true
  unfolding popped marked note mark_evicted change includes
  popped_kept v k other e = ground (arith, held)

  module _ (n m : ℕ) (near : p < n) (h : IsSound n [] r) where
    the_child : (c < n) × ((r.units c).parent ≡ some p) × ((r.units c).live ≡ true)
    the_child = h.child p c near (unfold includes in ground (arith, held))

    popped-IsLoose : IsLoose n c (popped p c rest r)
    unfolding popped marked note mark_evicted Placed
    popped-IsLoose =
        let s = popped p c rest r in
        record {
          known = h.known;
          listed = λ v lt. h.listed v lt ∙ sym (popped_rest v).0;
          rooted = λ v e. let q = h.rooted v e in (q.0, (popped_rest v).0 ∙ q.1);
          placed = λ v lt e other.
              elim (h.placed v lt (sym (popped_rest v).0 ∙ e) (unfold includes in refl)) [
                | inl root ↦ inl root
                | inr (q, named, living, inside, safe) ↦ inr (
                  q,
                  (popped_rest v).1 ∙ named,
                  (popped_rest q).0 ∙ living,
                  popped_kept q v other inside,
                  safe,
                )
              ];
          older = λ v q lt e. h.older v q lt (sym (popped_rest v).1 ∙ e);
          child = λ q k lt e.
              let was = h.child q k lt (popped_old q k e) in
              (was.0, (popped_rest k).1 ∙ was.1, (popped_rest k).0 ∙ was.2);
          aliased = λ k v e.
              let was = h.aliased k v e in
              (was.0, (popped_rest v).0 ∙ was.1, ap (is_key_in k) (popped_rest v).2 ∙ was.2);
        }

    popped-IsEven : IsEven n m r (popped p c rest r)
    unfolding popped marked note mark_evicted
    popped-IsEven = record {
      live = λ v lt. (popped_rest v).0;
      draft = λ v lt. (popped_rest v).3;
      opened = λ v lt. (popped_rest v).4;
      flags = λ x lt. note_on_flags unit_table_full c (marked p c rest r).units r.drafts x;
      emitted = refl;
    }

    popped-IsAfter : IsAfter n r (popped p c rest r)
    unfolding popped marked note mark_evicted change
    popped-IsAfter = record {
      beyond = λ v far.
          if_false (nat_eq v c) _ _ (ground (arith, the_child.0))
          ∙ if_false (nat_eq v p) _ _ (ground arith);
      flags = λ x. note_on_flags unit_table_full c (marked p c rest r).units r.drafts x;
      next_unit = refl;
      next_draft = refl;
      emitted = refl;
    }

-- A registry that a live unit may be joined to as the parent of the next one.
pub record IsJoined (n m p : ℕ) (pending : List ℕ) (r : Registry) (after : Registry × List ℕ)
    : Type 0 where
  pub middle : Registry
  pub good : IsGood n m (pending ++ after.1) middle
  pub rest : IsAfter n r middle
  pub lives : (middle.units p).live ≡ true
  pub result : after.0 ≡ record middle {
    units = change p (λ unit. record unit { children = unit.children ++ (n ∷ []) }) middle.units;
  }

module _ (n m p task now : ℕ) (pending : List ℕ) (r : Registry) (h : IsGood n m pending r)
    (near : p < n) (lives : (r.units p).live ≡ true) where
  full-IsJoined :
      (c : ℕ) (rest : List ℕ)
      → (r.units p).children ≡ c ∷ rest
      → IsJoined n m p pending r (join_parent task now p n (some c, rest) r)
  unfolding join_parent close_evicted_child popped marked
  full-IsJoined c rest held =
      let s = popped p c rest r in
      let q = the_child p c rest r held n m near h.sound in
      let even = popped-IsEven p c rest r held n m near h.sound in
      let loose = popped-IsLoose p c rest r held n m near h.sound in
      let going : (s.units c).live ≡ true = (popped_rest p c rest r held c).0 ∙ q.2 in
      let paid = even-IsPaid n m pending r s even h.paid in
      let room : n ≤ s.next_unit = unfold note mark_evicted in h.room in
      let done = close_loose-IsDone n m pending task c (unset_at now) s loose paid room q.0 going in
      let closed = close_locked-IsClosed task n c (unset_at now) s loose q.0 going room in
      let younger = h.sound.older c p q.0 q.1 in
      record {
        middle = (close_locked task (unset_at now) c s).0;
        good = done.good;
        rest = IsAfter-trans n r s _ (popped-IsAfter p c rest r held n m near h.sound) done.rest;
        lives = closed.live p ∙ ground (arith, (popped_rest p c rest r held p).0, closed.units p);
        result = refl;
      }

  retabled : Registry
  retabled = record r {
    units = change p (λ unit. record unit { children = (r.units p).children }) r.units;
  }

  retabled_rest :
      (v : ℕ)
      → ((retabled.units v).live ≡ (r.units v).live)
        × ((retabled.units v).parent ≡ (r.units v).parent)
        × ((retabled.units v).alias_keys ≡ (r.units v).alias_keys)
        × ((retabled.units v).draft ≡ (r.units v).draft)
        × ((retabled.units v).opened ≡ (r.units v).opened)
  unfolding retabled change
  retabled_rest v = ground arith

  retabled_children : (v : ℕ) → (retabled.units v).children ≡ (r.units v).children
  unfolding retabled change
  retabled_children v = elim (Bool-cases (nat_eq v p)) [
    | inl same ↦ rw same (ap (λ w. (r.units w).children) (sym ((nat_eq_iff v p).0 same)))
    | inr other ↦ rw other refl
  ]

  room-IsJoined : IsJoined n m p pending r (join_parent task now p n (none, (r.units p).children) r)
  unfolding join_parent close_evicted_child retabled
  room-IsJoined = record {
    middle = retabled;
    good = record {
      sound =
          alike-IsSound n r retabled
            (record {
              live = λ v lt. (retabled_rest v).0;
              parent = λ v lt. (retabled_rest v).1;
              children = λ v lt. retabled_children v;
              alias_keys = λ v lt. (retabled_rest v).2;
              roots = refl;
              live_units = refl;
              by_alias = refl;
            })
            h.sound;
      paid =
          subst (λ owing. IsPaid n m owing retabled) (sym (append_nil pending))
            (even-IsPaid n m pending r retabled
              (record {
                live = λ v lt. (retabled_rest v).0;
                draft = λ v lt. (retabled_rest v).3;
                opened = λ v lt. (retabled_rest v).4;
                flags = λ x lt. refl;
                emitted = refl;
              })
              h.paid);
      room = h.room;
    };
    rest = record {
      beyond = λ v far. unfold change in if_false (nat_eq v p) _ (r.units v) (ground arith);
      flags = λ x. refl;
      next_unit = refl;
      next_draft = refl;
      emitted = refl;
    };
    lives = (retabled_rest p).0 ∙ lives;
    result = refl;
  }

  pub attach_child-IsJoined : IsJoined n m p pending r (attach_child task now p n r)
  unfolding attach_child
  attach_child-IsJoined = elim (evict_cases r.max_entries_per_unit (r.units p).children) [
    | inl room ↦
        subst (λ table. IsJoined n m p pending r (join_parent task now p n table r)) (sym room)
          room-IsJoined
    | inr (c, rest, held, full) ↦
        subst (λ table. IsJoined n m p pending r (join_parent task now p n table r)) (sym full)
          (full-IsJoined c rest held)
  ]
