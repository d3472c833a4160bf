-- ===== src/Assembly/Units/SpanTables.antt =====
-- A unit's table of open spans and the stores of drafts, beside the tree of units.
use wardex_sdk.Prelude.{
  ℕ, suc, ◌<◌, true, false, some, List, [], ◌∷◌, nat_eq, includes, ◌≡◌, refl, sym, ap, ◌∙◌, arith,
  if◌then◌else◌, if_false, Bool-cases, inl, inr, ◌⊎◌,
}
use wardex_sdk.Assembly.Builder.Draft.{SpanDraft}
use wardex_sdk.Assembly.Units.State.{OpenDraft, Registry, change}
use wardex_sdk.Assembly.Units.Tables.{pop_open}
use wardex_sdk.Assembly.Units.Sound.{IsSound}
use wardex_sdk.Assembly.Units.Grown.{is_open_in}
use wardex_sdk.Assembly.Units.Paid.{IsPaid}
use wardex_sdk.Assembly.Units.Alike.{IsEven, alike-IsSound}

-- What a pop leaves was there before, and what it takes is the draft.
pub pop_open_lem :
    (draft : ℕ) (table : List OpenDraft)
    → ((x : ℕ) → is_open_in x (pop_open draft table).1 ≡ true → is_open_in x table ≡ true)
      × ((entry : OpenDraft)
          → (pop_open draft table).0 ≡ some entry
          → is_open_in draft table ≡ true)
unfolding pop_open is_open_in
pop_open_lem draft [] = (λ x h. h, λ entry h. absurd (cc))
pop_open_lem draft (entry ∷ table) =
    let rest = pop_open_lem draft table in
    (λ x h. ground (arith, rest.0 x), λ found h. ground (arith, rest.1 found))

-- A unit with fewer spans open, and drafts with the flags they had.
module _ (n m u : ℕ) (table : List OpenDraft) (store : ℕ → SpanDraft) (r : Registry) where
  unfoldable pub retabled : Registry
  retabled = record r {
    units = change u (λ old. record old { opened = table }) r.units;
    drafts = store;
  }

  pub retabled_rest :
      (v : ℕ)
      → ((retabled.units v).live ≡ (r.units v).live)
        × ((retabled.units v).parent ≡ (r.units v).parent)
        × ((retabled.units v).children ≡ (r.units v).children)
        × ((retabled.units v).alias_keys ≡ (r.units v).alias_keys)
        × ((retabled.units v).draft ≡ (r.units v).draft)
  unfolding retabled change
  retabled_rest v = ground arith

  pub retabled-IsSound : IsSound n [] r → IsSound n [] retabled
  unfolding retabled
  retabled-IsSound = alike-IsSound n r retabled (record {
    live = λ v lt. (retabled_rest v).0;
    parent = λ v lt. (retabled_rest v).1;
    children = λ v lt. (retabled_rest v).2;
    alias_keys = λ v lt. (retabled_rest v).3;
    roots = refl;
    live_units = refl;
    by_alias = refl;
  })

  -- Each open span is one that is known and is no unit's own.
  unfoldable pub IsApart : Type 0
  IsApart =
      (x v : ℕ) → v < n → is_open_in x table ≡ true → (x < m) × (nat_eq x (r.units v).draft ≡ false)

  retabled_opened :
      (v x : ℕ)
      → is_open_in x (retabled.units v).opened ≡ true
      → (is_open_in x (r.units v).opened ≡ true) ⊎ (is_open_in x table ≡ true)
  unfolding retabled change
  retabled_opened v x h = ground arith

  pub retabled-IsPaid :
      (pending : List ℕ)
      → IsApart
      → ((x : ℕ) → x < m → (store x).emitted ≡ (r.drafts x).emitted)
      → IsPaid n m pending r
      → IsPaid n m pending retabled
  unfolding retabled IsApart
  retabled-IsPaid pending apart flags h = record {
    drawn = λ v lt. rw (retabled_rest v).4 (h.drawn v lt);
    apart = λ v w lt mt e. h.apart v w lt mt (sym (retabled_rest v).4 ∙ e ∙ (retabled_rest w).4);
    unopened = λ v w x lt mt held. rw (retabled_rest w).4 (elim (retabled_opened v x held) [
      | inl old ↦ h.unopened v w x lt mt old
      | inr new ↦ apart x w mt new
    ]);
    unpaid = λ v lt e.
        let old = h.unpaid v lt (sym (retabled_rest v).0 ∙ e) in
        rw (retabled_rest v).4 (flags (r.units v).draft (h.drawn v lt) ∙ old.0, old.1);
    paid = λ v lt e. rw (retabled_rest v).4 (elim (h.paid v lt (sym (retabled_rest v).0 ∙ e)) [
      | inl flagged ↦ inl (flags (r.units v).draft (h.drawn v lt) ∙ flagged)
      | inr waiting ↦ inr waiting
    ]);
    told = λ x lt. h.told x lt ∙ sym (flags x lt);
    emitted_known = h.emitted_known;
    pending_known = h.pending_known;
    once = h.once;
  }

-- A known draft that is no unit's own may be pending.
pub owing-IsPaid :
    (n m x : ℕ) (r : Registry)
    → x < m
    → ((v : ℕ) → v < n → nat_eq x (r.units v).draft ≡ false)
    → IsPaid n m [] r
    → IsPaid n m (x ∷ []) r
unfolding includes
owing-IsPaid n m x r near apart h = record {
  drawn = h.drawn;
  apart = h.apart;
  unopened = h.unopened;
  unpaid = λ u lt e. ((h.unpaid u lt e).0, ground (arith, apart u lt));
  paid = λ u lt e. elim (h.paid u lt e) [ inl flagged ↦ inl flagged | inr waiting ↦ absurd (cc) ];
  told = h.told;
  emitted_known = h.emitted_known;
  pending_known = λ y held. ground arith;
  once = h.once;
}

-- A draft that takes the next place.
pub drafted-IsPaid :
    (n m : ℕ) (d : SpanDraft) (r : Registry)
    → d.emitted ≡ false
    → IsPaid n m [] r
    → IsPaid n (suc m) [] (record r { drafts = change m (λ old. d) r.drafts; next_draft = suc m })
unfolding change
drafted-IsPaid n m d r fresh h =
    let flags : (x : ℕ)
        → x < m
        → (if nat_eq x m then d else r.drafts x).emitted ≡ (r.drafts x).emitted =
      λ x lt.
        ap (λ (e : SpanDraft). e.emitted) (if_false (nat_eq x m) d (r.drafts x) (ground arith)) in
    record {
      drawn = λ u lt. omega (arith, h.drawn u lt);
      apart = h.apart;
      unopened =
          λ u v x lt mt held. let q = h.unopened u v x lt mt held in (omega (arith, q.0), q.1);
      unpaid = λ u lt e.
          let old = h.unpaid u lt e in (flags (r.units u).draft (h.drawn u lt) ∙ old.0, old.1);
      paid = λ u lt e. elim (h.paid u lt e) [
        | inl flagged ↦ inl (flags (r.units u).draft (h.drawn u lt) ∙ flagged)
        | inr waiting ↦ inr waiting
      ];
      told = λ x lt. elim (Bool-cases (nat_eq x m)) [
        | inl same ↦ rw same (ground (arith, h.emitted_known x))
        | inr other ↦ rw other (h.told x (ground arith))
      ];
      emitted_known = λ x held. omega (arith, h.emitted_known x held);
      pending_known = λ x held. omega (arith, h.pending_known x held);
      once = h.once;
    }

pub drafted-IsSound :
    (n m : ℕ) (d : SpanDraft) (r : Registry)
    → IsSound n [] r
    → IsSound n [] (record r { drafts = change m (λ old. d) r.drafts; next_draft = suc m })
drafted-IsSound n m d r =
    alike-IsSound n r (record r { drafts = change m (λ old. d) r.drafts; next_draft = suc m })
      (record {
        live = λ v lt. refl;
        parent = λ v lt. refl;
        children = λ v lt. refl;
        alias_keys = λ v lt. refl;
        roots = refl;
        live_units = refl;
        by_alias = refl;
      })

pub drafted-IsEven :
    (n m : ℕ) (d : SpanDraft) (r : Registry)
    → IsEven n m r (record r { drafts = change m (λ old. d) r.drafts; next_draft = suc m })
unfolding change
drafted-IsEven n m d r = record {
  live = λ v lt. refl;
  draft = λ v lt. refl;
  opened = λ v lt. refl;
  flags = λ x lt.
      ap (λ (e : SpanDraft). e.emitted) (if_false (nat_eq x m) d (r.drafts x) (ground arith));
  emitted = refl;
}
