-- ===== src/Assembly/Units/SpanActs.antt =====
-- The spans of a unit's own are opened and closed beside the tree of units.
use mathlib.Core.Path.{subst}
use wardex_sdk.Prelude.{
  ℕ, suc, ◌<◌, true, false, ◌||◌, Option, none, some, List, [], ◌∷◌, ◌++◌, nat_eq, length, ltb, ◌≡◌,
  refl, sym, arith, holds_if, Bool-cases, Option-cases, inl, inr, nat_eq_iff,
}
use wardex_sdk.Assembly.Integrity.{unit_table_full}
use wardex_sdk.Assembly.Builder.Draft.{SpanDraft, new_draft}
use wardex_sdk.Assembly.Builder.Setters.{set_status, set_error}
use wardex_sdk.Assembly.Units.State.{UnitKey, OpenDraft, Registry, change}
use wardex_sdk.Assembly.Units.Tables.{pop_open, superseded, evict_oldest, force_close}
use wardex_sdk.Assembly.Units.Close.{Ending, end_draft}
use wardex_sdk.Assembly.Units.Spans.{
  Generated, Opened, add_draft, close_evicted, track_open, open_span, close_popped, close_span,
  rank_now,
}
use wardex_sdk.Assembly.Units.Ambience.{child}
use wardex_sdk.Assembly.Units.Sound.{IsSound}
use wardex_sdk.Assembly.Units.Grown.{is_open_in, change_flags, force_close_flag}
use wardex_sdk.Assembly.Units.Paid.{IsPaid}
use wardex_sdk.Assembly.Units.Alike.{even-IsPaid}
use wardex_sdk.Assembly.Units.Entered.{IsWell, flush-IsWell}
use wardex_sdk.Assembly.Units.SpanTables.{
  pop_open_lem, retabled, retabled_rest, retabled-IsSound, IsApart, retabled-IsPaid, owing-IsPaid,
  drafted-IsPaid, drafted-IsSound, drafted-IsEven,
}

module _ (u : ℕ) (r : Registry) (h : IsWell r) (lt : u < r.next_unit) where
  n : ℕ
  n = r.next_unit

  own_table : IsApart n r.next_draft u (r.units u).opened r.drafts r
  unfolding IsApart n
  own_table x v mt held = h.paid.unopened u v x lt mt held

  end_flag : (e : Ending) (d : SpanDraft) → (end_draft e d).emitted ≡ d.emitted
  unfolding end_draft set_status set_error
  end_flag e d = ground arith

  -- A table of spans that were open, and drafts with the flags they had.
  fewer-IsWell :
      (table : List OpenDraft) (store : ℕ → SpanDraft)
      → ((x : ℕ) → is_open_in x table ≡ true → is_open_in x (r.units u).opened ≡ true)
      → ((x : ℕ) → (store x).emitted ≡ (r.drafts x).emitted)
      → IsSound n [] (retabled n r.next_draft u table store r)
        × IsPaid n r.next_draft [] (retabled n r.next_draft u table store r)
  unfolding IsApart n
  fewer-IsWell table store within flags = (
    retabled-IsSound n r.next_draft u table store r h.sound,
    retabled-IsPaid n r.next_draft u table store r []
        (λ x v mt held. own_table x v mt (within x held)) (λ x near. flags x) h.paid,
  )

  pub close_span-IsWell : (draft : ℕ) (e : Ending) → IsWell (close_span u draft e r)
  unfolding close_span close_popped n retabled IsApart
  close_span-IsWell draft e =
      let table = pop_open draft (r.units u).opened in
      let within = pop_open_lem draft (r.units u).opened in
      let plain = fewer-IsWell table.1 r.drafts within.0 (λ x. refl) in
      let store = change draft (end_draft e) r.drafts in
      let ended =
        fewer-IsWell table.1 store within.0
          (λ x. change_flags draft (end_draft e) r.drafts x (end_flag e)) in
      let s = retabled n r.next_draft u table.1 r.drafts r in
      let t = retabled n r.next_draft u table.1 store r in
      let well : IsWell s = record { sound = plain.0; paid = plain.1 } in
      elim (Option-cases table.0) [
        | inl absent ↦
            subst (λ o. IsWell (close_popped o (r.units u).claims draft e s)) (sym absent) well
        | inr (entry, found) ↦
            let mine = within.1 entry found in
            let near = (own_table draft u lt mine).0 in
            subst (λ o. IsWell (close_popped o (r.units u).claims draft e s)) (sym found)
              (holds_if IsWell (superseded (r.units u).claims entry) s _ (λ _. well)
                (λ _. flush-IsWell r.next_unit r.next_draft (draft ∷ []) t refl refl ended.0 (
                  owing-IsPaid r.next_unit r.next_draft draft t near
                    (λ v mt.
                      rw (retabled_rest n r.next_draft u table.1 store r v).4
                        (own_table draft v mt mine).1)
                    ended.1)))
      ]

-- What an eviction takes or leaves was open.
evict_open :
    (bound : ℕ) (table : List OpenDraft)
    → ((x : ℕ) → is_open_in x (evict_oldest bound table).1 ≡ true → is_open_in x table ≡ true)
      × ((entry : OpenDraft)
          → (evict_oldest bound table).0 ≡ some entry
          → is_open_in entry.draft table ≡ true)
unfolding evict_oldest is_open_in
evict_open bound [] = (λ x h. h, λ entry h. absurd (cc))
evict_open bound (entry ∷ table) = elim (Bool-cases (ltb (length (entry ∷ table)) bound)) [
  | inl room ↦ rw room (λ x h. h, λ found h. absurd (cc))
  | inr full ↦ rw full (
    λ x h. ground arith,
    λ found h.
        let same : entry ≡ found = cc in
        subst (λ e. is_open_in e.draft (entry ∷ table) ≡ true) same
          (ground (arith, (nat_eq_iff entry.draft entry.draft).1 refl)),
  )
]

is_open_last :
    (x : ℕ) (entry : OpenDraft) (table : List OpenDraft)
    → is_open_in x (table ++ (entry ∷ [])) ≡ (is_open_in x table || nat_eq entry.draft x)
unfolding is_open_in
is_open_last x entry [] = ground arith
is_open_last x entry (e ∷ table) = ground (arith, is_open_last x entry table)

-- One more span in the table of a live unit, whose oldest may go.
record IsTracked (n m : ℕ) (r : Registry) (after : Registry × List ℕ) : Type 0 where
  sound : IsSound n [] after.0
  paid : IsPaid n m after.1 after.0
  next_unit : after.0.next_unit ≡ r.next_unit
  next_draft : after.0.next_draft ≡ r.next_draft

module _ (n m u : ℕ) (key : Option UnitKey) (now : ℕ) (r : Registry) (sound : IsSound n [] r)
    (paid : IsPaid n (suc m) [] r) (known : IsPaid n m [] r) (lt : u < n) where
  latest : OpenDraft
  latest = record { draft = m; claim_key = key; rank_at_open = rank_now key (r.units u).claims }

  left : List OpenDraft
  left = (evict_oldest r.max_entries_per_unit (r.units u).opened).1

  longer-IsApart : (store : ℕ → SpanDraft) → IsApart n (suc m) u (left ++ (latest ∷ [])) store r
  unfolding IsApart left latest
  longer-IsApart store x v mt held = elim (Bool-cases (is_open_in x left)) [
    | inl old ↦
        let within = (evict_open r.max_entries_per_unit (r.units u).opened).0 x old in
        let q = known.unopened u v x lt mt within in (omega (arith, q.0), q.1)
    | inr new ↦
        let same : m ≡ x = ground (arith, is_open_last x latest left) in
        let far = known.drawn v mt in (omega arith, ground arith)
  ]

  retabled-IsTracked :
      (store : ℕ → SpanDraft)
      → ((x : ℕ) → (store x).emitted ≡ (r.drafts x).emitted)
      → IsTracked n (suc m) r (retabled n (suc m) u (left ++ (latest ∷ [])) store r, [])
  unfolding retabled
  retabled-IsTracked store flags = record {
    sound = retabled-IsSound n (suc m) u (left ++ (latest ∷ [])) store r sound;
    paid =
        retabled-IsPaid n (suc m) u (left ++ (latest ∷ [])) store r [] (longer-IsApart store)
          (λ x near. flags x) paid;
    next_unit = refl;
    next_draft = refl;
  }

  track_open-IsTracked : IsTracked n (suc m) r (track_open u m key now r)
  unfolding track_open close_evicted retabled left latest
  track_open-IsTracked =
      let table = evict_oldest r.max_entries_per_unit (r.units u).opened in
      let plain = retabled-IsTracked r.drafts (λ x. refl) in
      let s = retabled n (suc m) u (left ++ (latest ∷ [])) r.drafts r in
      elim (Option-cases table.0) [
        | inl absent ↦
            subst (λ o. IsTracked n (suc m) r (close_evicted o (r.units u).claims now s))
              (sym absent) plain
        | inr (entry, found) ↦
            let mine = (evict_open r.max_entries_per_unit (r.units u).opened).1 entry found in
            let near = (known.unopened u u entry.draft lt lt mine).0 in
            let store = change entry.draft (force_close unit_table_full now) r.drafts in
            let forced = retabled-IsTracked store (λ x.
              change_flags entry.draft (force_close unit_table_full now) r.drafts x
                (force_close_flag unit_table_full now)) in
            let t = retabled n (suc m) u (left ++ (latest ∷ [])) store r in
            subst (λ o. IsTracked n (suc m) r (close_evicted o (r.units u).claims now s))
              (sym found)
              (holds_if (IsTracked n (suc m) r) (superseded (r.units u).claims entry) (s, []) _
                (λ _. plain)
                (λ _. record {
                  sound = forced.sound;
                  paid =
                      owing-IsPaid n (suc m) entry.draft t (omega (arith, near))
                        (λ v mt.
                          rw (retabled_rest n (suc m) u (left ++ (latest ∷ [])) store r v).4
                            (known.unopened u v entry.draft lt mt mine).1)
                        forced.paid;
                  next_unit = refl;
                  next_draft = refl;
                }))
      ]

pub open_span-IsWell :
    (generated : Generated) (u : ℕ) (asked : Opened) (now : ℕ) (r : Registry)
    → IsWell r
    → u < r.next_unit
    → IsWell (open_span generated u asked now r).0
unfolding open_span add_draft
open_span-IsWell generated u asked now r h lt =
    let n = r.next_unit in
    let m = r.next_draft in
    let d =
      new_draft generated.span_id (child generated.trace_id (r.units u) asked.evidence)
        (some asked.intent) asked.subject asked.source asked.start_ns none in
    let begun = record r { drafts = change m (λ old. d) r.drafts; next_draft = suc m } in
    let sound : IsSound n [] begun = drafted-IsSound n m d r h.sound in
    let fresh : d.emitted ≡ false = unfold new_draft in refl in
    let paid = drafted-IsPaid n m d r fresh h.paid in
    let known = even-IsPaid n m [] r begun (drafted-IsEven n m d r) h.paid in
    holds_if IsWell (r.units u).live _ begun
      (λ _.
        let t = track_open-IsTracked n m u asked.claim_key now begun sound paid known lt in
        let after = track_open u m asked.claim_key now begun in
        flush-IsWell n (suc m) after.1 after.0 t.next_unit t.next_draft t.sound t.paid)
      (λ _. record { sound = sound; paid = paid })
