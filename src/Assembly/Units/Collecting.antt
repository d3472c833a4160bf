-- ===== src/Assembly/Units/Collecting.antt =====
-- A collection dooms a live unit with its whole subtree, with a step for each younger unit.
use mathlib.Core.Path.{subst}
use wardex_sdk.Prelude.{
  ℕ, zero, suc, ◌+◌, ◌<◌, ◌≤◌, true, List, [], ◌∷◌, ◌++◌, nat_eq, includes, includes-append, ◌≡◌,
  sym, ◌∙◌, arith, Bool-cases, inl, inr, ◌⊎◌, All, holds_if, if_true, nat_eq_iff,
}
use wardex_sdk.Assembly.Integrity.{child_span_unclosed}
use wardex_sdk.Assembly.Builder.Draft.{SpanDraft}
use wardex_sdk.Assembly.Units.State.{UnitKey, OpenDraft, WorkUnit, change}
use wardex_sdk.Assembly.Units.Tables.{force_close, note_on, superseded}
use wardex_sdk.Assembly.Units.Close.{
  Ending, unset_at, Collected, collect_opened, collect_children, collect_locked, finalize_locked,
}
use wardex_sdk.Assembly.Units.Grown.{
  IsGrown, same-IsGrown, IsGrown-trans, written-IsGrown, Due, is_open_in, change_flags,
  force_close_flag, finalize_flag, note_on_flags,
}

includes_last : (x : ℕ) (xs : List ℕ) → includes x (xs ++ (x ∷ [])) ≡ true
unfolding includes
includes_last x xs = ground (arith, includes-append x xs (x ∷ []))

includes_before :
    (y x : ℕ) (xs : List ℕ) → includes y xs ≡ true → includes y (xs ++ (x ∷ [])) ≡ true
unfolding includes
includes_before y x xs h = ground (arith, includes-append y xs (x ∷ []))

includes_either :
    (y x : ℕ) (xs : List ℕ) → includes y (xs ++ (x ∷ [])) ≡ true → (includes y xs ≡ true) ⊎ (x ≡ y)
unfolding includes
includes_either y x xs h = ground (arith, includes-append y xs (x ∷ []))

-- Each item of a list that satisfies what its members do.
All-members : {P : ℕ → Type 0} (xs : List ℕ) → ((x : ℕ) → includes x xs ≡ true → P x) → All P xs
unfolding includes
All-members [] h = tt
All-members (x ∷ xs) h = (h x (ground arith), All-members xs (λ y e. h y (ground arith)))

member_of_All : (P : ℕ → Type 0) (xs : List ℕ) → All P xs → (x : ℕ) → includes x xs ≡ true → P x
unfolding includes
member_of_All P [] h x e = absurd (cc)
member_of_All P (y ∷ ys) h x e = elim (Bool-cases (nat_eq y x)) [
  | inl same ↦ rw (← (nat_eq_iff y x).0 same) h.0
  | inr other ↦ member_of_All P ys h.1 x (ground arith)
]

module _ (units : ℕ → WorkUnit) (n lo : ℕ) where
  -- One more draft of a doomed unit.
  push-IsGrown :
      (c : Collected) (store : ℕ → SpanDraft) (v x : ℕ)
      → ((y : ℕ) → (store y).emitted ≡ (c.drafts y).emitted)
      → includes v c.doomed ≡ true
      → Due units v x
      → IsGrown units n lo c (record c { drafts = store; pending = c.pending ++ (x ∷ []) })
  push-IsGrown c store v x kept doomed owing = record {
    doomed_kept = λ w e. e;
    pending_kept = λ y e. includes_before y x c.pending e;
    doomed_new = λ w e. inl e;
    closed = λ w k e f h. absurd (ground arith);
    owed = λ w e. inl e;
    due = λ y e. elim (includes_either y x c.pending e) [
      | inl before ↦ inl before
      | inr same ↦ inr (v, doomed, rw (← same) owing)
    ];
    flags = kept;
  }

  opened-IsGrown :
      (claims : List (UnitKey × ℕ)) (end_ns v : ℕ) (table : List OpenDraft) (c : Collected)
      → includes v c.doomed ≡ true
      → ((x : ℕ) → is_open_in x table ≡ true → is_open_in x (units v).opened ≡ true)
      → IsGrown units n lo c (collect_opened units claims end_ns table c)
  unfolding collect_opened is_open_in Due
  opened-IsGrown claims end_ns v [] c doomed within = same-IsGrown units n lo c
  opened-IsGrown claims end_ns v (entry ∷ table) c doomed within =
      let later : (x : ℕ) → is_open_in x table ≡ true → is_open_in x (units v).opened ≡ true =
        λ x e. within x (ground arith) in
      let pushed : Collected = record c {
        drafts = change entry.draft (force_close child_span_unclosed end_ns) c.drafts;
        pending = c.pending ++ (entry.draft ∷ []);
      } in
      holds_if (λ d. IsGrown units n lo c (collect_opened units claims end_ns table d))
        (superseded claims entry) c pushed
        (λ _. opened-IsGrown claims end_ns v table c doomed later)
        (λ _.
          IsGrown-trans units n lo c pushed (collect_opened units claims end_ns table pushed)
            (push-IsGrown c pushed.drafts v entry.draft
              (λ y.
                change_flags entry.draft (force_close child_span_unclosed end_ns) c.drafts y
                  (force_close_flag child_span_unclosed end_ns))
              doomed (inr (within entry.draft (ground arith))))
            (opened-IsGrown claims end_ns v table pushed doomed later))

  -- What a collection below `k` does.
  Collects : (ℕ → Collected → Collected) → ℕ → Type 0
  Collects f k =
      ((units k).live ≡ true)
      × ((c : Collected) → IsGrown units n lo c (f k c) × (includes k (f k c).doomed ≡ true))

  noted : ℕ → Collected → Collected
  noted k c = record c { drafts = note_on child_span_unclosed k units c.drafts }

  noted-IsGrown : (k : ℕ) (c : Collected) → IsGrown units n lo c (noted k c)
  unfolding noted
  noted-IsGrown k c =
      written-IsGrown units n lo c _ (λ x. note_on_flags child_span_unclosed k units c.drafts x)

  children-IsGrown :
      (f : ℕ → Collected → Collected) (ks : List ℕ) (c : Collected)
      → All (Collects f) ks
      → IsGrown units n lo c (collect_children units f ks c)
        × All (λ k. includes k (collect_children units f ks c).doomed ≡ true) ks
  unfolding collect_children Collects noted
  children-IsGrown f [] c h = (same-IsGrown units n lo c, tt)
  children-IsGrown f (k ∷ ks) c h =
      let here = h.0.1 (noted k c) in
      let rest = children-IsGrown f ks (f k (noted k c)) h.1 in
      let went = if_true (units k).live (f k (noted k c)) c h.0.0 in
      subst
        (λ d.
          IsGrown units n lo c (collect_children units f ks d)
          × All (λ j. includes j (collect_children units f ks d).doomed ≡ true) (k ∷ ks))
        (sym went)
        (
          IsGrown-trans units n lo c (noted k c) _ (noted-IsGrown k c)
              (IsGrown-trans units n lo (noted k c) (f k (noted k c)) _ here.0 rest.0),
          (rest.0.doomed_kept k here.1, rest.1),
        )

  -- The end of one unit, once its children are gathered.
  ended : Ending → ℕ → Collected → Collected
  ended e u closed = record closed {
    drafts = change (units u).draft (finalize_locked e (units u)) closed.drafts;
    pending = closed.pending ++ ((units u).draft ∷ []);
  }

  begun : ℕ → Collected → Collected
  begun u c = record c { doomed = c.doomed ++ (u ∷ []) }

  ended-IsGrown :
      (e : Ending) (u : ℕ) (c closed : Collected)
      → u < n
      → (units u).live ≡ true
      → lo ≤ u
      → IsGrown units n lo (begun u c) closed
      → ((k : ℕ) → includes k (units u).children ≡ true → includes k closed.doomed ≡ true)
      → IsGrown units n lo c (ended e u closed)
  unfolding begun ended Due
  ended-IsGrown e u c closed lt lives above grown gathered = record {
    doomed_kept = λ v p. grown.doomed_kept v (includes_before v u c.doomed p);
    pending_kept = λ x p. includes_before x (units u).draft closed.pending (grown.pending_kept x p);
    doomed_new = λ v p. elim (grown.doomed_new v p) [
      | inl old ↦ elim (includes_either v u c.doomed old) [
        | inl before ↦ inl before
        | inr same ↦
            inr (subst (λ w. (w < n) × ((units w).live ≡ true) × (lo ≤ w)) same (lt, lives, above))
      ]
      | inr q ↦ inr q
    ];
    closed = λ v k p q held. elim (Bool-cases (includes v (c.doomed ++ (u ∷ [])))) [
      | inl old ↦ elim (includes_either v u c.doomed old) [
        | inl before ↦ absurd (ground arith)
        | inr same ↦ gathered k (subst (λ w. includes k (units w).children ≡ true) (sym same) held)
      ]
      | inr new ↦ grown.closed v k p new held
    ];
    owed = λ v p. elim (grown.owed v p) [
      | inl old ↦ elim (includes_either v u c.doomed old) [
        | inl before ↦ inl before
        | inr same ↦ inr (
            subst (λ w. includes (units w).draft (closed.pending ++ ((units u).draft ∷ [])) ≡ true)
              same (includes_last (units u).draft closed.pending))
      ]
      | inr q ↦ inr (includes_before (units v).draft (units u).draft closed.pending q)
    ];
    due = λ x p. elim (includes_either x (units u).draft closed.pending p) [
      | inl before ↦ grown.due x before
      | inr same ↦ inr (u, grown.doomed_kept u (includes_last u c.doomed), inl same)
    ];
    flags = λ x.
        change_flags (units u).draft (finalize_locked e (units u)) closed.drafts x
          (finalize_flag e (units u))
        ∙ grown.flags x;
  }

  -- Children are younger, live, and among the first `n`.
  unfoldable pub Nested : Type 0
  Nested =
      (p c : ℕ)
      → p < n
      → includes c (units p).children ≡ true
      → (p < c) × (c < n) × ((units c).live ≡ true)

  pub collect_locked-IsGrown :
      (fuel u : ℕ) (e : Ending)
      → Nested
      → u < n
      → (units u).live ≡ true
      → lo ≤ u
      → n ≤ fuel + u
      → (c : Collected)
      → IsGrown units n lo c (collect_locked units fuel e u c)
        × (includes u (collect_locked units fuel e u c).doomed ≡ true)
  unfolding collect_locked Nested Collects ended begun
  collect_locked-IsGrown zero u e nested lt lives above enough c = absurd (omega arith)
  collect_locked-IsGrown (suc fuel) u e nested lt lives above enough c =
      let children = (units u).children in
      let f = collect_locked units fuel (unset_at e.end_ns) in
      let first = begun u c in
      let below = collect_children units f children first in
      let collects : (k : ℕ) → includes k children ≡ true → Collects f k = λ k m.
        let q = nested u k lt m in
        (
          q.2,
          λ d.
              collect_locked-IsGrown fuel k (unset_at e.end_ns) nested q.1 q.2
                (omega (arith, above, q.0)) (omega (arith, enough, q.0)) d,
        ) in
      let gathered = children-IsGrown f children first (All-members children collects) in
      let closed = collect_opened units (units u).claims e.end_ns (units u).opened below in
      let here = gathered.0.doomed_kept u (includes_last u c.doomed) in
      let forced =
        opened-IsGrown (units u).claims e.end_ns u (units u).opened below here (λ x m. m) in
      let grown = IsGrown-trans units n lo first below closed gathered.0 forced in
      (
        ended-IsGrown e u c closed lt lives above grown (λ k m.
            forced.doomed_kept k
              (member_of_All (λ j. includes j below.doomed ≡ true) children gathered.1 k m)),
        forced.doomed_kept u here,
      )
