-- ===== src/Assembly/Units/Paid.antt =====
-- The span of a unit is emitted once the unit is closed, and not before: what is still to be emitted is
-- pending.
use mathlib.Core.Path.{subst}
use wardex_sdk.Prelude.{
  ℕ, ◌<◌, true, false, not, ◌||◌, List, [], ◌∷◌, ◌++◌, nat_eq, includes, includes-append, ◌≡◌, refl,
  sym, ap, ◌∙◌, arith, if◌then◌else◌, Bool-cases, inl, inr, ◌⊎◌, nat_eq_iff, if_true, if_false,
}
use wardex_sdk.Assembly.Builder.Draft.{SpanDraft}
use wardex_sdk.Assembly.Builder.Setters.{claim_emit}
use wardex_sdk.Assembly.Units.State.{Registry, change}
use wardex_sdk.Assembly.Units.Close.{flush}
use wardex_sdk.Assembly.Units.Grown.{Due, is_open_in}
use wardex_sdk.Assembly.Units.Gone.{IsClosed}

-- No number twice.
unfoldable pub IsOnce : List ℕ → Type 0
IsOnce [] = Unit
IsOnce (x ∷ xs) = (includes x xs ≡ false) × IsOnce xs

append-IsOnce : (xs : List ℕ) (x : ℕ) → IsOnce xs → includes x xs ≡ false → IsOnce (xs ++ (x ∷ []))
unfolding IsOnce includes
append-IsOnce [] x h e = (refl, tt)
append-IsOnce (y ∷ xs) x h e =
    (ground (arith, includes-append y xs (x ∷ [])), append-IsOnce xs x h.1 (ground arith))

-- Of the first `n` units and the first `m` drafts.
pub record IsPaid (n m : ℕ) (pending : List ℕ) (r : Registry) : Type 0 where
  pub drawn : (u : ℕ) → u < n → (r.units u).draft < m
  pub apart : (u v : ℕ) → u < n → v < n → (r.units u).draft ≡ (r.units v).draft → u ≡ v
  pub unopened :
      (u v x : ℕ)
      → u < n
      → v < n
      → is_open_in x (r.units u).opened ≡ true
      → (x < m) × (nat_eq x (r.units v).draft ≡ false)
  pub unpaid :
      (u : ℕ)
      → u < n
      → (r.units u).live ≡ true
      → ((r.drafts (r.units u).draft).emitted ≡ false)
        × (includes (r.units u).draft pending ≡ false)
  pub paid :
      (u : ℕ)
      → u < n
      → (r.units u).live ≡ false
      → ((r.drafts (r.units u).draft).emitted ≡ true) ⊎ (includes (r.units u).draft pending ≡ true)
  pub told : (x : ℕ) → x < m → includes x r.emitted ≡ (r.drafts x).emitted
  pub emitted_known : (x : ℕ) → includes x r.emitted ≡ true → x < m
  pub pending_known : (x : ℕ) → includes x pending ≡ true → x < m
  pub once : IsOnce r.emitted

module _ (n m u : ℕ) (pending : List ℕ) (r : Registry) (after : Registry × List ℕ)
    (h : IsPaid n m pending r) (c : IsClosed n u r after) where
  -- The draft of a unit that stays is not due.
  not_due :
      (v : ℕ) → v < n → includes v c.doomed ≡ false → includes (r.units v).draft after.1 ≡ false
  unfolding Due
  not_due v lt stays = elim (Bool-cases (includes (r.units v).draft after.1)) [
    | inr absent ↦ absent
    | inl waits ↦
        let (w, going, owing) = c.due (r.units v).draft waits in
        let known = (c.units w going).0 in
        elim owing [
          | inl same ↦
              let here = h.apart w v known lt same in
              absurd (ground (arith, subst (λ x. includes x c.doomed ≡ true) here going))
          | inr open_there ↦ absurd (
              ground (
                arith,
                h.unopened w v (r.units v).draft known lt open_there,
                nat_eq_iff (r.units v).draft (r.units v).draft,
              ))
        ]
  ]

  due_known : (x : ℕ) → includes x after.1 ≡ true → x < m
  unfolding Due
  due_known x waits =
      let (w, going, owing) = c.due x waits in
      let known = (c.units w going).0 in
      elim owing [
        | inl same ↦ subst (λ y. y < m) same (h.drawn w known)
        | inr open_there ↦ (h.unopened w w x known known open_there).0
      ]

  closed_unpaid :
      (v : ℕ)
      → v < n
      → (after.0.units v).live ≡ true
      → ((after.0.drafts (after.0.units v).draft).emitted ≡ false)
        × (includes (after.0.units v).draft (pending ++ after.1) ≡ false)
  closed_unpaid v lt e =
      let lived : (r.units v).live ≡ true = ground (arith, c.live v) in
      let stays : includes v c.doomed ≡ false = ground (arith, c.live v) in
      let old = h.unpaid v lt lived in
      rw (c.draft v) (
        c.flags (r.units v).draft ∙ old.0,
        ground (arith, includes-append (r.units v).draft pending after.1, not_due v lt stays),
      )

  closed_paid :
      (v : ℕ)
      → v < n
      → (after.0.units v).live ≡ false
      → ((after.0.drafts (after.0.units v).draft).emitted ≡ true)
        ⊎ (includes (after.0.units v).draft (pending ++ after.1) ≡ true)
  closed_paid v lt e =
      let told = includes-append (r.units v).draft pending after.1 in
      rw (c.draft v) (elim (Bool-cases (r.units v).live) [
        | inl lived ↦
            let going : includes v c.doomed ≡ true = ground (arith, c.live v) in
            inr (ground (arith, c.owed v going))
        | inr dead ↦ elim (h.paid v lt dead) [
          | inl flagged ↦ inl (c.flags (r.units v).draft ∙ flagged)
          | inr waiting ↦ inr (ground arith)
        ]
      ])

  closed_known : (x : ℕ) → includes x (pending ++ after.1) ≡ true → x < m
  closed_known x held = (elim (Bool-cases (includes x pending)) [
    | inl waiting ↦ h.pending_known x waiting
    | inr new ↦ due_known x (ground (arith, includes-append x pending after.1))
  ])

  pub closed-IsPaid : IsPaid n m (pending ++ after.1) after.0
  closed-IsPaid = record {
    drawn = λ v lt. rw (c.draft v) (h.drawn v lt);
    apart = λ v w lt mt e. h.apart v w lt mt (sym (c.draft v) ∙ e ∙ c.draft w);
    unopened = λ v w x lt mt held. rw (c.draft w) (h.unopened v w x lt mt (c.opened v x held));
    unpaid = closed_unpaid;
    paid = closed_paid;
    told = λ x lt. rw c.emitted (h.told x lt ∙ sym (c.flags x));
    emitted_known = λ x held. h.emitted_known x (rw (← c.emitted) held);
    pending_known = closed_known;
    once = rw c.emitted h.once;
  }

flushed : ℕ → Registry → Registry
flushed x r = record r {
  drafts = change x (λ d. (claim_emit d).0) r.drafts;
  emitted = r.emitted ++ (x ∷ []);
}

-- One draft that is flushed.
flush_one : ℕ → Registry → Registry
unfolding flushed
flush_one x r = if (claim_emit (r.drafts x)).1 then flushed x r else r

claim_emit_lem :
    (d : SpanDraft) → ((claim_emit d).1 ≡ not d.emitted) × ((claim_emit d).0.emitted ≡ true)
unfolding claim_emit
claim_emit_lem d = ground arith

flush_stale : (x : ℕ) (r : Registry) → (r.drafts x).emitted ≡ true → flush_one x r ≡ r
unfolding flush_one
flush_stale x r e = if_false _ (flushed x r) r ((claim_emit_lem (r.drafts x)).0 ∙ ap not e)

flush_fresh : (x : ℕ) (r : Registry) → (r.drafts x).emitted ≡ false → flush_one x r ≡ flushed x r
unfolding flush_one
flush_fresh x r e = if_true _ (flushed x r) r ((claim_emit_lem (r.drafts x)).0 ∙ ap not e)

flag_after :
    (x y : ℕ) (store : ℕ → SpanDraft)
    → (change x (λ d. (claim_emit d).0) store y).emitted ≡ (nat_eq y x || (store y).emitted)
unfolding change
flag_after x y store = elim (Bool-cases (nat_eq y x)) [
  | inl same ↦ rw same (claim_emit_lem (store y)).1
  | inr other ↦ rw other refl
]

module _ (n m x : ℕ) (pending : List ℕ) (r : Registry) (h : IsPaid n m (x ∷ pending) r) where
  stale-IsPaid : (r.drafts x).emitted ≡ true → IsPaid n m pending r
  unfolding includes
  stale-IsPaid e = record {
    drawn = h.drawn;
    apart = h.apart;
    unopened = h.unopened;
    unpaid = λ u lt lives. ground (arith, h.unpaid u lt lives);
    paid = λ u lt dead. elim (h.paid u lt dead) [
      | inl flagged ↦ inl flagged
      | inr waiting ↦ elim (Bool-cases (nat_eq x (r.units u).draft)) [
        | inl same ↦
            inl
              (subst (λ y. (r.drafts y).emitted ≡ true) ((nat_eq_iff x (r.units u).draft).0 same) e)
        | inr other ↦ inr (ground arith)
      ]
    ];
    told = h.told;
    emitted_known = h.emitted_known;
    pending_known = λ y held. h.pending_known y (ground arith);
    once = h.once;
  }

  fresh-IsPaid : (r.drafts x).emitted ≡ false → IsPaid n m pending (flushed x r)
  unfolding flushed includes
  fresh-IsPaid e =
      let known = h.pending_known x (ground arith) in
      let unsent : includes x r.emitted ≡ false = h.told x known ∙ e in
      record {
        drawn = h.drawn;
        apart = h.apart;
        unopened = h.unopened;
        unpaid = λ u lt lives.
            ground (arith, h.unpaid u lt lives, flag_after x (r.units u).draft r.drafts);
        paid = λ u lt dead. elim (h.paid u lt dead) [
          | inl flagged ↦ inl (ground (arith, flag_after x (r.units u).draft r.drafts))
          | inr waiting ↦ elim (Bool-cases (nat_eq x (r.units u).draft)) [
            | inl same ↦ inl (ground (arith, flag_after x (r.units u).draft r.drafts))
            | inr other ↦ inr (ground arith)
          ]
        ];
        told = λ y lt.
            ground
              (arith, h.told y lt, flag_after x y r.drafts, includes-append y r.emitted (x ∷ []));
        emitted_known = λ y held. elim (Bool-cases (includes y r.emitted)) [
          | inl before ↦ h.emitted_known y before
          | inr new ↦ ground (arith, includes-append y r.emitted (x ∷ []))
        ];
        pending_known = λ y held. h.pending_known y (ground arith);
        once = append-IsOnce r.emitted x h.once unsent;
      }

pub flush-IsPaid :
    (n m : ℕ) (pending : List ℕ) (r : Registry)
    → IsPaid n m pending r
    → IsPaid n m [] (flush pending r)
unfolding flush flush_one flushed
flush-IsPaid n m [] r h = h
flush-IsPaid n m (x ∷ pending) r h =
    flush-IsPaid n m pending (flush_one x r) (elim (Bool-cases (r.drafts x).emitted) [
      | inl stale ↦
          subst (IsPaid n m pending) (sym (flush_stale x r stale))
            (stale-IsPaid n m x pending r h stale)
      | inr fresh ↦
          subst (IsPaid n m pending) (sym (flush_fresh x r fresh))
            (fresh-IsPaid n m x pending r h fresh)
    ])
