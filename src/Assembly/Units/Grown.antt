-- ===== src/Assembly/Units/Grown.antt =====
-- What a collection may add to what was gathered: doomed units that are live, all their children with
-- them, and the drafts of the doomed and of their open spans.
use wardex_sdk.Prelude.{
  ℕ, ◌<◌, ◌≤◌, Bool, true, false, ◌||◌, List, [], ◌∷◌, nat_eq, includes, ◌≡◌, refl, ◌∙◌, arith,
  Bool-cases, inl, inr, ◌⊎◌,
}
use wardex_sdk.Assembly.Integrity.{Limitation}
use wardex_sdk.Assembly.Builder.Draft.{SpanDraft}
use wardex_sdk.Assembly.Builder.Setters.{add_limitation, set_status, set_error, set_io}
use wardex_sdk.Assembly.Units.State.{OpenDraft, WorkUnit, change}
use wardex_sdk.Assembly.Units.Tables.{force_close, note_on}
use wardex_sdk.Assembly.Units.Close.{
  Ending, Collected, end_draft, recorded, mark_truncated, finalize_locked,
}

-- `draft in opened`.
unfoldable pub is_open_in : ℕ → List OpenDraft → Bool
is_open_in draft [] = false
is_open_in draft (entry ∷ table) = nat_eq entry.draft draft || is_open_in draft table

-- A draft whose emission is due because a unit is doomed.
unfoldable pub Due : (ℕ → WorkUnit) → ℕ → ℕ → Type 0
Due units v x = ((units v).draft ≡ x) ⊎ (is_open_in x (units v).opened ≡ true)

module _ (units : ℕ → WorkUnit) (n lo : ℕ) where
  pub record IsGrown (c d : Collected) : Type 0 where
    pub doomed_kept : (v : ℕ) → includes v c.doomed ≡ true → includes v d.doomed ≡ true
    pub pending_kept : (x : ℕ) → includes x c.pending ≡ true → includes x d.pending ≡ true
    pub doomed_new :
        (v : ℕ)
        → includes v d.doomed ≡ true
        → (includes v c.doomed ≡ true) ⊎ ((v < n) × ((units v).live ≡ true) × (lo ≤ v))
    pub closed :
        (v k : ℕ)
        → includes v d.doomed ≡ true
        → includes v c.doomed ≡ false
        → includes k (units v).children ≡ true
        → includes k d.doomed ≡ true
    pub owed :
        (v : ℕ)
        → includes v d.doomed ≡ true
        → (includes v c.doomed ≡ true) ⊎ (includes (units v).draft d.pending ≡ true)
    pub due :
        (x : ℕ)
        → includes x d.pending ≡ true
        → (includes x c.pending ≡ true) ⊎ ((v : ℕ) × (includes v d.doomed ≡ true) × Due units v x)
    pub flags : (x : ℕ) → (d.drafts x).emitted ≡ (c.drafts x).emitted

  pub same-IsGrown : (c : Collected) → IsGrown c c
  same-IsGrown c = record {
    doomed_kept = λ v e. e;
    pending_kept = λ x e. e;
    doomed_new = λ v e. inl e;
    closed = λ v k e f h. absurd (ground arith);
    owed = λ v e. inl e;
    due = λ x e. inl e;
    flags = λ x. refl;
  }

  pub IsGrown-trans : (c d e : Collected) → IsGrown c d → IsGrown d e → IsGrown c e
  IsGrown-trans c d e g h = record {
    doomed_kept = λ v p. h.doomed_kept v (g.doomed_kept v p);
    pending_kept = λ x p. h.pending_kept x (g.pending_kept x p);
    doomed_new = λ v p. elim (h.doomed_new v p) [ inl q ↦ g.doomed_new v q | inr q ↦ inr q ];
    closed = λ v k p q held. elim (Bool-cases (includes v d.doomed)) [
      | inl before ↦ h.doomed_kept k (g.closed v k before q held)
      | inr after ↦ h.closed v k p after held
    ];
    owed = λ v p. elim (h.owed v p) [
      | inl before ↦ elim (g.owed v before) [
        | inl q ↦ inl q
        | inr q ↦ inr (h.pending_kept (units v).draft q)
      ]
      | inr q ↦ inr q
    ];
    due = λ x p. elim (h.due x p) [
      | inl before ↦ elim (g.due x before) [
        | inl q ↦ inl q
        | inr (v, q, owing) ↦ inr (v, h.doomed_kept v q, owing)
      ]
      | inr q ↦ inr q
    ];
    flags = λ x. h.flags x ∙ g.flags x;
  }

  -- A change of drafts that leaves their flags.
  pub written-IsGrown :
      (c : Collected) (store : ℕ → SpanDraft)
      → ((x : ℕ) → (store x).emitted ≡ (c.drafts x).emitted)
      → IsGrown c (record c { drafts = store })
  written-IsGrown c store kept = record {
    doomed_kept = λ v e. e;
    pending_kept = λ x e. e;
    doomed_new = λ v e. inl e;
    closed = λ v k e f h. absurd (ground arith);
    owed = λ v e. inl e;
    due = λ x e. inl e;
    flags = kept;
  }

pub change_flags :
    (place : ℕ) (f : SpanDraft → SpanDraft) (store : ℕ → SpanDraft) (x : ℕ)
    → ((d : SpanDraft) → (f d).emitted ≡ d.emitted)
    → (change place f store x).emitted ≡ (store x).emitted
unfolding change
change_flags place f store x kept = elim (Bool-cases (nat_eq x place)) [
  | inl e ↦ rw e (kept (store x))
  | inr e ↦ rw e refl
]

-- Nothing that a close writes on a draft says that it was emitted.
pub force_close_flag :
    (marker : Limitation) (end_ns : ℕ) (d : SpanDraft)
    → (force_close marker end_ns d).emitted ≡ d.emitted
unfolding force_close add_limitation set_status
force_close_flag marker end_ns d = refl

pub add_limitation_flag :
    (marker : Limitation) (d : SpanDraft) → (add_limitation marker d).emitted ≡ d.emitted
unfolding add_limitation
add_limitation_flag marker d = refl

pub finalize_flag :
    (e : Ending) (unit : WorkUnit) (d : SpanDraft) → (finalize_locked e unit d).emitted ≡ d.emitted
unfolding finalize_locked end_draft recorded mark_truncated set_io set_status set_error
finalize_flag e unit d = ground arith

pub note_on_flags :
    (marker : Limitation) (u : ℕ) (units : ℕ → WorkUnit) (drafts : ℕ → SpanDraft) (x : ℕ)
    → (note_on marker u units drafts x).emitted ≡ (drafts x).emitted
unfolding note_on
note_on_flags marker u units drafts x = elim (Bool-cases (units u).live) [
  | inl e ↦
      rw e
        (change_flags (units u).draft (add_limitation marker) drafts x (add_limitation_flag marker))
  | inr e ↦ rw e refl
]
