-- ===== src/Assembly/Ledger/Identity.antt =====
-- One report object is in one place: held for resending or out, and never twice.
use wardex_sdk.Prelude.{
  ℕ, zero, suc, ◌+◌, ◌≡◌, ◌≤◌, ◌∙◌, refl, inl, inr, Bool, true, false, Option, none, some, List, [],
  ◌∷◌, ◌++◌, arith, ltb, length, Bool-cases,
}
use wardex_sdk.Assembly.Ledger.State.{Ledger, Report, Outcome, find_out}
use wardex_sdk.Assembly.Ledger.Fold.{
  fold_inbox, evict, evict_over, hold_unacked, settle_out, settle_one, settle_all, fold_held,
  unacked_cap,
}
use wardex_sdk.Assembly.Ledger.Amounts.{
  weigh, weigh_out, found, is, weigh-append, weigh_out-pop_out, weigh-remove_oldest,
}
use wardex_sdk.Assembly.Ledger.Balance.{fold_entries-SameReports, settle_out-out}

-- The weight of all reports that the ledger has.
unfoldable pub load : (Report → ℕ) → Ledger → ℕ
load f s = weigh f s.unacked + weigh_out f s.out

-- Every identity occurs once at most, and none occurs that is yet to be given out.
pub record IsStore (s : Ledger) : Type 0 where
  pub once : (i : ℕ) → load (is i) s ≤ 1
  pub fresh : (i : ℕ) → s.next_oid ≤ i → load (is i) s ≡ 0

-- A step that adds no report and gives out no identity.
pub record Shrinks (s t : Ledger) : Type 0 where
  pub load_le : (f : Report → ℕ) → load f t ≤ load f s
  pub next_oid : t.next_oid ≡ s.next_oid

pub Shrinks-IsStore : {s t : Ledger} → Shrinks s t → IsStore s → IsStore t
Shrinks-IsStore {s} {t} h v = record {
  once = λ i. omega (arith, h.load_le (is i), v.once i);
  fresh = λ i le. omega (arith, h.load_le (is i), v.fresh i (omega (arith, h.next_oid)));
}

Shrinks-trans : {s t u : Ledger} → Shrinks s t → Shrinks t u → Shrinks s u
Shrinks-trans h k = record {
  load_le = λ f. omega (arith, h.load_le f, k.load_le f);
  next_oid = k.next_oid ∙ h.next_oid;
}

evict-le :
    (f : Report → ℕ) (rs : List Report) (s : Ledger)
    → s.unacked ≡ rs
    → weigh f (evict rs s).unacked ≤ weigh f s.unacked
unfolding evict
evict-le f [] s e = omega arith
evict-le f (r ∷ rs) s e = rw e (omega (arith, weigh-remove_oldest f r rs))

evict_over-le :
    (f : Report → ℕ) (n : ℕ) (s : Ledger) → weigh f (evict_over n s).unacked ≤ weigh f s.unacked
unfolding evict_over
evict_over-le f zero s = omega arith
evict_over-le f (suc n) s = elim (Bool-cases (ltb unacked_cap (length s.unacked))) [
  | inl more ↦
      rw more (omega (arith, evict-le f s.unacked s refl, evict_over-le f n (evict s.unacked s)))
  | inr few ↦ rw few (omega arith)
]

evict-next_oid : (rs : List Report) (s : Ledger) → (evict rs s).next_oid ≡ s.next_oid
unfolding evict
evict-next_oid [] s = refl
evict-next_oid (r ∷ rs) s = refl

evict_over-next_oid : (n : ℕ) (s : Ledger) → (evict_over n s).next_oid ≡ s.next_oid
unfolding evict_over
evict_over-next_oid zero s = refl
evict_over-next_oid (suc n) s =
    ground (arith, evict_over-next_oid n (evict s.unacked s), evict-next_oid s.unacked s)

-- A report held again weighs what it weighs, and what is given up weighs no more.
record Holds (r : Report) (s t : Ledger) : Type 0 where
  load_le : (f : Report → ℕ) → weigh f t.unacked ≤ weigh f s.unacked + f r
  next_oid : t.next_oid ≡ s.next_oid

hold_unacked-Holds : (r : Report) (s : Ledger) → Holds r s (hold_unacked r s)
unfolding hold_unacked weigh
hold_unacked-Holds r s =
    let t = record s { unacked = s.unacked ++ (r ∷ []) } in
    record {
      load_le = λ f.
          omega (arith, evict_over-le f (length t.unacked) t, weigh-append f s.unacked (r ∷ []));
      next_oid = evict_over-next_oid (length t.unacked) t;
    }

settle_out-le :
    (f : Report → ℕ) (outcome : Outcome) (o : Option (Report × Bool)) (s : Ledger)
    → weigh f (settle_out outcome o s).unacked ≤ weigh f s.unacked + found f o
unfolding settle_out
settle_out-le f none none s = omega arith
settle_out-le f (some d) none s = omega arith
settle_out-le f none (some (r, fresh)) s = omega arith
settle_out-le f (some false) (some (r, fresh)) s = (hold_unacked-Holds r s).load_le f
settle_out-le f (some true) (some (r, false)) s = (hold_unacked-Holds r s).load_le f
settle_out-le f (some true) (some (r, true)) s = omega arith

settle_out-next_oid :
    (outcome : Outcome) (o : Option (Report × Bool)) (s : Ledger)
    → (settle_out outcome o s).next_oid ≡ s.next_oid
unfolding settle_out
settle_out-next_oid none none s = refl
settle_out-next_oid (some d) none s = refl
settle_out-next_oid none (some (r, fresh)) s = refl
settle_out-next_oid (some false) (some (r, fresh)) s = (hold_unacked-Holds r s).next_oid
settle_out-next_oid (some true) (some (r, false)) s = (hold_unacked-Holds r s).next_oid
settle_out-next_oid (some true) (some (r, true)) s = refl

settle_one-Shrinks :
    (r : Report) (outcome : Outcome) (s : Ledger) → Shrinks s (settle_one r outcome s)
unfolding settle_one load
settle_one-Shrinks r outcome s =
    let o = find_out r.oid s.out in
    rw (settle_out-out outcome o s) (record {
      load_le = λ f. omega (arith, settle_out-le f outcome o s, weigh_out-pop_out f r.oid s.out);
      next_oid = settle_out-next_oid outcome o s;
    })

settle_all-Shrinks : (rest : List (Report × Outcome)) (s : Ledger) → Shrinks s (settle_all rest s)
unfolding settle_all
settle_all-Shrinks [] s = record { load_le = λ f. omega arith; next_oid = refl }
settle_all-Shrinks ((r, outcome) ∷ rest) s =
    Shrinks-trans (settle_one-Shrinks r outcome s)
      (settle_all-Shrinks rest (settle_one r outcome s))

pub fold_inbox-Shrinks : (s : Ledger) → Shrinks s (fold_inbox s)
unfolding fold_inbox load
fold_inbox-Shrinks s =
    let same = fold_entries-SameReports s.inbox s in
    rw (same.unacked, same.out) (record { load_le = λ f. omega arith; next_oid = same.next_oid })

pub fold_held-Shrinks : (s : Ledger) → Shrinks s (fold_held s)
unfolding fold_held
fold_held-Shrinks s =
    Shrinks-trans (fold_inbox-Shrinks s)
      (forget (settle_all-Shrinks (fold_inbox s).settled (fold_inbox s)))
  where
    forget : {u t : Ledger} → Shrinks u t → Shrinks u (record t { settled = [] })
    forget h = unfold load in record { load_le = h.load_le; next_oid = h.next_oid }
