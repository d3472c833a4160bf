-- ===== src/Assembly/Ledger/Balance.antt =====
-- The fold loses nothing: what it changes of the counts, it changes of what is accounted for.
use wardex_sdk.Prelude.{
  ℕ, zero, suc, ◌+◌, ◌≡◌, refl, inl, inr, Bool, true, false, Option, none, some, List, [], ◌∷◌,
  ◌++◌, arith, ltb, length, Bool-cases,
}
use wardex_sdk.Prelude.Counts.{tally, tally-add, tally-add_all}
use wardex_sdk.Assembly.DropReasons.Keys.{Key, key_Eq}
use wardex_sdk.Assembly.Ledger.State.{
  Ledger, Report, Entry, Outcome, items, failed_send, find_out, pop_out, oldest,
}
use wardex_sdk.Assembly.Ledger.Wire.{keys_of}
use wardex_sdk.Assembly.Ledger.Fold.{
  fold_entry, fold_entries, fold_inbox, evict, evict_over, hold_unacked, settle_out, settle_one,
  settle_all, fold_held, overflow_key, unacked_cap,
}
use wardex_sdk.Assembly.Ledger.Amounts.{
  weigh, found, amount, inbox_amount, counted, held, accounted, weigh-append, weigh_out-pop_out,
  weigh-remove_oldest,
}

-- From `s` to `t` as much of a key is counted as is accounted for and delivered.
abbrev pub Balanced : Key → Ledger → Ledger → ℕ → Type 0
Balanced k s t delivered = counted k t + accounted k s ≡ counted k s + (accounted k t + delivered)

-- What one settlement confirms as delivered.
unfoldable pub delivered_amount : Key → Outcome → Option (Report × Bool) → ℕ
delivered_amount k none o = found (amount k) o
delivered_amount k (some definite) o = 0

-- What the settlements of a fold confirm as delivered: the reports that were out when their drain
-- was done.
unfoldable pub confirmed : Key → List (Report × Outcome) → Ledger → ℕ
unfolding delivered_amount
confirmed k [] s = 0
confirmed k ((r, outcome) ∷ rest) s =
    delivered_amount k outcome (find_out r.oid s.out) + confirmed k rest (settle_one r outcome s)

-- The same balance for what is not out.
abbrev HeldBalanced : Key → Ledger → Ledger → ℕ → Type 0
HeldBalanced k s t gone = counted k t + held k s ≡ counted k s + (held k t + gone)

-- The tables after entries are folded, with those entries no longer waiting.
module _ (k : Key) where
  fold_entries-totals :
      (es : List Entry) (s : Ledger)
      → tally k (fold_entries es s).totals ≡ tally k s.totals + inbox_amount k es
  unfolding fold_entries inbox_amount
  fold_entries-totals [] s = omega arith
  fold_entries-totals (failed_send n ∷ es) s = fold_entries-totals es (fold_entry (failed_send n) s)
  fold_entries-totals (items j n w ∷ es) s =
      omega (arith, fold_entries-totals es (fold_entry (items j n w) s), tally-add k j n s.totals)

  fold_entries-pending :
      (es : List Entry) (s : Ledger)
      → tally k (fold_entries es s).pending ≡ tally k s.pending + inbox_amount k es
  unfolding fold_entries inbox_amount
  fold_entries-pending [] s = omega arith
  fold_entries-pending (failed_send n ∷ es) s =
      fold_entries-pending es (fold_entry (failed_send n) s)
  fold_entries-pending (items j n w ∷ es) s =
      omega (arith, fold_entries-pending es (fold_entry (items j n w) s), tally-add k j n s.pending)

-- Folding entries touches no report.
pub record SameReports (s t : Ledger) : Type 0 where
  pub unacked : t.unacked ≡ s.unacked
  pub out : t.out ≡ s.out
  pub undeliverable : t.undeliverable ≡ s.undeliverable
  pub settled : t.settled ≡ s.settled
  pub next_oid : t.next_oid ≡ s.next_oid

pub fold_entries-SameReports : (es : List Entry) (s : Ledger) → SameReports s (fold_entries es s)
unfolding fold_entries
fold_entries-SameReports [] s = record {
  unacked = refl;
  out = refl;
  undeliverable = refl;
  settled = refl;
  next_oid = refl;
}
fold_entries-SameReports (e ∷ es) s =
    ground (arith, fold_entries-SameReports es (fold_entry e s), fold_entry-SameReports e s)
  where
    fold_entry-SameReports : (e : Entry) (s : Ledger) → SameReports s (fold_entry e s)
    fold_entry-SameReports (items k n w) s = record {
      unacked = refl;
      out = refl;
      undeliverable = refl;
      settled = refl;
      next_oid = refl;
    }
    fold_entry-SameReports (failed_send n) s = record {
      unacked = refl;
      out = refl;
      undeliverable = refl;
      settled = refl;
      next_oid = refl;
    }

-- No settlement changes what is out, but for the report it settles.
evict-out : (rs : List Report) (s : Ledger) → (evict rs s).out ≡ s.out
unfolding evict
evict-out [] s = refl
evict-out (r ∷ rs) s = refl

evict_over-out : (n : ℕ) (s : Ledger) → (evict_over n s).out ≡ s.out
unfolding evict_over
evict_over-out zero s = refl
evict_over-out (suc n) s =
    ground (arith, evict_over-out n (evict s.unacked s), evict-out s.unacked s)

hold_unacked-out : (r : Report) (s : Ledger) → (hold_unacked r s).out ≡ s.out
unfolding hold_unacked
hold_unacked-out r s =
    let t = record s { unacked = s.unacked ++ (r ∷ []) } in evict_over-out (length t.unacked) t

pub settle_out-out :
    (outcome : Outcome) (o : Option (Report × Bool)) (s : Ledger)
    → (settle_out outcome o s).out ≡ s.out
unfolding settle_out
settle_out-out none none s = refl
settle_out-out (some d) none s = refl
settle_out-out none (some (r, fresh)) s = refl
settle_out-out (some false) (some (r, fresh)) s = hold_unacked-out r s
settle_out-out (some true) (some (r, false)) s = hold_unacked-out r s
settle_out-out (some true) (some (r, true)) s = refl

module _ (k : Key) where
  pub fold_inbox-Balanced : (s : Ledger) → Balanced k s (fold_inbox s) 0
  unfolding fold_inbox counted accounted inbox_amount
  fold_inbox-Balanced s =
      let same = fold_entries-SameReports s.inbox s in
      rw (same.unacked, same.out, same.undeliverable)
        (omega (arith, fold_entries-totals k s.inbox s, fold_entries-pending k s.inbox s))

  pub counted-fold_inbox : (s : Ledger) → counted k (fold_inbox s) ≡ counted k s
  unfolding fold_inbox counted inbox_amount
  counted-fold_inbox s = omega (arith, fold_entries-totals k s.inbox s)

  evict-HeldBalanced :
      (s : Ledger) (rs : List Report) → s.unacked ≡ rs → HeldBalanced k s (evict rs s) 0
  unfolding evict counted held
  evict-HeldBalanced s [] e = omega arith
  evict-HeldBalanced s (r ∷ rs) e = rw e (
      omega (
        arith,
        weigh-remove_oldest (amount k) r rs,
        tally-add k overflow_key 1 s.totals,
        tally-add k overflow_key 1 s.pending,
        tally-add_all k (keys_of (oldest r rs)) s.undeliverable,
        amount_tally (oldest r rs),
      ))
    where
      amount_tally : (r : Report) → amount k r ≡ tally k (keys_of r)
      amount_tally r = unfold amount in refl

  evict_over-HeldBalanced : (n : ℕ) (s : Ledger) → HeldBalanced k s (evict_over n s) 0
  unfolding evict_over
  evict_over-HeldBalanced zero s = omega arith
  evict_over-HeldBalanced (suc n) s = elim (Bool-cases (ltb unacked_cap (length s.unacked))) [
    | inl more ↦ rw more (
        omega (
          arith,
          evict-HeldBalanced s s.unacked refl,
          evict_over-HeldBalanced n (evict s.unacked s),
        ))
    | inr few ↦ rw few (omega arith)
  ]

  -- A report held for resending is accounted for, whatever it pushes out.
  hold_unacked-HeldBalanced :
      (r : Report) (s : Ledger)
      → counted k (hold_unacked r s) + (held k s + amount k r)
        ≡ counted k s + held k (hold_unacked r s)
  unfolding hold_unacked
  hold_unacked-HeldBalanced r s = omega (arith, evict_over-HeldBalanced (length t.unacked) t, grown)
    where
      t : Ledger
      t = record s { unacked = s.unacked ++ (r ∷ []) }

      grown : (held k t ≡ held k s + amount k r) × (counted k t ≡ counted k s)
      grown =
          unfold held counted weigh in
          (omega (arith, weigh-append (amount k) s.unacked (r ∷ [])), refl)

  settle_out-HeldBalanced :
      (outcome : Outcome) (o : Option (Report × Bool)) (s : Ledger)
      → counted k (settle_out outcome o s) + (held k s + found (amount k) o)
        ≡ counted k s + (held k (settle_out outcome o s) + delivered_amount k outcome o)
  unfolding settle_out delivered_amount
  settle_out-HeldBalanced none none s = omega arith
  settle_out-HeldBalanced (some d) none s = omega arith
  settle_out-HeldBalanced none (some (r, fresh)) s = omega arith
  settle_out-HeldBalanced (some false) (some (r, fresh)) s =
      omega (arith, hold_unacked-HeldBalanced r s)
  settle_out-HeldBalanced (some true) (some (r, false)) s =
      omega (arith, hold_unacked-HeldBalanced r s)
  settle_out-HeldBalanced (some true) (some (r, true)) s =
      unfold counted held amount in omega (arith, tally-add_all k (keys_of r) s.pending)

  settle_one-Balanced :
      (r : Report) (outcome : Outcome) (s : Ledger)
      → Balanced k s (settle_one r outcome s) (delivered_amount k outcome (find_out r.oid s.out))
  unfolding settle_one accounted
  settle_one-Balanced r outcome s = rw (settle_out-out outcome (find_out r.oid s.out) s) (
      omega (
        arith,
        settle_out-HeldBalanced outcome (find_out r.oid s.out) s,
        weigh_out-pop_out (amount k) r.oid s.out,
        popped (settle_out outcome (find_out r.oid s.out) s) (pop_out r.oid s.out),
      ))
    where
      popped :
          (t : Ledger) (out : List (Report × Bool))
          → (held k (record t { out = out }) ≡ held k t)
            × (counted k (record t { out = out }) ≡ counted k t)
      popped t out = unfold held counted in (refl, refl)

  settle_all-Balanced :
      (rest : List (Report × Outcome)) (s : Ledger)
      → Balanced k s (settle_all rest s) (confirmed k rest s)
  unfolding settle_all confirmed
  settle_all-Balanced [] s = omega arith
  settle_all-Balanced ((r, outcome) ∷ rest) s =
      omega
        (arith, settle_one-Balanced r outcome s, settle_all-Balanced rest (settle_one r outcome s))

  -- Folding loses no count and makes none up: each loss counted before or by the fold is held, is
  -- out with a report, is given up as undeliverable, or was delivered with a report that was done.
  pub fold_held-Balanced :
      (s : Ledger) → Balanced k s (fold_held s) (confirmed k (fold_inbox s).settled (fold_inbox s))
  unfolding fold_held
  fold_held-Balanced s = omega (
    arith,
    fold_inbox-Balanced s,
    settle_all-Balanced (fold_inbox s).settled (fold_inbox s),
    forgotten (settle_all (fold_inbox s).settled (fold_inbox s)),
  )
    where
      forgotten :
          (t : Ledger)
          → (accounted k (record t { settled = [] }) ≡ accounted k t)
            × (counted k (record t { settled = [] }) ≡ counted k t)
      forgotten t = unfold accounted counted in (refl, refl)
