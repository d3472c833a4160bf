-- ===== src/Assembly/Ledger/Bounds.antt =====
-- What the ledger holds at most, and what a report may say on the wire.
use wardex_sdk.Prelude.{
  ℕ, zero, suc, ◌+◌, ◌-◌, ◌≡◌, ◌≤◌, ◌<◌, ◌⊎◌, refl, inl, inr, Bool, true, false, ◌&&◌, Option, none,
  some, List, [], ◌∷◌, ◌++◌, arith, nat_eq, length, length-append, Bool-cases, All,
}
use wardex_sdk.Prelude.Text.{Text}
use wardex_sdk.Prelude.Counts.{Table, tally}
use wardex_sdk.Assembly.DropReasons.{DropReason, DropUnit}
use wardex_sdk.Assembly.DropReasons.Keys.{Key, key_Eq}
use wardex_sdk.Assembly.Ledger.State.{Ledger, Report, Outcome, find_out, put_out, remove_oldest}
use wardex_sdk.Assembly.Ledger.Wire.{
  cut_held, cut_state, new_report, events_of, sort_keys, is_empty, int32_max,
}
use wardex_sdk.Assembly.Ledger.Fold.{
  fold_inbox, fold_held, evict, evict_over, hold_unacked, settle_out, settle_one, settle_all,
  unacked_cap,
}
use wardex_sdk.Assembly.Ledger.Operations.{entry_of, record_loss, fold_at}
use wardex_sdk.Assembly.Ledger.Amounts.{amount}
use wardex_sdk.Assembly.Ledger.Cut.{amount-new_report}
use wardex_sdk.Assembly.Ledger.Balance.{fold_entries-SameReports}

events_of-bounded : (t : Table Key) → All (λ e. e.1 ≤ int32_max) (events_of t)
unfolding events_of
events_of-bounded [] = tt
events_of-bounded ((k, n) ∷ t) = (omega arith, events_of-bounded t)

-- What is promised of a report that is cut, and of the ledger that it is cut from.
pub record IsCut (now : ℕ) (s : Ledger) (r : Report) (t : Ledger) : Type 0 where
  pub events_fit : All (λ e. e.1 ≤ int32_max) r.discarded_events
  pub sends_fit : r.failed_sends ≤ int32_max
  pub depth_fits : r.queue_depth ≤ int32_max
  pub later : s.last_timestamp < r.timestamp_ns
  pub stamped : t.last_timestamp ≡ r.timestamp_ns
  pub sends_kept : t.failed_sends + r.failed_sends ≡ s.failed_sends
  pub counts_kept : (k : Key) → amount k r + tally k t.pending ≡ tally k s.pending
  pub uptime : r.uptime_ms ≡ now - s.started
  pub out_fresh : find_out r.oid t.out ≡ some (r, true)

find_out-put_out :
    (r : Report) (out : List (Report × Bool)) → find_out r.oid (put_out r true out) ≡ some (r, true)
unfolding find_out put_out
find_out-put_out r [] = ground arith
find_out-put_out r ((q, b) ∷ out) = ground (arith, find_out-put_out r out)

new_report-IsCut :
    (queue_depth time now : ℕ) (s : Ledger)
    → IsCut now s (new_report queue_depth time now s) (cut_state queue_depth time now s)
unfolding new_report cut_state
new_report-IsCut queue_depth time now s = record {
  events_fit = events_of-bounded (sort_keys s.pending);
  sends_fit = omega arith;
  depth_fits = omega arith;
  later = omega arith;
  stamped = refl;
  sends_kept = omega arith;
  counts_kept = λ k. amount-new_report k queue_depth time now s;
  uptime = refl;
  out_fresh = find_out-put_out (new_report queue_depth time now s) s.out;
}

-- A report is cut unless there is nothing to say. Its counts, its failed sends and its queue depth
-- fit an int32, its uptime is the time since the ledger started, its time is later than every earlier
-- report's and becomes the ledger's last time, the counts of every key and the failed sends that it
-- does not carry stay, and it is out as a fresh report.
pub cut_held-IsCut :
    (queue_depth time now : ℕ) (s : Ledger)
    → ((is_empty s.pending && nat_eq s.failed_sends 0) ≡ true)
        × (cut_held queue_depth time now s ≡ (none, s))
      ⊎ (r : Report) × (t : Ledger) × (cut_held queue_depth time now s ≡ (some r, t))
        × IsCut now s r t
unfolding cut_held
cut_held-IsCut queue_depth time now s =
    elim (Bool-cases (is_empty s.pending && nat_eq s.failed_sends 0)) [
      | inl idle ↦ inl (idle, rw idle)
      | inr busy ↦ inr (
        new_report queue_depth time now s,
        cut_state queue_depth time now s,
        rw busy,
        new_report-IsCut queue_depth time now s,
      )
    ]

length-remove_oldest : (r : Report) (rs : List Report) → length (remove_oldest r rs) ≡ length rs
unfolding remove_oldest
length-remove_oldest r [] = refl
length-remove_oldest r (q ∷ qs) = ground (arith, length-remove_oldest q qs)

evict-length :
    (rs : List Report) (s : Ledger) → s.unacked ≡ rs → length (evict rs s).unacked ≤ length rs - 1
unfolding evict
evict-length [] s e = rw e (omega arith)
evict-length (r ∷ rs) s e = omega (arith, length-remove_oldest r rs)

-- As many rounds as there are reports are enough.
evict_over-bounded :
    (n : ℕ) (s : Ledger)
    → length s.unacked ≤ unacked_cap + n
    → length (evict_over n s).unacked ≤ unacked_cap
unfolding evict_over
evict_over-bounded zero s h = omega arith
evict_over-bounded (suc n) s h =
    ground (arith, evict-length s.unacked s refl, evict_over-bounded n (evict s.unacked s))

hold_unacked-bounded : (r : Report) (s : Ledger) → length (hold_unacked r s).unacked ≤ unacked_cap
unfolding hold_unacked
hold_unacked-bounded r s =
    let t = record s { unacked = s.unacked ++ (r ∷ []) } in
    evict_over-bounded (length t.unacked) t (omega arith)

settle_out-bounded :
    (outcome : Outcome) (o : Option (Report × Bool)) (s : Ledger)
    → length s.unacked ≤ unacked_cap
    → length (settle_out outcome o s).unacked ≤ unacked_cap
unfolding settle_out
settle_out-bounded none none s h = h
settle_out-bounded (some d) none s h = h
settle_out-bounded none (some (r, fresh)) s h = h
settle_out-bounded (some false) (some (r, fresh)) s h = hold_unacked-bounded r s
settle_out-bounded (some true) (some (r, false)) s h = hold_unacked-bounded r s
settle_out-bounded (some true) (some (r, true)) s h = h

settle_all-bounded :
    (rest : List (Report × Outcome)) (s : Ledger)
    → length s.unacked ≤ unacked_cap
    → length (settle_all rest s).unacked ≤ unacked_cap
unfolding settle_all settle_one
settle_all-bounded [] s h = h
settle_all-bounded ((r, outcome) ∷ rest) s h =
    settle_all-bounded rest (settle_one r outcome s)
      (unfold settle_one in settle_out-bounded outcome (find_out r.oid s.out) s h)

-- However many reports of unknown fate are settled in one fold, at most eight are kept.
pub fold_held-bounded :
    (s : Ledger) → length s.unacked ≤ unacked_cap → length (fold_held s).unacked ≤ unacked_cap
unfolding fold_held fold_inbox
fold_held-bounded s h =
    settle_all-bounded (fold_inbox s).settled (fold_inbox s)
      (unfold fold_inbox in rw ((fold_entries-SameReports s.inbox s).unacked) h)

-- A call of `record` that gets the fold leaves fewer than 64 entries waiting.
pub record_loss-bounded :
    (r : DropReason) (n : ℕ) (u : Option DropUnit) (w : Option Text) (s : Ledger)
    → length s.inbox < fold_at
    → length (record_loss true r n u w s).inbox < fold_at
unfolding record_loss fold_inbox
record_loss-bounded r n u w s h = ground (arith, length-append s.inbox (entry_of r n u w ∷ []))
