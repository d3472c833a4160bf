-- ===== src/Assembly/Ledger/Tests.antt =====
-- The ledger's theorems at concrete calls.
use wardex_sdk.Prelude.{ℕ, ◌+◌, ◌≡◌, ◌≤◌, refl, true, false, none, some, List, [], ◌∷◌, length}
use wardex_sdk.Prelude.{if◌then◌else◌, ◌==◌, ◌⊎◌, ◌&&◌, nat_eq}
use wardex_sdk.Prelude.Text.{codes}
use wardex_sdk.Prelude.Counts.{tally}
use wardex_sdk.Assembly.DropReasons.{DropReason, DropUnit}
use wardex_sdk.Assembly.DropReasons.Keys.{Key, key_Eq}
use wardex_sdk.Assembly.Ledger.State.{Ledger, Report, Envelope, at_fork_reinit}
use wardex_sdk.Assembly.Ledger.Wire.{cut_held, is_empty, new_report, rest_of, sort_keys}
use wardex_sdk.Assembly.Ledger.Operations.{
  record_loss, unsent, already_unsent, forget_oid, unsent_cap,
}
use wardex_sdk.Assembly.Ledger.Amounts.{counted, accounted, amount}
use wardex_sdk.Assembly.Ledger.Identity.{IsStore}
use wardex_sdk.Assembly.Ledger.Run.{
  Call, records, attaches, fails, finishes, run, delivered_in, counted-run, run-IsStore,
}
use wardex_sdk.Assembly.Ledger.Recorded.{key_of, counted-record_loss}
use wardex_sdk.Assembly.Ledger.Bounds.{IsCut, cut_held-IsCut}
use wardex_sdk.Assembly.Ledger.Failures.{unsent-unsent}
use wardex_sdk.Assembly.Ledger.Cut.{amount-new_report}

abbrev blank : Ledger
blank = record {
  inbox = [];
  totals = [];
  sites = [];
  pending = [];
  failed_sends = 0;
  unacked = [];
  undeliverable = [];
  settled = [];
  out = [];
  unsent = [];
  last_timestamp = 0;
  last_solo = none;
  started = 0;
  next_oid = 0;
}

abbrev batch : Envelope
batch = record { oid = 100; spans = 3; state_snapshots = 1; client_reports = [] }

abbrev lost_spans : Key
lost_spans = (DropReason.network_error, DropUnit.span)

-- A report goes out, may have arrived, goes out again and is delivered.
abbrev first_report : Report
first_report = record {
  oid = 0;
  timestamp_ns = 50;
  discarded_events = (codes "network_error:span", 3) ∷ [];
  failed_sends = 0;
  queue_depth = 2;
  uptime_ms = 7;
}

abbrev carried : ℕ → Envelope
carried i = record batch { oid = i; client_reports = first_report ∷ [] }

abbrev history : List Call
history =
    records true DropReason.network_error 3 none none
    ∷ attaches true true 2 50 7 batch
    ∷ fails true false false (carried 1)
    ∷ attaches true true 2 60 9 batch
    ∷ finishes true (carried 2)
    ∷ []

counted-run_example :
    counted lost_spans (run history (at_fork_reinit 0 blank))
    ≡ accounted lost_spans (run history (at_fork_reinit 0 blank))
      + delivered_in lost_spans history (at_fork_reinit 0 blank)
counted-run_example = counted-run lost_spans 0 blank history

run-IsStore_example : IsStore (run history (at_fork_reinit 0 blank))
run-IsStore_example = run-IsStore 0 blank history

counted-record_loss_example :
    counted lost_spans (record_loss true DropReason.network_error 3 none none blank)
    ≡ counted lost_spans blank
      + (if key_of DropReason.network_error none == lost_spans then 3 else 0)
counted-record_loss_example =
    counted-record_loss lost_spans true DropReason.network_error 3 none none blank

abbrev waiting : Ledger
waiting = record blank { pending = (lost_spans, 2147483650) ∷ []; next_oid = 4 }

cut_held-IsCut_example :
    ((is_empty waiting.pending && nat_eq waiting.failed_sends 0) ≡ true)
      × (cut_held 2 50 7 waiting ≡ (none, waiting))
    ⊎ (r : Report) × (t : Ledger) × (cut_held 2 50 7 waiting ≡ (some r, t)) × IsCut 7 waiting r t
cut_held-IsCut_example = cut_held-IsCut 2 50 7 waiting

amount-new_report_example :
    amount lost_spans (new_report 2 50 7 waiting)
      + tally lost_spans (rest_of (sort_keys waiting.pending))
    ≡ tally lost_spans waiting.pending
amount-new_report_example = amount-new_report lost_spans 2 50 7 waiting

unsent-unsent_example :
    let t = (unsent true false false (carried 1) waiting).1 in
    ((unsent true false false (carried 1) waiting).0 ≡ true)
    × (length t.unsent ≤ unsent_cap)
    × (unsent true true true (carried 1) t
        ≡ (false, if true then record t { unsent = forget_oid 1 t.unsent } else t))
unsent-unsent_example =
    unsent-unsent true true false true true (carried 1) waiting (unfold already_unsent in refl)
