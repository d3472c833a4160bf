-- ===== src/Assembly/Ledger/Run.antt =====
-- The ledger over any sequence of calls.
use wardex_sdk.Prelude.{
  ℕ, ◌+◌, ◌≡◌, refl, inl, inr, Bool, true, not, ◌||◌, Option, none, some, List, [], ◌∷◌, arith, leb,
  length, Bool-cases, if◌then◌else◌,
}
use wardex_sdk.Prelude.Text.{Text}
use wardex_sdk.Prelude.Counts.{tally}
use wardex_sdk.Assembly.DropReasons.{DropReason, DropUnit}
use wardex_sdk.Assembly.DropReasons.Keys.{Key, key_Eq}
use wardex_sdk.Assembly.Ledger.State.{Ledger, Envelope, failed_send, at_fork_reinit}
use wardex_sdk.Assembly.Ledger.Wire.{is_empty}
use wardex_sdk.Assembly.Ledger.Operations.{
  append_entry, record_loss, record_items, record_failed_send, expedite, attach, out_in,
  already_unsent, remember_unsent, settle_later, unsent, done, snapshot, forget_oid, fold_at,
}
use wardex_sdk.Assembly.Ledger.Amounts.{weigh, weigh_out, inbox_amount, counted, held, accounted}
use wardex_sdk.Assembly.Ledger.Identity.{load, IsStore}
use wardex_sdk.Assembly.Ledger.Steps.{
  IsStep, pass, kept, then-IsStep, recount-IsStep, idle-IsStep, append_entry-IsStep,
  try_fold-IsStep, record_loss-IsStep, record_items-IsStep, attach-IsStep, settle_and_fold-IsStep,
  settle_later-IsStep, unsent_once-IsStep, unsent_again-IsStep, expedite-IsStep,
}

-- A call into the ledger, with what `_free()` answers, the clocks and the transport's answer.
pub data Call : Type 0 where
  records : Bool → DropReason → ℕ → Option DropUnit → Option Text → Call
  records_items : Bool → Bool → DropReason → ℕ → ℕ → Option Text → Call
  records_failed_send reads_snapshot : Bool → Call
  attaches : Bool → Bool → ℕ → ℕ → ℕ → Envelope → Call
  fails : Bool → Bool → Bool → Envelope → Call
  finishes : Bool → Envelope → Call
  expedites : Call

unfoldable pub step : Call → Ledger → Ledger
step (records free r n u w) s = record_loss free r n u w s
step (records_items free free' r spans snapshots w) s =
    record_items free free' r spans snapshots w s
step (records_failed_send free) s = record_failed_send free s
step (reads_snapshot free) s = (snapshot free s).1
step (attaches free carries queue_depth time now e) s =
    (attach free carries queue_depth time now e s).1
step (fails free definite last e) s = (unsent free definite last e s).1
step (finishes free e) s = done free e s
step expedites s = expedite s

unfoldable pub run : List Call → Ledger → Ledger
unfolding step
run [] s = s
run (c ∷ cs) s = run cs (step c s)

-- What a call confirms as delivered: what the fold that it makes settles as done.
unfoldable pub delivered : Key → Call → Ledger → ℕ
delivered k (records free r n u w) s = 0
delivered k (records_items free free' r spans snapshots w) s = 0
delivered k (records_failed_send free) s =
    let t = append_entry (failed_send 1) s in
    if leb fold_at (length t.inbox) then pass k free t else 0
delivered k (reads_snapshot free) s = pass k free s
delivered k (attaches free carries queue_depth time now e) s =
    if not carries || not free then 0 else pass k true s
delivered k (fails free definite last e) s =
    if already_unsent e s
    then 0
    else let t = if last then s else remember_unsent e s in
      pass k free (settle_later (some definite) (out_in e t) t)
delivered k (finishes free e) s =
    let t = record s { unsent = forget_oid e.oid s.unsent } in
    let u = settle_later none (out_in e t) t in if is_empty (out_in e t) then 0 else pass k free u
delivered k expedites s = 0

unfoldable pub delivered_in : Key → List Call → Ledger → ℕ
delivered_in k [] s = 0
delivered_in k (c ∷ cs) s = delivered k c s + delivered_in k cs (step c s)

module _ (k : Key) where
  unsent-IsStep :
      (free definite last : Bool) (e : Envelope) (s : Ledger)
      → IsStore s
      → IsStep k s (unsent free definite last e s).1 (delivered k (fails free definite last e) s)
  unfolding unsent delivered
  unsent-IsStep free definite last e s v = elim (Bool-cases (already_unsent e s)) [
    | inl again ↦ rw again (unsent_again-IsStep k last e s v)
    | inr first ↦ rw first (unsent_once-IsStep k free definite last e s v)
  ]

  done-IsStep :
      (free : Bool) (e : Envelope) (s : Ledger)
      → IsStore s
      → IsStep k s (done free e s) (delivered k (finishes free e) s)
  unfolding done delivered
  done-IsStep free e s v =
      let t = record s { unsent = forget_oid e.oid s.unsent } in
      let f : IsStep k s t 0 = kept k s t v refl refl refl refl refl refl (omega arith) in
      elim (Bool-cases (is_empty (out_in e t))) [
        | inl nothing ↦
            rw nothing (then-IsStep k f (settle_later-IsStep k none (out_in e t) t f.store))
        | inr reports ↦ rw reports (
            recount-IsStep k
              (then-IsStep k f (settle_and_fold-IsStep k free none (out_in e t) t f.store))
              (omega arith))
      ]

  record_failed_send-IsStep :
      (free : Bool) (s : Ledger)
      → IsStore s
      → IsStep k s (record_failed_send free s) (delivered k (records_failed_send free) s)
  unfolding record_failed_send delivered
  record_failed_send-IsStep free s v =
      let t = append_entry (failed_send 1) s in
      let f = append_entry-IsStep k (failed_send 1) s v in
      elim (Bool-cases (leb fold_at (length t.inbox))) [
        | inl full ↦
            rw full
              (recount-IsStep k (then-IsStep k f (try_fold-IsStep k free t f.store)) (omega arith))
        | inr more ↦ rw more f
      ]

  pub step-IsStep : (c : Call) (s : Ledger) → IsStore s → IsStep k s (step c s) (delivered k c s)
  unfolding step delivered
  step-IsStep (records free r n u w) s v = record_loss-IsStep k free r n u w s v
  step-IsStep (records_items free free' r spans snapshots w) s v =
      record_items-IsStep k free free' r spans snapshots w s v
  step-IsStep (records_failed_send free) s v = record_failed_send-IsStep free s v
  step-IsStep (reads_snapshot free) s v = unfold snapshot in try_fold-IsStep k free s v
  step-IsStep (attaches free carries queue_depth time now e) s v =
      attach-IsStep k free carries queue_depth time now e s v
  step-IsStep (fails free definite last e) s v = unsent-IsStep free definite last e s v
  step-IsStep (finishes free e) s v = done-IsStep free e s v
  step-IsStep expedites s v = expedite-IsStep k s v

  run-IsStep :
      (cs : List Call) (s : Ledger) → IsStore s → IsStep k s (run cs s) (delivered_in k cs s)
  unfolding run delivered_in
  run-IsStep [] s v = idle-IsStep k s v
  run-IsStep (c ∷ cs) s v =
      let f = step-IsStep c s v in then-IsStep k f (run-IsStep cs (step c s) f.store)

at_fork_reinit-IsStore : (now : ℕ) (s : Ledger) → IsStore (at_fork_reinit now s)
unfolding at_fork_reinit load weigh weigh_out
at_fork_reinit-IsStore now s = record { once = λ i. omega arith; fresh = λ i le. omega arith }

-- From a fresh ledger, after any calls in any order, with the fold to be had or not, the losses
-- counted of each kind are those still held in a table, the inbox, a report out or a report kept
-- for resending, those given up as undeliverable, and those delivered with a report whose drain
-- was done: none is lost, and none is sent twice.
pub counted-run :
    (k : Key) (now : ℕ) (s : Ledger) (cs : List Call)
    → let start = at_fork_reinit now s in
      counted k (run cs start) ≡ accounted k (run cs start) + delivered_in k cs start
counted-run k now s cs =
    let start = at_fork_reinit now s in
    omega (arith, (run-IsStep k cs start (at_fork_reinit-IsStore now s)).balanced, nothing_counted)
  where
    nothing_counted :
        (counted k (at_fork_reinit now s) ≡ 0) × (accounted k (at_fork_reinit now s) ≡ 0)
    nothing_counted =
        unfold counted accounted held inbox_amount tally weigh weigh_out at_fork_reinit in
        (refl, refl)

-- After any calls no report object is both out and kept for resending, nor in one of these twice.
pub run-IsStore : (now : ℕ) (s : Ledger) (cs : List Call) → IsStore (run cs (at_fork_reinit now s))
run-IsStore now s cs =
    (run-IsStep (DropReason.send_error, DropUnit.span) cs (at_fork_reinit now s)
      (at_fork_reinit-IsStore now s)).store
