-- ===== src/Assembly/Ledger/Steps.antt =====
-- Each operation of the ledger keeps the store and balances the counts.
use wardex_sdk.Prelude.{
  ℕ, ◌+◌, ◌≡◌, ◌≤◌, refl, inl, inr, Bool, true, false, not, ◌||◌, ◌&&◌, Option, some, List, [], ◌∷◌,
  arith, nat_eq, ltb, length, Bool-cases, if◌then◌else◌,
}
use wardex_sdk.Prelude.Text.{Text}
use wardex_sdk.Assembly.DropReasons.{DropReason, DropUnit}
use wardex_sdk.Assembly.DropReasons.Keys.{Key, key_Eq}
use wardex_sdk.Assembly.Ledger.State.{Ledger, Report, Envelope, Entry, items, Outcome}
use wardex_sdk.Assembly.Ledger.Fold.{fold_inbox, fold_held}
use wardex_sdk.Assembly.Ledger.Operations.{
  append_entry, entry_of, fold_if_full, record_loss, record_items, try_fold, expedite, take_reports,
  resend, carry, attach, out_in, remember_unsent, settle_later, unsent_once, forget_oid, fold_at,
}
use wardex_sdk.Assembly.Ledger.Amounts.{inbox_amount-append, counted, held, accounted}
use wardex_sdk.Assembly.Ledger.Balance.{
  Balanced, confirmed, fold_inbox-Balanced, fold_held-Balanced,
}
use wardex_sdk.Assembly.Ledger.Identity.{
  load, IsStore, Shrinks-IsStore, fold_inbox-Shrinks, fold_held-Shrinks,
}
use wardex_sdk.Assembly.Ledger.Cut.{
  cut_held-Balanced, cut_held-IsStore, resend-IsStore, resend-Balanced,
}

-- What a fold that the caller gets confirms as delivered.
unfoldable pub pass : Key → Bool → Ledger → ℕ
pass k free s = if free then confirmed k (fold_inbox s).settled (fold_inbox s) else 0

-- A step that keeps the store and balances.
pub record IsStep (k : Key) (s t : Ledger) (delivered : ℕ) : Type 0 where
  pub balanced : Balanced k s t delivered
  pub store : IsStore t

module _ (k : Key) where
  -- A change of what neither counts nor holds reports.
  pub kept :
      (s t : Ledger)
      → IsStore s
      → t.inbox ≡ s.inbox
      → t.totals ≡ s.totals
      → t.pending ≡ s.pending
      → t.unacked ≡ s.unacked
      → t.undeliverable ≡ s.undeliverable
      → t.out ≡ s.out
      → s.next_oid ≤ t.next_oid
      → IsStep k s t 0
  unfolding counted accounted held load
  kept s t v i a p u d o n = record {
    balanced = rw (i, a, p, u, d, o) (omega arith);
    store = rw (u, o, load) (record { once = v.once; fresh = λ j le. v.fresh j (omega arith) });
  }

  pub then-IsStep :
      {s t u : Ledger} {m n : ℕ} → IsStep k s t m → IsStep k t u n → IsStep k s u (m + n)
  then-IsStep f g = record { balanced = omega (arith, f.balanced, g.balanced); store = g.store }

  pub recount-IsStep : {s t : Ledger} {m n : ℕ} → IsStep k s t m → m ≡ n → IsStep k s t n
  recount-IsStep f e = record { balanced = omega (arith, f.balanced); store = f.store }

  pub idle-IsStep : (s : Ledger) → IsStore s → IsStep k s s 0
  idle-IsStep s v = record { balanced = omega arith; store = v }

  pub fold_inbox-IsStep : (s : Ledger) → IsStore s → IsStep k s (fold_inbox s) 0
  fold_inbox-IsStep s v = record {
    balanced = fold_inbox-Balanced k s;
    store = Shrinks-IsStore (fold_inbox-Shrinks s) v;
  }

  pub try_fold-IsStep :
      (free : Bool) (s : Ledger) → IsStore s → IsStep k s (try_fold free s) (pass k free s)
  unfolding try_fold pass
  try_fold-IsStep false s v = idle-IsStep s v
  try_fold-IsStep true s v = record {
    balanced = fold_held-Balanced k s;
    store = Shrinks-IsStore (fold_held-Shrinks s) v;
  }

  -- A new entry is counted and held.
  pub append_entry-IsStep : (e : Entry) (s : Ledger) → IsStore s → IsStep k s (append_entry e s) 0
  unfolding append_entry counted accounted held load
  append_entry-IsStep e s v = record {
    balanced = omega (arith, inbox_amount-append k s.inbox (e ∷ []));
    store = record { once = v.once; fresh = v.fresh };
  }

  fold_if_full-IsStep : (free : Bool) (s : Ledger) → IsStore s → IsStep k s (fold_if_full free s) 0
  unfolding fold_if_full
  fold_if_full-IsStep free s v = elim (Bool-cases (ltb (length s.inbox) fold_at || not free)) [
    | inl wait ↦ rw wait (idle-IsStep s v)
    | inr full ↦ rw full (fold_inbox-IsStep s v)
  ]

  pub record_loss-IsStep :
      (free : Bool) (r : DropReason) (n : ℕ) (u : Option DropUnit) (w : Option Text) (s : Ledger)
      → IsStore s
      → IsStep k s (record_loss free r n u w s) 0
  unfolding record_loss
  record_loss-IsStep free r n u w s v = elim (Bool-cases (nat_eq n 0)) [
    | inl nothing ↦ rw nothing (idle-IsStep s v)
    | inr some_loss ↦
        let e = entry_of r n u w in
        let f = append_entry-IsStep e s v in
        rw some_loss (then-IsStep f (fold_if_full-IsStep free (append_entry e s) f.store))
  ]

  pub record_items-IsStep :
      (free free' : Bool) (r : DropReason) (spans snapshots : ℕ) (w : Option Text) (s : Ledger)
      → IsStore s
      → IsStep k s (record_items free free' r spans snapshots w s) 0
  unfolding record_items
  record_items-IsStep free free' r spans snapshots w s v =
      elim (Bool-cases (ltb 0 spans && ltb 0 snapshots)) [
        | inl both ↦
            let e = items (r, DropUnit.snapshot) snapshots w in
            let f = append_entry-IsStep e s v in
            let g =
              record_loss-IsStep free r spans (some DropUnit.span) w (append_entry e s) f.store in
            rw both (
              then-IsStep f
                (then-IsStep g (record_loss-IsStep free' r 0 (some DropUnit.snapshot) w _ g.store)))
        | inr one ↦
            let g = record_loss-IsStep free r spans (some DropUnit.span) w s v in
            rw one (
              then-IsStep g
                (record_loss-IsStep free' r snapshots (some DropUnit.snapshot) w _ g.store))
      ]

  pub take_reports-IsStep :
      (queue_depth time now : ℕ) (s : Ledger)
      → IsStore s
      → IsStep k s (take_reports queue_depth time now s).1 (pass k true s)
  unfolding take_reports
  take_reports-IsStep queue_depth time now s v =
      let f = try_fold-IsStep true s v in
      let u = fold_held s in
      let t = resend u in
      let vu : IsStore u = unfold try_fold in f.store in
      let vt = resend-IsStore u vu in
      record {
        balanced =
            unfold pass in
            omega (
              arith,
              fold_held-Balanced k s,
              resend-Balanced k u vu,
              cut_held-Balanced k queue_depth time now t vt,
            );
        store = cut_held-IsStore queue_depth time now t vt;
      }

  carry-IsStep :
      (e : Envelope) (now : ℕ) (rs : List Report) (s : Ledger)
      → IsStore s
      → IsStep k s (carry e now (rs, s)).1 0
  unfolding carry
  carry-IsStep e now [] s v = idle-IsStep s v
  carry-IsStep e now (r ∷ rs) s v = kept s _ v refl refl refl refl refl refl (omega arith)

  pub attach-IsStep :
      (free carries : Bool) (queue_depth time now : ℕ) (e : Envelope) (s : Ledger)
      → IsStore s
      → IsStep k s
          (attach free carries queue_depth time now e s).1
          (if not carries || not free then 0 else pass k true s)
  unfolding attach
  attach-IsStep free carries queue_depth time now e s v =
      elim (Bool-cases (not carries || not free)) [
        | inl no_report ↦ rw no_report (idle-IsStep s v)
        | inr send ↦
            let (rs, t) = take_reports queue_depth time now s in
            let f = take_reports-IsStep queue_depth time now s v in
            rw send (recount-IsStep (then-IsStep f (carry-IsStep e now rs t f.store)) (omega arith))
      ]

  pub settle_later-IsStep :
      (outcome : Outcome) (rs : List Report) (s : Ledger)
      → IsStore s
      → IsStep k s (settle_later outcome rs s) 0
  unfolding settle_later
  settle_later-IsStep outcome rs s v = kept s _ v refl refl refl refl refl refl (omega arith)

  remember_unsent-IsStep :
      (e : Envelope) (s : Ledger) → IsStore s → IsStep k s (remember_unsent e s) 0
  unfolding remember_unsent
  remember_unsent-IsStep e s v = kept s _ v refl refl refl refl refl refl (omega arith)

  pub settle_and_fold-IsStep :
      (free : Bool) (outcome : Outcome) (rs : List Report) (s : Ledger)
      → IsStore s
      → IsStep k s
          (try_fold free (settle_later outcome rs s))
          (pass k free (settle_later outcome rs s))
  settle_and_fold-IsStep free outcome rs s v =
      let f = settle_later-IsStep outcome rs s v in
      recount-IsStep (then-IsStep f (try_fold-IsStep free (settle_later outcome rs s) f.store))
        (omega arith)

  pub unsent_once-IsStep :
      (free definite last : Bool) (e : Envelope) (s : Ledger)
      → IsStore s
      → IsStep k s (unsent_once free definite last e s) (
          let t = if last then s else remember_unsent e s in
          pass k free (settle_later (some definite) (out_in e t) t))
  unfolding unsent_once
  unsent_once-IsStep free definite true e s v =
      settle_and_fold-IsStep free (some definite) (out_in e s) s v
  unsent_once-IsStep free definite false e s v =
      let f = remember_unsent-IsStep e s v in
      let t = remember_unsent e s in
      recount-IsStep
        (then-IsStep f (settle_and_fold-IsStep free (some definite) (out_in e t) t f.store))
        (omega arith)

  pub unsent_again-IsStep :
      (last : Bool) (e : Envelope) (s : Ledger)
      → IsStore s
      → IsStep k s (if last then record s { unsent = forget_oid e.oid s.unsent } else s) 0
  unsent_again-IsStep false e s v = idle-IsStep s v
  unsent_again-IsStep true e s v = kept s _ v refl refl refl refl refl refl (omega arith)

  pub expedite-IsStep : (s : Ledger) → IsStore s → IsStep k s (expedite s) 0
  unfolding expedite
  expedite-IsStep s v = kept s _ v refl refl refl refl refl refl (omega arith)
