-- ===== src/Assembly/Ledger/Recorded.antt =====
-- What the recording calls add to the counts.
use wardex_sdk.Prelude.{
  ℕ, ◌+◌, ◌≡◌, ◌∙◌, refl, inl, inr, Bool, not, ◌||◌, ◌&&◌, Option, none, some, [], ◌∷◌, arith,
  nat_eq, ltb, length, Bool-cases, ◌==◌, if◌then◌else◌,
}
use wardex_sdk.Prelude.Text.{Text}
use wardex_sdk.Assembly.DropReasons.{DropReason, DropUnit}
use wardex_sdk.Assembly.DropReasons.Info.{default_unit}
use wardex_sdk.Assembly.DropReasons.Keys.{Key, key_Eq}
use wardex_sdk.Assembly.Ledger.State.{Ledger, items}
use wardex_sdk.Assembly.Ledger.Operations.{
  append_entry, entry_of, fold_if_full, record_loss, record_items, fold_at,
}
use wardex_sdk.Assembly.Ledger.Amounts.{inbox_amount, inbox_amount-append, counted}
use wardex_sdk.Assembly.Ledger.Balance.{counted-fold_inbox}

-- The key that a call of `record` counts under.
abbrev pub key_of : DropReason → Option DropUnit → Key
key_of r none = (r, default_unit r)
key_of r (some u) = (r, u)

module _ (k : Key) where
  counted-append_entry :
      (j : Key) (n : ℕ) (w : Option Text) (s : Ledger)
      → counted k (append_entry (items j n w) s) ≡ counted k s + (if j == k then n else 0)
  unfolding append_entry counted inbox_amount
  counted-append_entry j n w s = omega (arith, inbox_amount-append k s.inbox (items j n w ∷ []))

  entry_of-items :
      (r : DropReason) (n : ℕ) (u : Option DropUnit) (w : Option Text)
      → entry_of r n u w ≡ items (key_of r u) n w
  unfolding entry_of
  entry_of-items r n none w = refl
  entry_of-items r n (some u) w = refl

  counted-fold_if_full : (free : Bool) (s : Ledger) → counted k (fold_if_full free s) ≡ counted k s
  unfolding fold_if_full
  counted-fold_if_full free s = elim (Bool-cases (ltb (length s.inbox) fold_at || not free)) [
    | inl wait ↦ rw wait
    | inr full ↦ rw full (counted-fold_inbox k s)
  ]

  -- `record` counts what it is told under its one key, the reason's own unit where none is given,
  -- and nothing under any other, whether it folds the inbox or not.
  pub counted-record_loss :
      (free : Bool) (r : DropReason) (n : ℕ) (u : Option DropUnit) (w : Option Text) (s : Ledger)
      → counted k (record_loss free r n u w s) ≡ counted k s + (if key_of r u == k then n else 0)
  unfolding record_loss
  counted-record_loss free r n u w s = elim (Bool-cases (nat_eq n 0)) [
    | inl nothing ↦ rw nothing (ground arith)
    | inr some_loss ↦
        rw (some_loss, entry_of-items r n u w)
          (counted-fold_if_full free (append_entry (items (key_of r u) n w) s)
            ∙ counted-append_entry (key_of r u) n w s)
  ]

  -- `record_items` counts the spans and the snapshots of a batch, each under its own unit and
  -- once, whichever of them are there and whether either record folds.
  pub counted-record_items :
      (free free' : Bool) (r : DropReason) (spans snapshots : ℕ) (w : Option Text) (s : Ledger)
      → counted k (record_items free free' r spans snapshots w s)
        ≡ counted k s
          + (if (r, DropUnit.span) == k then spans else 0)
          + (if (r, DropUnit.snapshot) == k then snapshots else 0)
  unfolding record_items
  counted-record_items free free' r spans snapshots w s =
      elim (Bool-cases (ltb 0 spans && ltb 0 snapshots)) [
        | inl both ↦
            let t = append_entry (items (r, DropUnit.snapshot) snapshots w) s in
            let u = record_loss free r spans (some DropUnit.span) w t in
            rw both (
              ground (
                arith,
                counted-append_entry (r, DropUnit.snapshot) snapshots w s,
                counted-record_loss free r spans (some DropUnit.span) w t,
                counted-record_loss free' r 0 (some DropUnit.snapshot) w u,
              ))
        | inr one ↦
            let u = record_loss free r spans (some DropUnit.span) w s in
            rw one (
              ground (
                arith,
                counted-record_loss free r spans (some DropUnit.span) w s,
                counted-record_loss free' r snapshots (some DropUnit.snapshot) w u,
              ))
      ]
