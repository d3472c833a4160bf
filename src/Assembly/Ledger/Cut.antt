-- ===== src/Assembly/Ledger/Cut.antt =====
-- Cutting a report, and attaching reports to an envelope: the counts move from the pending table
-- to reports that are out.
use Prim.Native.Nat.{min}
use mathlib.Core.Path.{subst}
use wardex_sdk.Prelude.{
  ℕ, ◌+◌, ◌≡◌, ◌∙◌, refl, inl, inr, Bool, true, false, ◌&&◌, none, List, [], ◌∷◌, arith, nat_eq,
  Bool-cases,
}
use wardex_sdk.Prelude.Text.{Text}
use wardex_sdk.Prelude.Counts.{Table, tally}
use wardex_sdk.Assembly.DropReasons.Keys.{
  Key, key_Eq, wire_key, before_first-wire_key, after_first-wire_key, reason_of-reason_value,
  unit_of-unit_value,
}
use wardex_sdk.Assembly.Ledger.State.{Ledger, Report, find_out, put_out}
use wardex_sdk.Assembly.Ledger.Wire.{
  keys_of, keys_of_events, insert_key, sort_keys, events_of, rest_of, new_report, cut_held,
  is_empty, int32_max,
}
use wardex_sdk.Assembly.Ledger.Operations.{resend}
use wardex_sdk.Assembly.Ledger.Amounts.{
  weigh, weigh_out, found, is, amount, counted, held, accounted, find_out_absent, weigh_out-put_out,
  weigh_out-put_all_out,
}
use wardex_sdk.Assembly.Ledger.Balance.{Balanced}
use wardex_sdk.Assembly.Ledger.Identity.{load, IsStore}

-- An event that names a key is read back as that key.
pub keys_of_events-wire_key :
    (k : Key) (n : ℕ) (events : List (Text × ℕ))
    → keys_of_events ((wire_key k, n) ∷ events) ≡ (k, n) ∷ keys_of_events events
unfolding keys_of_events
keys_of_events-wire_key (r, u) n events = rw (
  before_first-wire_key (r, u),
  after_first-wire_key (r, u),
  reason_of-reason_value r,
  unit_of-unit_value u,
)

module _ (k : Key) where
  tally-insert_key : (x : Key × ℕ) (t : Table Key) → tally k (insert_key x t) ≡ tally k (x ∷ t)
  unfolding insert_key tally
  tally-insert_key x [] = refl
  tally-insert_key x (y ∷ t) = ground (arith, tally-insert_key x t)

  tally-sort_keys : (t : Table Key) → tally k (sort_keys t) ≡ tally k t
  unfolding sort_keys tally
  tally-sort_keys [] = refl
  tally-sort_keys (x ∷ t) = omega (arith, tally-insert_key x (sort_keys t), tally-sort_keys t)

  -- What a report says of a table and what stays pending make up the table.
  tally-events_of :
      (t : Table Key) → tally k (keys_of_events (events_of t)) + tally k (rest_of t) ≡ tally k t
  unfolding events_of rest_of tally
  tally-events_of [] = unfold keys_of_events in refl
  tally-events_of ((j, n) ∷ t) =
      rw (keys_of_events-wire_key j (min n int32_max) (events_of t))
        (ground (arith, tally-events_of t))

  pub amount-new_report :
      (queue_depth time now : ℕ) (s : Ledger)
      → amount k (new_report queue_depth time now s) + tally k (rest_of (sort_keys s.pending))
        ≡ tally k s.pending
  unfolding amount new_report keys_of
  amount-new_report queue_depth time now s =
      tally-events_of (sort_keys s.pending) ∙ tally-sort_keys s.pending

-- A report that is yet to be made is not out.
new_report-absent :
    (queue_depth time now : ℕ) (s : Ledger)
    → IsStore s
    → find_out (new_report queue_depth time now s).oid s.out ≡ none
unfolding new_report load
new_report-absent queue_depth time now s v =
    find_out_absent s.next_oid s.out (omega (arith, v.fresh s.next_oid (omega arith)))

put_new :
    (f : Report → ℕ) (r : Report) (out : List (Report × Bool))
    → find_out r.oid out ≡ none
    → weigh_out f (put_out r true out) ≡ weigh_out f out + f r
put_new f r out h =
    let e =
      subst (λ o. weigh_out f (put_out r true out) + found f o ≡ weigh_out f out + f r) h
        (weigh_out-put_out f r true out) in
    omega (arith, e)

pub cut_held-Balanced :
    (k : Key) (queue_depth time now : ℕ) (s : Ledger)
    → IsStore s
    → Balanced k s (cut_held queue_depth time now s).1 0
unfolding cut_held counted accounted
cut_held-Balanced k queue_depth time now s v =
    elim (Bool-cases (is_empty s.pending && nat_eq s.failed_sends 0)) [
      | inl idle ↦ rw idle (omega arith)
      | inr busy ↦
          let r = new_report queue_depth time now s in
          rw busy (
            omega (
              arith,
              amount-new_report k queue_depth time now s,
              put_new (amount k) r s.out (new_report-absent queue_depth time now s v),
            ))
    ]

-- A new object put out keeps identities apart.
put_new-load :
    (i : ℕ) (r : Report) (s : Ledger)
    → find_out r.oid s.out ≡ none
    → load (is i) (record s { out = put_out r true s.out }) ≡ load (is i) s + is i r
unfolding load
put_new-load i r s h = omega (arith, put_new (is i) r s.out h)

put_new-IsStore :
    (r : Report) (s t : Ledger)
    → IsStore s
    → find_out r.oid s.out ≡ none
    → r.oid ≡ s.next_oid
    → ((i : ℕ) → load (is i) t ≡ load (is i) (record s { out = put_out r true s.out }))
    → t.next_oid ≡ s.next_oid + 1
    → IsStore t
put_new-IsStore r s t v absent e same next = record {
  once = λ i. ground (arith, same i, put_new-load i r s absent, v.once i, v.fresh i);
  fresh = λ i le. ground (arith, same i, put_new-load i r s absent, v.fresh i);
}

pub cut_held-IsStore :
    (queue_depth time now : ℕ) (s : Ledger)
    → IsStore s
    → IsStore (cut_held queue_depth time now s).1
unfolding cut_held
cut_held-IsStore queue_depth time now s v =
    elim (Bool-cases (is_empty s.pending && nat_eq s.failed_sends 0)) [
      | inl idle ↦ rw idle v
      | inr busy ↦
          let r = new_report queue_depth time now s in
          rw busy (
            put_new-IsStore r s _ v (new_report-absent queue_depth time now s v)
              (unfold new_report in refl) (λ i. unfold load in refl) refl)
    ]

-- Reports that go out again keep their weight.
resend-load : (f : Report → ℕ) (s : Ledger) → IsStore s → load f (resend s) ≡ load f s
unfolding resend load weigh
resend-load f s v = omega (arith, weigh_out-put_all_out f s.unacked false s.out v.once)

pub resend-IsStore : (s : Ledger) → IsStore s → IsStore (resend s)
resend-IsStore s v = record {
  once = λ i. omega (arith, resend-load (is i) s v, v.once i);
  fresh = λ i le. omega (arith, resend-load (is i) s v, v.fresh i (unfold resend in le));
}

pub resend-Balanced : (k : Key) (s : Ledger) → IsStore s → Balanced k s (resend s) 0
unfolding resend counted accounted held weigh load
resend-Balanced k s v = omega (arith, weigh_out-put_all_out (amount k) s.unacked false s.out v.once)
