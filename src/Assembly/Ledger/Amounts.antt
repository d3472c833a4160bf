-- ===== src/Assembly/Ledger/Amounts.antt =====
-- Where each counted loss is: what the ledger has counted of a key, and what it holds of it.
use mathlib.Core.Path.{subst}
use wardex_sdk.Prelude.{
  ℕ, ◌+◌, ◌≡◌, ◌≤◌, refl, Bool, Option, none, some, List, [], ◌∷◌, ◌++◌, arith, nat_eq, ◌==◌,
  if◌then◌else◌,
}
use wardex_sdk.Prelude.Counts.{tally}
use wardex_sdk.Assembly.DropReasons.Keys.{Key, key_Eq}
use wardex_sdk.Assembly.Ledger.State.{
  Ledger, Report, Entry, items, failed_send, find_out, pop_out, put_out, put_all_out, oldest,
  remove_oldest,
}
use wardex_sdk.Assembly.Ledger.Wire.{keys_of}

-- The sum of a measure over reports.
unfoldable pub weigh : (Report → ℕ) → List Report → ℕ
weigh f [] = 0
weigh f (r ∷ rs) = f r + weigh f rs

unfoldable pub weigh_out : (Report → ℕ) → List (Report × Bool) → ℕ
weigh_out f [] = 0
weigh_out f ((r, fresh) ∷ out) = f r + weigh_out f out

abbrev pub found : (Report → ℕ) → Option (Report × Bool) → ℕ
found f none = 0
found f (some (r, fresh)) = f r

-- What a report says of a key.
unfoldable pub amount : Key → Report → ℕ
amount k r = tally k (keys_of r)

-- Whether a report is the object with this identity, as a number.
abbrev pub is : ℕ → Report → ℕ
is i r = if nat_eq r.oid i then 1 else 0

unfoldable pub inbox_amount : Key → List Entry → ℕ
inbox_amount k [] = 0
inbox_amount k (items j n w ∷ es) = (if j == k then n else 0) + inbox_amount k es
inbox_amount k (failed_send n ∷ es) = inbox_amount k es

-- All that was ever counted of a key: folded, or waiting in the inbox.
unfoldable pub counted : Key → Ledger → ℕ
counted k s = inbox_amount k s.inbox + tally k s.totals

-- What is held of it, but for the reports that are out.
unfoldable pub held : Key → Ledger → ℕ
held k s =
    inbox_amount k s.inbox
    + tally k s.pending
    + weigh (amount k) s.unacked
    + tally k s.undeliverable

-- What is accounted for: held, out with a report, or given up as undeliverable.
unfoldable pub accounted : Key → Ledger → ℕ
unfolding held
accounted k s = held k s + weigh_out (amount k) s.out

pub weigh-append :
    (f : Report → ℕ) (rs qs : List Report) → weigh f (rs ++ qs) ≡ weigh f rs + weigh f qs
unfolding weigh
weigh-append f [] qs = omega arith
weigh-append f (r ∷ rs) qs = omega (arith, weigh-append f rs qs)

pub inbox_amount-append :
    (k : Key) (es ds : List Entry)
    → inbox_amount k (es ++ ds) ≡ inbox_amount k es + inbox_amount k ds
unfolding inbox_amount
inbox_amount-append k [] ds = omega arith
inbox_amount-append k (items j n w ∷ es) ds = omega (arith, inbox_amount-append k es ds)
inbox_amount-append k (failed_send n ∷ es) ds = inbox_amount-append k es ds

pub weigh_out-pop_out :
    (f : Report → ℕ) (i : ℕ) (out : List (Report × Bool))
    → weigh_out f (pop_out i out) + found f (find_out i out) ≡ weigh_out f out
unfolding weigh_out pop_out find_out
weigh_out-pop_out f i [] = omega arith
weigh_out-pop_out f i ((r, b) ∷ out) = ground (arith, weigh_out-pop_out f i out)

pub weigh_out-put_out :
    (f : Report → ℕ) (r : Report) (fresh : Bool) (out : List (Report × Bool))
    → weigh_out f (put_out r fresh out) + found f (find_out r.oid out) ≡ weigh_out f out + f r
unfolding weigh_out put_out find_out
weigh_out-put_out f r fresh [] = omega arith
weigh_out-put_out f r fresh ((q, b) ∷ out) = ground (arith, weigh_out-put_out f r fresh out)

-- A report that is out is found under its identity.
pub find_out_absent :
    (i : ℕ) (out : List (Report × Bool)) → weigh_out (is i) out ≡ 0 → find_out i out ≡ none
unfolding weigh_out find_out
find_out_absent i [] h = refl
find_out_absent i ((r, b) ∷ out) h = ground (arith, find_out_absent i out)

pub weigh-remove_oldest :
    (f : Report → ℕ) (r : Report) (rs : List Report)
    → weigh f (remove_oldest r rs) + f (oldest r rs) ≡ weigh f (r ∷ rs)
unfolding weigh remove_oldest
weigh-remove_oldest f r [] = omega arith
weigh-remove_oldest f r (q ∷ qs) = ground (arith, weigh-remove_oldest f q qs)

-- Reports put out that were not out before add what they weigh.
pub weigh_out-put_all_out :
    (f : Report → ℕ) (rs : List Report) (fresh : Bool) (out : List (Report × Bool))
    → ((i : ℕ) → weigh (is i) rs + weigh_out (is i) out ≤ 1)
    → weigh_out f (put_all_out rs fresh out) ≡ weigh_out f out + weigh f rs
unfolding put_all_out weigh
weigh_out-put_all_out f [] fresh out h = omega arith
weigh_out-put_all_out f (r ∷ rs) fresh out h =
    let absent : find_out r.oid out ≡ none = find_out_absent r.oid out (ground (arith, h r.oid)) in
    let put = λ (g : Report → ℕ).
      subst (λ o. weigh_out g (put_out r fresh out) + found g o ≡ weigh_out g out + g r) absent
        (weigh_out-put_out g r fresh out) in
    omega (
      arith,
      put f,
      weigh_out-put_all_out f rs fresh (put_out r fresh out) (λ i. omega (arith, put (is i), h i)),
    )
