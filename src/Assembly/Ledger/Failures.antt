-- ===== src/Assembly/Ledger/Failures.antt =====
-- A failed batch is settled once: `unsent` remembers the envelopes that it has settled.
use wardex_sdk.Prelude.{
  ℕ, zero, suc, ◌-◌, ◌≡◌, ◌≤◌, ◌∙◌, refl, ap, Bool, true, false, Option, none, some, List, [], ◌∷◌,
  ◌++◌, arith, length, length-append, drop, if◌then◌else◌,
}
use wardex_sdk.Assembly.Ledger.State.{
  Ledger, Report, Envelope, Entry, items, failed_send, Outcome, find_out,
}
use wardex_sdk.Assembly.Ledger.Fold.{
  fold_entry, fold_entries, fold_inbox, fold_held, evict, evict_over, hold_unacked, settle_out,
  settle_one, settle_all,
}
use wardex_sdk.Assembly.Ledger.Operations.{
  try_fold, already_unsent, mem_oid, forget_oid, remember_unsent, settle_later, unsent_once, unsent,
  out_in, unsent_cap,
}

fold_entries-unsent : (es : List Entry) (s : Ledger) → (fold_entries es s).unsent ≡ s.unsent
unfolding fold_entries
fold_entries-unsent [] s = refl
fold_entries-unsent (items k n w ∷ es) s = fold_entries-unsent es (fold_entry (items k n w) s)
fold_entries-unsent (failed_send n ∷ es) s = fold_entries-unsent es (fold_entry (failed_send n) s)

evict-unsent : (rs : List Report) (s : Ledger) → (evict rs s).unsent ≡ s.unsent
unfolding evict
evict-unsent [] s = refl
evict-unsent (r ∷ rs) s = refl

evict_over-unsent : (n : ℕ) (s : Ledger) → (evict_over n s).unsent ≡ s.unsent
unfolding evict_over
evict_over-unsent zero s = refl
evict_over-unsent (suc n) s =
    ground (arith, evict_over-unsent n (evict s.unacked s), evict-unsent s.unacked s)

hold_unacked-unsent : (r : Report) (s : Ledger) → (hold_unacked r s).unsent ≡ s.unsent
unfolding hold_unacked
hold_unacked-unsent r s =
    let t = record s { unacked = s.unacked ++ (r ∷ []) } in evict_over-unsent (length t.unacked) t

settle_out-unsent :
    (outcome : Outcome) (o : Option (Report × Bool)) (s : Ledger)
    → (settle_out outcome o s).unsent ≡ s.unsent
unfolding settle_out
settle_out-unsent none none s = refl
settle_out-unsent (some d) none s = refl
settle_out-unsent none (some (r, fresh)) s = refl
settle_out-unsent (some false) (some (r, fresh)) s = hold_unacked-unsent r s
settle_out-unsent (some true) (some (r, false)) s = hold_unacked-unsent r s
settle_out-unsent (some true) (some (r, true)) s = refl

settle_all-unsent :
    (rest : List (Report × Outcome)) (s : Ledger) → (settle_all rest s).unsent ≡ s.unsent
unfolding settle_all settle_one
settle_all-unsent [] s = refl
settle_all-unsent ((r, outcome) ∷ rest) s =
    settle_all-unsent rest (settle_one r outcome s)
    ∙ settle_out-unsent outcome (find_out r.oid s.out) s

fold_held-unsent : (s : Ledger) → (fold_held s).unsent ≡ s.unsent
unfolding fold_held fold_inbox
fold_held-unsent s =
    settle_all-unsent (fold_inbox s).settled (fold_inbox s) ∙ fold_entries-unsent s.inbox s

try_fold-unsent : (free : Bool) (s : Ledger) → (try_fold free s).unsent ≡ s.unsent
unfolding try_fold
try_fold-unsent false s = refl
try_fold-unsent true s = fold_held-unsent s

-- The last of a list stands behind any shorter number of dropped items.
mem_oid-drop : (i n : ℕ) (js : List ℕ) → n ≤ length js → mem_oid i (drop n (js ++ (i ∷ []))) ≡ true
unfolding mem_oid
mem_oid-drop i zero [] h = ground arith
mem_oid-drop i zero (j ∷ js) h = ground (arith, mem_oid-drop i zero js)
mem_oid-drop i (suc n) [] h = absurd (omega arith)
mem_oid-drop i (suc n) (j ∷ js) h = mem_oid-drop i n js (omega arith)

remember_unsent-already_unsent :
    (e : Envelope) (s : Ledger) → already_unsent e (remember_unsent e s) ≡ true
unfolding already_unsent remember_unsent
remember_unsent-already_unsent e s =
    mem_oid-drop e.oid (length (s.unsent ++ (e.oid ∷ [])) - unsent_cap) s.unsent
      (omega (arith, length-append s.unsent (e.oid ∷ [])))

length-drop_cap : (n : ℕ) (js : List ℕ) → length (drop n js) ≡ length js - n
length-drop_cap zero js = omega arith
length-drop_cap (suc n) [] = omega arith
length-drop_cap (suc n) (j ∷ js) = omega (arith, length-drop_cap n js)

unsent_once-unsent :
    (free definite : Bool) (e : Envelope) (s : Ledger)
    → (unsent_once free definite false e s).unsent ≡ (remember_unsent e s).unsent
unfolding unsent_once settle_later
unsent_once-unsent free definite e s =
    let t = remember_unsent e s in
    try_fold-unsent free (settle_later (some definite) (out_in e t) t)

unsent_first :
    (free definite : Bool) (e : Envelope) (s : Ledger)
    → already_unsent e s ≡ false
    → unsent free definite false e s ≡ (true, unsent_once free definite false e s)
unfolding unsent
unsent_first free definite e s h = rw h

unsent_again :
    (free definite last : Bool) (e : Envelope) (t : Ledger)
    → already_unsent e t ≡ true
    → unsent free definite last e t
      ≡ (false, if last then record t { unsent = forget_oid e.oid t.unsent } else t)
unfolding unsent
unsent_again free definite last e t h = rw h

remembered :
    (e : Envelope) (s t : Ledger)
    → t.unsent ≡ (remember_unsent e s).unsent
    → (already_unsent e t ≡ true) × (length t.unsent ≤ unsent_cap)
unfolding already_unsent
remembered e s t h = (
  rw h (unfold already_unsent in remember_unsent-already_unsent e s),
  rw h (
      unfold remember_unsent in
      omega (
        arith,
        length-drop_cap (length (s.unsent ++ (e.oid ∷ [])) - unsent_cap) (s.unsent ++ (e.oid ∷ [])),
      )),
)

-- An envelope that `unsent` has not settled yet is settled with True, and at most four envelopes
-- are remembered then; an `unsent` of it that comes next, whatever it is told, says False and changes
-- nothing, but that its drain's last settle forgets the envelope.
pub unsent-unsent :
    (free free' definite definite' last : Bool) (e : Envelope) (s : Ledger)
    → already_unsent e s ≡ false
    → let t = (unsent free definite false e s).1 in
      ((unsent free definite false e s).0 ≡ true)
      × (length t.unsent ≤ unsent_cap)
      × (unsent free' definite' last e t
          ≡ (false, if last then record t { unsent = forget_oid e.oid t.unsent } else t))
unsent-unsent free free' definite definite' last e s h =
    let first = unsent_first free definite e s h in
    let (again, few) =
      remembered e s (unsent free definite false e s).1
        (ap (λ p. p.1.unsent) first ∙ unsent_once-unsent free definite e s) in
    (
      ap (λ p. p.0) first,
      few,
      unsent_again free' definite' last e (unsent free definite false e s).1 again,
    )
