-- ===== src/Assembly/Ledger/Operations.antt =====
-- The operations that the rest of the SDK calls. `free` says whether the caller gets the fold;
-- clocks are arguments.
use wardex_sdk.Prelude.{
  ℕ, ◌+◌, ◌-◌, Bool, true, false, ◌||◌, ◌&&◌, not, Option, none, some, List, [], ◌∷◌, ◌++◌, length,
  drop, filter, ltb, leb, nat_eq, map, if◌then◌else◌,
}
use wardex_sdk.Prelude.Text.{Text}
use wardex_sdk.Prelude.Counts.{Table, add}
use wardex_sdk.Assembly.DropReasons.{DropReason, DropUnit}
use wardex_sdk.Assembly.DropReasons.Info.{default_unit}
use wardex_sdk.Assembly.DropReasons.Keys.{Key, Site, key_Eq, site_Eq}
use wardex_sdk.Assembly.Ledger.State.{
  Ledger, Report, Envelope, Entry, items, failed_send, Outcome, find_out, put_all_out,
}
use wardex_sdk.Assembly.Ledger.Wire.{cut_held, is_empty}
use wardex_sdk.Assembly.Ledger.Fold.{fold_inbox, fold_held}

abbrev pub fold_at : ℕ
fold_at = 64

-- `_INBOX.append(entry)`.
unfoldable pub append_entry : Entry → Ledger → Ledger
append_entry e s = record s { inbox = s.inbox ++ (e ∷ []) }

-- What `record` appends.
unfoldable pub entry_of : DropReason → ℕ → Option DropUnit → Option Text → Entry
entry_of r n none w = items (r, default_unit r) n w
entry_of r n (some u) w = items (r, u) n w

-- A full inbox is folded by the call that filled it, if that gets the fold.
unfoldable pub fold_if_full : Bool → Ledger → Ledger
fold_if_full free s = if ltb (length s.inbox) fold_at || not free then s else fold_inbox s

-- `record`. A count that is zero or less is no count.
unfoldable pub record_loss : Bool → DropReason → ℕ → Option DropUnit → Option Text → Ledger → Ledger
unfolding entry_of fold_if_full append_entry
record_loss free r n u w s =
    if nat_eq n 0 then s else fold_if_full free (append_entry (entry_of r n u w) s)

unfoldable pub record_items : Bool → Bool → DropReason → ℕ → ℕ → Option Text → Ledger → Ledger
unfolding append_entry record_loss
record_items free free' r spans snapshots w s =
    let both = ltb 0 spans && ltb 0 snapshots in
    let t = if both then append_entry (items (r, DropUnit.snapshot) snapshots w) s else s in
    let left = if both then 0 else snapshots in
    let u = record_loss free r spans (some DropUnit.span) w t in
    record_loss free' r left (some DropUnit.snapshot) w u

-- `_try_fold`.
unfoldable pub try_fold : Bool → Ledger → Ledger
unfolding fold_held
try_fold free s = if free then fold_held s else s

unfoldable pub record_failed_send : Bool → Ledger → Ledger
unfolding append_entry try_fold
record_failed_send free s =
    let t = append_entry (failed_send 1) s in
    if leb fold_at (length t.inbox) then try_fold free t else t

-- `not (_PENDING or _UNACKED or _INBOX or _SETTLED or _failed_sends)`.
unfoldable pub is_idle : Ledger → Bool
is_idle s =
    is_empty s.pending
    && is_empty s.unacked
    && is_empty s.inbox
    && is_empty s.settled
    && nat_eq s.failed_sends 0

-- `SOLO_INTERVAL_S`, in milliseconds.
abbrev pub solo_interval : ℕ
solo_interval = 30000

abbrev solo_elapsed : ℕ → Option ℕ → Bool
solo_elapsed now none = true
solo_elapsed now (some last) = leb solo_interval (now - last)

-- `due`, for a transport that can carry a report or cannot.
unfoldable pub due : Bool → Bool → ℕ → Ledger → Bool
unfolding is_idle
due carries final now s =
    if not carries
    then false
    else if is_idle s
    then false
    else final || solo_elapsed now s.last_solo

unfoldable pub expedite : Ledger → Ledger
expedite s = record s { last_solo = none }

abbrev pub with_fresh : List Report → Option Report → List Report
with_fresh rs none = rs
with_fresh rs (some r) = rs ++ (r ∷ [])

-- The reports held for resending go out again, as they are.
unfoldable pub resend : Ledger → Ledger
unfolding put_all_out
resend s = record s { out = put_all_out s.unacked false s.out; unacked = [] }

-- What `attach` takes: the reports held for resending, and one cut fresh.
unfoldable pub take_reports : ℕ → ℕ → ℕ → Ledger → List Report × Ledger
unfolding fold_held resend cut_held
take_reports queue_depth time now s =
    let t = fold_held s in
    let (fresh, v) = cut_held queue_depth time now (resend t) in (with_fresh t.unacked fresh, v)

-- `replace(envelope, client_reports=...)` is a new object.
unfoldable pub carry : Envelope → ℕ → List Report × Ledger → Envelope × Ledger
carry e now ([], s) = (e, s)
carry e now (r ∷ rs, s) =
    let alone = nat_eq e.spans 0 && nat_eq e.state_snapshots 0 in
    (
      record e { oid = s.next_oid; client_reports = e.client_reports ++ (r ∷ rs) },
      record s { last_solo = if alone then some now else s.last_solo; next_oid = s.next_oid + 1 },
    )

unfoldable pub attach : Bool → Bool → ℕ → ℕ → ℕ → Envelope → Ledger → Envelope × Ledger
unfolding take_reports carry
attach free carries queue_depth time now e s =
    if not carries || not free then (e, s) else carry e now (take_reports queue_depth time now s)

abbrev is_some {ℓ} : {A : Type ℓ} → Option A → Bool
is_some none = false
is_some (some _) = true

-- `_out_in`.
unfoldable pub out_in : Envelope → Ledger → List Report
unfolding find_out
out_in e s = filter (λ r. is_some (find_out r.oid s.out)) e.client_reports

unfoldable pub mem_oid : ℕ → List ℕ → Bool
mem_oid i [] = false
mem_oid i (j ∷ js) = nat_eq j i || mem_oid i js

unfoldable pub forget_oid : ℕ → List ℕ → List ℕ
forget_oid i [] = []
forget_oid i (j ∷ js) = if nat_eq j i then js else j ∷ forget_oid i js

unfoldable pub already_unsent : Envelope → Ledger → Bool
unfolding mem_oid
already_unsent e s = mem_oid e.oid s.unsent

abbrev pub unsent_cap : ℕ
unsent_cap = 4

-- The envelope is remembered, and the oldest beyond the cap are forgotten.
unfoldable pub remember_unsent : Envelope → Ledger → Ledger
remember_unsent e s =
    let all = s.unsent ++ (e.oid ∷ []) in record s { unsent = drop (length all - unsent_cap) all }

unfoldable pub settle_later : Outcome → List Report → Ledger → Ledger
settle_later outcome rs s = record s { settled = s.settled ++ map (λ r. (r, outcome)) rs }

unfoldable pub unsent_once : Bool → Bool → Bool → Envelope → Ledger → Ledger
unfolding remember_unsent settle_later out_in try_fold
unsent_once free definite last e s =
    let t = if last then s else remember_unsent e s in
    try_fold free (settle_later (some definite) (out_in e t) t)

unfoldable pub unsent : Bool → Bool → Bool → Envelope → Ledger → Bool × Ledger
unfolding already_unsent forget_oid unsent_once
unsent free definite last e s =
    if already_unsent e s
    then (false, if last then record s { unsent = forget_oid e.oid s.unsent } else s)
    else (true, unsent_once free definite last e s)

unfoldable pub done : Bool → Envelope → Ledger → Ledger
unfolding forget_oid settle_later out_in try_fold
done free e s =
    let t = record s { unsent = forget_oid e.oid s.unsent } in
    let reports = out_in e t in
    let u = settle_later none reports t in if is_empty reports then u else try_fold free u

-- What waits in the inbox, added to a table.
unfoldable pub add_inbox : List Entry → Table Key → Table Key
add_inbox [] t = t
add_inbox (items k n w ∷ es) t = add_inbox es (add k n t)
add_inbox (failed_send n ∷ es) t = add_inbox es t

unfoldable pub add_inbox_sites : List Entry → Table Site → Table Site
add_inbox_sites [] t = t
add_inbox_sites (items k n none ∷ es) t = add_inbox_sites es t
add_inbox_sites (items k n (some w) ∷ es) t = add_inbox_sites es (add (k.0, w) n t)
add_inbox_sites (failed_send n ∷ es) t = add_inbox_sites es t

pub record LedgerSnapshot : Type 0 where
  pub counts : Table Key
  pub where_counts : Table Site
  pub undeliverable : Table Key

unfoldable pub snapshot : Bool → Ledger → LedgerSnapshot × Ledger
unfolding try_fold add_inbox add_inbox_sites
snapshot free s =
    let t = try_fold free s in
    (
      record {
        counts = if free then t.totals else add_inbox t.inbox t.totals;
        where_counts = if free then t.sites else add_inbox_sites t.inbox t.sites;
        undeliverable = t.undeliverable;
      },
      t,
    )
