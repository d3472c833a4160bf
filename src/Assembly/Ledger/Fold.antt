-- ===== src/Assembly/Ledger/Fold.antt =====
-- The fold: the inbox goes into the tables, and each settled report goes where its outcome puts it.
use wardex_sdk.Prelude.{
  ℕ, zero, suc, ◌+◌, Bool, true, false, ◌||◌, Option, none, some, List, [], ◌∷◌, ◌++◌, length, ltb,
  if◌then◌else◌,
}
use wardex_sdk.Prelude.Text.{Text, codes}
use wardex_sdk.Prelude.Counts.{Table, add, add_all, has}
use wardex_sdk.Assembly.DropReasons.{DropReason, DropUnit}
use wardex_sdk.Assembly.DropReasons.Keys.{Key, Site, key_Eq, site_Eq}
use wardex_sdk.Assembly.Ledger.State.{
  Ledger, Report, Entry, items, failed_send, Outcome, find_out, pop_out, oldest, remove_oldest,
}
use wardex_sdk.Assembly.Ledger.Wire.{keys_of}

abbrev pub site_cap : ℕ
site_cap = 1024

abbrev pub other_sites : Text
other_sites = codes "<other>"

-- The local view of one entry: a new label past the cap is counted under `<other>`.
unfoldable pub fold_site : DropReason → ℕ → Option Text → Table Site → Table Site
fold_site r n none t = t
fold_site r n (some w) t =
    add (r, if has (r, w) t || ltb (length t) site_cap then w else other_sites) n t

unfoldable pub fold_entry : Entry → Ledger → Ledger
fold_entry (failed_send n) s = record s { failed_sends = s.failed_sends + n }
fold_entry (items k n w) s = record s {
  totals = add k n s.totals;
  sites = fold_site k.0 n w s.sites;
  pending = add k n s.pending;
}

unfoldable pub fold_entries : List Entry → Ledger → Ledger
unfolding fold_entry fold_site
fold_entries [] s = s
fold_entries (e ∷ es) s = fold_entries es (fold_entry e s)

-- `_fold_inbox_held`.
unfoldable pub fold_inbox : Ledger → Ledger
unfolding fold_entries
fold_inbox s = let t = fold_entries s.inbox s in record t { inbox = [] }

abbrev pub unacked_cap : ℕ
unacked_cap = 8

abbrev pub overflow_key : Key
overflow_key = (DropReason.ledger_overflow, DropUnit.report)

-- One round of the loop that bounds `_UNACKED`: the oldest report is given up.
unfoldable pub evict : List Report → Ledger → Ledger
unfolding oldest remove_oldest
evict [] s = s
evict (r ∷ rs) s = record s {
  totals = add overflow_key 1 s.totals;
  pending = add overflow_key 1 s.pending;
  undeliverable = add_all (keys_of (oldest r rs)) s.undeliverable;
  unacked = remove_oldest r rs;
}

-- `while len(_UNACKED) > _UNACKED_CAP`, for so many rounds at most.
unfoldable pub evict_over : ℕ → Ledger → Ledger
unfolding evict
evict_over zero s = s
evict_over (suc rounds) s =
    let rest = evict_over rounds (evict s.unacked s) in
    if ltb unacked_cap (length s.unacked) then rest else s

unfoldable pub hold_unacked : Report → Ledger → Ledger
unfolding evict_over
hold_unacked r s =
    let t = record s { unacked = s.unacked ++ (r ∷ []) } in evict_over (length t.unacked) t

-- Where an outcome puts a report that is out. The report found there under the identity of the
-- settled one is that object.
unfoldable pub settle_out : Outcome → Option (Report × Bool) → Ledger → Ledger
unfolding hold_unacked
settle_out outcome none s = s
settle_out none (some (r, fresh)) s = s
settle_out (some true) (some (r, true)) s = record s {
  pending = add_all (keys_of r) s.pending;
  failed_sends = s.failed_sends + r.failed_sends;
}
settle_out (some true) (some (r, false)) s = hold_unacked r s
settle_out (some false) (some (r, fresh)) s = hold_unacked r s

unfoldable pub settle_one : Report → Outcome → Ledger → Ledger
unfolding settle_out find_out pop_out
settle_one report outcome s =
    let t = settle_out outcome (find_out report.oid s.out) s in
    record t { out = pop_out report.oid t.out }

unfoldable pub settle_all : List (Report × Outcome) → Ledger → Ledger
unfolding settle_one
settle_all [] s = s
settle_all ((r, outcome) ∷ rest) s = settle_all rest (settle_one r outcome s)

-- `_fold_held`.
unfoldable pub fold_held : Ledger → Ledger
unfolding fold_inbox settle_all
fold_held s = let t = fold_inbox s in let u = settle_all t.settled t in record u { settled = [] }
