-- ===== src/Assembly/Ledger/State.antt =====
-- The state of the drop ledger, and the reports and envelopes that it handles. An object that the
-- code compares by identity (`id`) carries that identity in its field `oid`.
use wardex_sdk.Prelude.{ℕ, Bool, Option, none, some, List, [], ◌∷◌, nat_eq, ltb, if◌then◌else◌}
use wardex_sdk.Prelude.Text.{Text}
use wardex_sdk.Prelude.Counts.{Table}
use wardex_sdk.Assembly.DropReasons.Keys.{Key, Site}

pub record Report : Type 0 where
  pub oid : ℕ
  pub timestamp_ns : ℕ
  pub discarded_events : List (Text × ℕ)
  pub failed_sends : ℕ
  pub queue_depth : ℕ
  pub uptime_ms : ℕ

-- What the ledger reads of an envelope: how many items it carries, and its reports.
pub record Envelope : Type 0 where
  pub oid : ℕ
  pub spans : ℕ
  pub state_snapshots : ℕ
  pub client_reports : List Report

-- An entry of `_INBOX`: counted items, or (the entry with no reason) failed sends.
pub data Entry : Type 0 where
  items : Key → ℕ → Option Text → Entry
  failed_send : ℕ → Entry

-- An outcome in `_SETTLED`: `some true` if the receiver definitely did not store the report,
-- `some false` if it may have, `none` if it was delivered.
abbrev pub Outcome : Type 0
Outcome = Option Bool

-- `next_oid` is where Python's allocator stands; all else is a global of the module. Times are in
-- milliseconds (`last_solo`, `started`) and nanoseconds (`last_timestamp`).
pub record Ledger : Type 0 where
  pub inbox : List Entry
  pub totals : Table Key
  pub sites : Table Site
  pub pending : Table Key
  pub failed_sends : ℕ
  pub unacked : List Report
  pub undeliverable : Table Key
  pub settled : List (Report × Outcome)
  pub out : List (Report × Bool)
  pub unsent : List ℕ
  pub last_timestamp : ℕ
  pub last_solo : Option ℕ
  pub started : ℕ
  pub next_oid : ℕ

-- `_OUT.get(oid)`.
unfoldable pub find_out : ℕ → List (Report × Bool) → Option (Report × Bool)
find_out i [] = none
find_out i ((r, fresh) ∷ out) = if nat_eq r.oid i then some (r, fresh) else find_out i out

-- `_OUT.pop(oid, None)`.
unfoldable pub pop_out : ℕ → List (Report × Bool) → List (Report × Bool)
pop_out i [] = []
pop_out i ((r, fresh) ∷ out) = if nat_eq r.oid i then out else (r, fresh) ∷ pop_out i out

-- `_OUT[id(r)] = (r, fresh)`.
unfoldable pub put_out : Report → Bool → List (Report × Bool) → List (Report × Bool)
put_out r fresh [] = (r, fresh) ∷ []
put_out r fresh ((q, b) ∷ out) =
    if nat_eq q.oid r.oid then (r, fresh) ∷ out else (q, b) ∷ put_out r fresh out

-- `_OUT.update((id(r), (r, False)) for r in reports)`.
unfoldable pub put_all_out : List Report → Bool → List (Report × Bool) → List (Report × Bool)
put_all_out [] fresh out = out
put_all_out (r ∷ rs) fresh out = put_all_out rs fresh (put_out r fresh out)

-- `min(_UNACKED, key=lambda r: r.timestamp_ns)`: the oldest report, the first of these.
unfoldable pub oldest : Report → List Report → Report
oldest r [] = r
oldest r (q ∷ qs) = let m = oldest q qs in if ltb m.timestamp_ns r.timestamp_ns then m else r

-- `_UNACKED.remove(oldest)`: nothing in front of the first oldest report equals it.
unfoldable pub remove_oldest : Report → List Report → List Report
unfolding oldest
remove_oldest r [] = []
remove_oldest r (q ∷ qs) =
    let rest = remove_oldest q qs in
    if ltb (oldest q qs).timestamp_ns r.timestamp_ns then r ∷ rest else q ∷ qs

-- `_at_fork_reinit`, at the time `now`: nothing is counted, held or out.
unfoldable pub at_fork_reinit : ℕ → Ledger → Ledger
at_fork_reinit now s = record {
  inbox = [];
  totals = [];
  sites = [];
  pending = [];
  failed_sends = 0;
  unacked = [];
  undeliverable = [];
  settled = [];
  out = [];
  unsent = [];
  last_timestamp = 0;
  last_solo = none;
  started = now;
  next_oid = s.next_oid;
}
