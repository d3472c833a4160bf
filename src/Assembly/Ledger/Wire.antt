-- ===== src/Assembly/Ledger/Wire.antt =====
-- What a report says on the wire: the events cut from the pending table, and the keys read back.
use wardex_sdk.Prelude.{
  ℕ, ◌+◌, ◌-◌, Bool, true, false, ◌&&◌, Option, none, some, List, [], ◌∷◌, min, max, ltb, nat_eq,
  if◌then◌else◌,
}
use wardex_sdk.Prelude.Text.{Text, before_first, after_first}
use wardex_sdk.Prelude.Counts.{Table}
use wardex_sdk.Assembly.DropReasons.{DropReason, DropUnit}
use wardex_sdk.Assembly.DropReasons.Keys.{Key, colon, reason_of, unit_of, wire_key}
use wardex_sdk.Assembly.Ledger.State.{Report, Ledger, put_out}

abbrev pub int32_max : ℕ
int32_max = 2147483647

-- A pair in front, if both names of the event are known.
unfoldable pub known_key : Option DropReason → Option DropUnit → ℕ → List (Key × ℕ) → List (Key × ℕ)
known_key (some r) (some u) n rest = ((r, u), n) ∷ rest
known_key (some r) none n rest = rest
known_key none u n rest = rest

-- `_keys_of`: the table keys of a report's events.
unfoldable pub keys_of_events : List (Text × ℕ) → List (Key × ℕ)
unfolding known_key
keys_of_events [] = []
keys_of_events ((name, n) ∷ events) =
    known_key (reason_of (before_first colon name)) (unit_of (after_first colon name)) n
      (keys_of_events events)

unfoldable pub keys_of : Report → List (Key × ℕ)
unfolding keys_of_events
keys_of r = keys_of_events r.discarded_events

-- Python's `<=` on texts.
unfoldable pub text_le : Text → Text → Bool
text_le [] t = true
text_le (c ∷ s) [] = false
text_le (c ∷ s) (d ∷ t) =
    let rest = text_le s t in if ltb c d then true else if nat_eq c d then rest else false

-- `sorted(table, key=_wire_key)`, with the count of each key.
unfoldable pub insert_key : Key × ℕ → Table Key → Table Key
insert_key x [] = x ∷ []
insert_key x (y ∷ t) =
    if text_le (wire_key x.0) (wire_key y.0) then x ∷ y ∷ t else y ∷ insert_key x t

unfoldable pub sort_keys : Table Key → Table Key
unfolding insert_key text_le
sort_keys [] = []
sort_keys (x ∷ t) = insert_key x (sort_keys t)

-- The events of a report: each count, as far as an int32 holds it.
unfoldable pub events_of : Table Key → List (Text × ℕ)
events_of [] = []
events_of ((k, n) ∷ t) = (wire_key k, min n int32_max) ∷ events_of t

-- What stays in the pending table: the rest of each larger count.
unfoldable pub rest_of : Table Key → Table Key
rest_of [] = []
rest_of ((k, n) ∷ t) = if ltb int32_max n then (k, n - int32_max) ∷ rest_of t else rest_of t

-- The report that `_cut_held` builds.
unfoldable pub new_report : ℕ → ℕ → ℕ → Ledger → Report
new_report queue_depth time now s = record {
  oid = s.next_oid;
  timestamp_ns = max time (s.last_timestamp + 1);
  discarded_events = events_of (sort_keys s.pending);
  failed_sends = min s.failed_sends int32_max;
  queue_depth = min queue_depth int32_max;
  uptime_ms = now - s.started;
}

abbrev pub is_empty {ℓ} : {A : Type ℓ} → List A → Bool
is_empty [] = true
is_empty (_ ∷ _) = false

-- The ledger without what that report takes.
unfoldable pub cut_state : ℕ → ℕ → ℕ → Ledger → Ledger
unfolding new_report sort_keys events_of rest_of put_out
cut_state queue_depth time now s = record s {
  pending = rest_of (sort_keys s.pending);
  failed_sends = s.failed_sends - min s.failed_sends int32_max;
  out = put_out (new_report queue_depth time now s) true s.out;
  last_timestamp = max time (s.last_timestamp + 1);
  next_oid = s.next_oid + 1;
}

-- `_cut_held`, with `time.time_ns()` and the monotonic clock's reading.
unfoldable pub cut_held : ℕ → ℕ → ℕ → Ledger → Option Report × Ledger
unfolding cut_state
cut_held queue_depth time now s =
    if is_empty s.pending && nat_eq s.failed_sends 0
    then (none, s)
    else (some (new_report queue_depth time now s), cut_state queue_depth time now s)
