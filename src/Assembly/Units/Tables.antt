-- ===== src/Assembly/Units/Tables.antt =====
-- The bounded tables of one unit: its claims, its open spans, its aliases and what it recorded.
use wardex_sdk.Prelude.{
  ℕ, ◌-◌, Bool, true, false, ◌||◌, Option, none, some, List, [], ◌∷◌, ◌++◌, leb, ltb, nat_eq,
  length, take, ◌==◌, if◌then◌else◌,
}
use wardex_sdk.Prelude.Dicts.{get, put}
use wardex_sdk.Assembly.Integrity.{Limitation}
use wardex_sdk.Assembly.Builder.Draft.{SpanDraft}
use wardex_sdk.Assembly.Builder.Setters.{add_limitation, set_status}
use wardex_sdk.Spans.Enums.{StatusCode}
use wardex_sdk.Assembly.Units.State.{
  UnitKey, unit_key_Eq, OpenDraft, WorkUnit, Registry, change_unit, change,
}

-- What goes and what stays. An empty table that is full would raise; a bound of 1 or more has none.
unfoldable pub evict_oldest {ℓ} : {A : Type ℓ} → ℕ → List A → Option A × List A
evict_oldest bound [] = (none, [])
evict_oldest bound (oldest ∷ table) =
    if ltb (length (oldest ∷ table)) bound then (none, oldest ∷ table) else (some oldest, table)

-- The claims of a unit after a claim, and whether it was granted.
unfoldable pub claim_over :
    Option ℕ → ℕ → UnitKey → ℕ → List (UnitKey × ℕ) → List (UnitKey × ℕ) × Bool
unfolding evict_oldest put
claim_over none bound key rank claims = (put key rank (evict_oldest bound claims).1, true)
claim_over (some best) bound key rank claims =
    if leb rank best then (claims, false) else (put key rank claims, true)

unfoldable pub claim : ℕ → UnitKey → ℕ → Registry → Registry × Bool
unfolding claim_over get
claim u key rank r =
    let claims = (r.units u).claims in
    let after = claim_over (get key claims) r.max_entries_per_unit key rank claims in
    (change_unit u (λ unit. record unit { claims = after.0 }) r, after.1)

unfoldable pub owner_rank : ℕ → UnitKey → Registry → Option ℕ
unfolding get
owner_rank u key r = get key (r.units u).claims

-- Whether a claim outranks the one that stood when a span was opened.
unfoldable pub outranks : Option ℕ → ℕ → Bool
outranks none rank = false
outranks (some owner) rank = ltb rank owner

unfoldable pub superseded : List (UnitKey × ℕ) → OpenDraft → Bool
unfolding outranks get
superseded claims entry = elim entry.claim_key [
  | none ↦ false
  | some key ↦ outranks (get key claims) entry.rank_at_open
]

-- `_pop_open`.
unfoldable pub pop_open : ℕ → List OpenDraft → Option OpenDraft × List OpenDraft
pop_open draft [] = (none, [])
pop_open draft (entry ∷ table) =
    let rest = pop_open draft table in
    if nat_eq entry.draft draft then (some entry, table) else (rest.0, entry ∷ rest.1)

unfoldable pub force_close : Limitation → ℕ → SpanDraft → SpanDraft
unfolding add_limitation set_status
force_close marker end_ns d = record (set_status StatusCode.unset [] (add_limitation marker d)) {
  end_ns = some end_ns;
}

-- `key in alias_keys`.
unfoldable pub is_key_in : UnitKey → List UnitKey → Bool
is_key_in key [] = false
is_key_in key (k ∷ keys) = k == key || is_key_in key keys

-- `bool(data)`.
abbrev pub has_data : List ℕ → Bool
has_data [] = false
has_data (b ∷ data_rest) = true

-- The buffer, and whether something of the data did not fit.
unfoldable pub append_capped : List ℕ → List ℕ → ℕ → List ℕ × Bool
append_capped buf chunk cap =
    let room = cap - length buf in
    if leb cap (length buf)
    then (buf, has_data chunk)
    else if leb (length chunk) room
    then (buf ++ chunk, false)
    else (buf ++ take room chunk, true)

unfoldable pub record_input : ℕ → List ℕ → Registry → Registry
unfolding append_capped
record_input u chunk r =
    let after = append_capped (r.units u).input chunk r.max_record_bytes in
    change_unit u
      (λ unit. record unit {
        input_recorded = true;
        input = after.0;
        input_truncated = unit.input_truncated || after.1;
      })
      r

unfoldable pub record_output : ℕ → List ℕ → Registry → Registry
unfolding append_capped
record_output u chunk r =
    let after = append_capped (r.units u).output chunk r.max_record_bytes in
    change_unit u
      (λ unit. record unit {
        output_recorded = true;
        output = after.0;
        output_truncated = unit.output_truncated || after.1;
      })
      r

-- `Unit.note`: a unit that is not live takes none.
unfoldable pub note_on : Limitation → ℕ → (ℕ → WorkUnit) → (ℕ → SpanDraft) → ℕ → SpanDraft
unfolding change add_limitation
note_on marker u units drafts =
    if (units u).live then change (units u).draft (add_limitation marker) drafts else drafts

unfoldable pub note : Limitation → ℕ → Registry → Registry
unfolding note_on
note marker u r = record r { drafts = note_on marker u r.units r.drafts }
