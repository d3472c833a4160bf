-- ===== src/Context/W3c.antt =====
-- sdks/python/src/wardex_sdk/context/_w3c.py: reading and writing `traceparent`, and vetting an
-- inbound `tracestate`. Texts are lists of code points.
pub mod Hex
pub mod RoundTrip
pub mod Tracestate
mod Tests
use wardex_sdk.Prelude.{
  ℕ, zero, suc, ◌+◌, ◌-◌, ◌*◌, ◌%◌, Bool, true, false, not, ◌&&◌, ◌||◌, Option, none, some, List,
  [], ◌∷◌, ◌++◌, length, take, all, ltb, leb, nat_eq, if◌then◌else◌,
}
use wardex_sdk.Prelude.Text.{Text, codes, between, strip, text_eq}
use wardex_sdk.Prelude.Split.{split, join}
use wardex_sdk.Types.{TraceId, SpanId, SpanContext, to_hex, trace_hex, span_hex}

infixl 5 ◌>>=◌
abbrev pub ◌>>=◌ {ℓ κ} : {A : Type ℓ} {B : Type κ} → Option A → (A → Option B) → Option B
none >>= f = none
some a >>= f = f a

abbrev pub dash : ℕ
dash = b'-'

-- `[0-9a-f]`.
unfoldable pub is_hex : ℕ → Bool
is_hex c = between 48 57 c || between 97 102 c

abbrev pub cons_run : ℕ → Option (Text × Text) → Option (Text × Text)
cons_run c none = none
cons_run c (some (ds, r)) = some (c ∷ ds, r)

-- `[0-9a-f]{n}`: the digits, and what follows them.
unfoldable pub hex_run : ℕ → Text → Option (Text × Text)
hex_run zero s = some ([], s)
hex_run (suc n) [] = none
hex_run (suc n) (c ∷ s) = let rest = hex_run n s in if is_hex c then cons_run c rest else none

-- A literal `-`.
unfoldable pub literal_dash : Text → Option Text
literal_dash [] = none
literal_dash (c ∷ s) = if nat_eq c dash then some s else none

-- `.*$` with no flag: the dot stops at a line feed, and `$` also matches before a last one.
unfoldable pub dot_star_end : Text → Option Text
dot_star_end [] = some []
dot_star_end (c ∷ s) =
    let rest = dot_star_end s in
    if nat_eq c 10
    then elim s [ [] ↦ some [] | _ ∷ _ ↦ none ]
    else elim rest [ none ↦ none | some r ↦ some (c ∷ r) ]

-- The groups of `_FIELD_RE`.
pub record Fields : Type 0 where
  pub version : Text
  pub trace_id : Text
  pub span_id : Text
  pub flags : Text
  pub rest : Text

unfoldable pub field_re : Text → Option Fields
field_re s = do
  (version, s₁) ← hex_run 2 s
  s₂ ← literal_dash s₁
  (trace_id, s₃) ← hex_run 32 s₂
  s₄ ← literal_dash s₃
  (span_id, s₅) ← hex_run 16 s₄
  s₆ ← literal_dash s₅
  (flags, s₇) ← hex_run 2 s₆
  rest ← dot_star_end s₇
  some (record {
    version = version;
    trace_id = trace_id;
    span_id = span_id;
    flags = flags;
    rest = rest;
  })

abbrev is_nonempty : Text → Bool
is_nonempty [] = false
is_nonempty (_ ∷ _) = true

unfoldable pub future_fields_ok : Text → Bool
future_fields_ok [] = false
future_fields_ok (c ∷ s) = if nat_eq c dash then all is_nonempty (split dash s) else false

-- The number that a hexadecimal digit stands for.
unfoldable pub hex_value : ℕ → ℕ
hex_value c = if leb c 57 then c - 48 else c - 87

-- `bytes.fromhex`, on a text of hexadecimal digits in lower case.
unfoldable pub from_hex : Text → List ℕ
unfolding hex_value
from_hex [] = []
from_hex (c ∷ []) = []
from_hex (c ∷ d ∷ s) = (hex_value c * 16 + hex_value d) ∷ from_hex s

-- `int(text, 16)`, on such a text.
unfoldable pub int16 : ℕ → Text → ℕ
unfolding hex_value
int16 acc [] = acc
int16 acc (c ∷ s) = int16 (acc * 16 + hex_value c) s

-- `value == bytes(n)`, for a value of that length.
unfoldable pub all_zero : List ℕ → Bool
all_zero [] = true
all_zero (b ∷ bs) = nat_eq b 0 && all_zero bs

-- What `parse_traceparent` does with the groups of a match.
unfoldable pub read_fields : Fields → Option (TraceId × SpanId × ℕ)
unfolding from_hex int16 all_zero text_eq future_fields_ok
read_fields m =
    if text_eq m.version (codes "ff")
    then none
    else if text_eq m.version (codes "00") && is_nonempty m.rest
    then none
    else if is_nonempty m.rest && not (future_fields_ok m.rest)
    then none
    else if all_zero (from_hex m.trace_id) || all_zero (from_hex m.span_id)
    then none
    else some (
      record { value = from_hex m.trace_id },
      record { value = from_hex m.span_id },
      int16 0 m.flags,
    )

unfoldable pub parse_traceparent : Text → Option (TraceId × SpanId × ℕ)
unfolding read_fields field_re hex_run literal_dash dot_star_end strip is_hex
parse_traceparent value = field_re (strip value) >>= read_fields

unfoldable pub format_traceparent : SpanContext → Text
unfolding to_hex trace_hex span_hex
format_traceparent ctx =
    codes "00-"
    ++ (trace_hex ctx.trace_id
        ++ (dash ∷ (span_hex ctx.span_id ++ (dash ∷ to_hex ((ctx.trace_flags % 256) ∷ [])))))

abbrev pub max_tracestate_members : ℕ
max_tracestate_members = 32

abbrev pub comma : ℕ
comma = b','

-- `"\x20" <= ch <= "\x7e"`.
abbrev pub is_printable : ℕ → Bool
is_printable = between 0x20 0x7e

-- What `sanitize_tracestate` does with the stripped value.
unfoldable pub cap_members : Text → Text
cap_members trimmed =
    let members = split comma trimmed in
    if ltb max_tracestate_members (length members)
    then join comma (take max_tracestate_members members)
    else trimmed

unfoldable pub sanitize_tracestate : Option Text → Option Text
unfolding cap_members
sanitize_tracestate none = none
sanitize_tracestate (some value) =
    let trimmed = strip value in
    if not (is_nonempty trimmed)
    then none
    else if not (all is_printable trimmed)
    then none
    else some (cap_members trimmed)
