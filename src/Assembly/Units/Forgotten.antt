-- ===== src/Assembly/Units/Forgotten.antt =====
-- sdks/python/src/wardex_sdk/_assembly/_forgotten.py: the keys that units lost to the bound of their
-- alias tables, and the edge of what still names one.
use wardex_sdk.Prelude.{
  ℕ, suc, Bool, true, false, not, ◌&&◌, Option, none, some, List, [], ◌∷◌, ◌++◌, leb, nat_eq,
  length, nat_Eq, ◌==◌, if◌then◌else◌, zero,
}
use wardex_sdk.Prelude.Dicts.{get, put, drop_key}
use wardex_sdk.Prelude.Text.{text_eq}
use wardex_sdk.Types.{SpanContext}
use wardex_sdk.Assembly.Units.State.{UnitKey, unit_key_Eq, WorkUnit, Forgotten}

abbrev pub no_forgotten : Forgotten
no_forgotten = record { by_key = []; by_unit = [] }

-- `bytes` are compared as texts are.
abbrev pub is_same_trace : SpanContext → SpanContext → Bool
is_same_trace a b = text_eq a.trace_id.value b.trace_id.value

abbrev pub is_same_span : SpanContext → SpanContext → Bool
is_same_span a b = text_eq a.span_id.value b.span_id.value

-- `by_key.get(key) is unit`.
unfoldable pub is_owned_by : Option ℕ → ℕ → Bool
is_owned_by none unit = false
is_owned_by (some owner) unit = nat_eq owner unit

-- `if by_key.get(key) is unit: del by_key[key]`.
unfoldable pub disown : UnitKey → ℕ → List (UnitKey × ℕ) → List (UnitKey × ℕ)
unfolding is_owned_by get drop_key
disown key unit by_key = if is_owned_by (get key by_key) unit then drop_key key by_key else by_key

unfoldable pub disown_each : List UnitKey → ℕ → List (UnitKey × ℕ) → List (UnitKey × ℕ)
unfolding disown
disown_each [] unit by_key = by_key
disown_each (key ∷ keys) unit by_key = disown_each keys unit (disown key unit by_key)

-- `ring.pop(0)` while the ring is full: the keys that go, and those that stay.
unfoldable pub overflow : ℕ → List UnitKey → List UnitKey × List UnitKey
overflow bound [] = ([], [])
overflow bound (key ∷ ring) =
    let rest = overflow bound ring in
    if leb bound (length (key ∷ ring)) then (key ∷ rest.0, rest.1) else ([], key ∷ ring)

unfoldable pub ring_of : Option (List UnitKey) → List UnitKey
ring_of none = []
ring_of (some ring) = ring

unfoldable pub forget : ℕ → UnitKey → ℕ → Forgotten → Forgotten
unfolding overflow ring_of disown_each get put
forget bound key unit f =
    let rings = overflow bound (ring_of (get unit f.by_unit)) in
    record {
      by_key = put key unit (disown_each rings.0 unit f.by_key);
      by_unit = put unit (rings.1 ++ (key ∷ [])) f.by_unit;
    }

-- `ring.remove(key)`.
unfoldable pub without : UnitKey → List UnitKey → List UnitKey
without key [] = []
without key (k ∷ ring) = let rest = without key ring in if k == key then ring else k ∷ rest

-- The ring of a unit that lost a key, where it has one.
unfoldable pub shorten :
    UnitKey → ℕ → Option (List UnitKey) → List (ℕ × List UnitKey) → List (ℕ × List UnitKey)
unfolding without put
shorten key owner none by_unit = by_unit
shorten key owner (some ring) by_unit = put owner (without key ring) by_unit

unfoldable pub rebound_from : Option ℕ → UnitKey → ℕ → Bool → Forgotten → Forgotten
unfolding shorten get drop_key
rebound_from none key unit carries_loss f = f
rebound_from (some owner) key unit carries_loss f =
    if carries_loss && not (nat_eq owner unit) then f else record {
      by_key = drop_key key f.by_key;
      by_unit = shorten key owner (get owner f.by_unit) f.by_unit;
    }

unfoldable pub rebound : UnitKey → ℕ → Bool → Forgotten → Forgotten
unfolding rebound_from get
rebound key unit carries_loss f = rebound_from (get key f.by_key) key unit carries_loss f

unfoldable pub drop_unit : ℕ → Forgotten → Forgotten
unfolding disown_each ring_of get drop_key
drop_unit unit f = record {
  by_key = disown_each (ring_of (get unit f.by_unit)) unit f.by_key;
  by_unit = drop_key unit f.by_unit;
}

-- The parent that a unit names is always older, so one step per older unit climbs to the top.
module _ (units : ℕ → WorkUnit) where
  -- Whether `owner` is on the way from `node` to the top.
  unfoldable pub climbs_to : ℕ → Option ℕ → ℕ → Bool
  climbs_to fuel none owner = false
  climbs_to zero (some node) owner = false
  climbs_to (suc fuel) (some node) owner =
      let above = climbs_to fuel (units node).parent owner in
      if nat_eq node owner then true else above

  -- Whether a span of that context is on the way from `node` to the top.
  unfoldable pub is_under : ℕ → Option ℕ → SpanContext → Bool
  is_under fuel none ctx = false
  is_under zero (some node) ctx = false
  is_under (suc fuel) (some node) ctx =
      let above = is_under fuel (units node).parent ctx in
      if is_same_span (units node).context ctx then true else above

  -- Whether a context in the owner's trace is not above the owner.
  unfoldable pub is_not_above : ℕ → ℕ → Option SpanContext → Bool
  unfolding is_under
  is_not_above fuel owner none = false
  is_not_above fuel owner (some ctx) =
      is_same_trace ctx (units owner).context && not (is_under fuel (units owner).parent ctx)

  unfoldable pub lost_nothing : ℕ → ℕ → Option SpanContext → Option ℕ → Bool
  unfolding climbs_to is_not_above
  lost_nothing fuel owner ctx holder =
      if climbs_to fuel holder owner then true else is_not_above fuel owner ctx

  unfoldable pub recall_from : ℕ → Option ℕ → Option SpanContext → Option ℕ → Option ℕ
  unfolding lost_nothing
  recall_from fuel none ctx holder = none
  recall_from fuel (some owner) ctx holder =
      if lost_nothing fuel owner ctx holder then none else some owner

  unfoldable pub recall : ℕ → UnitKey → Option SpanContext → Option ℕ → Forgotten → Option ℕ
  unfolding recall_from get
  recall fuel key ctx holder f = recall_from fuel (get key f.by_key) ctx holder
