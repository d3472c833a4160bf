-- ===== src/Assembly/Units/Ambience.antt =====
-- What a registry makes of the unit that the ambient context names, and the parent edge of a span.
use wardex_sdk.Prelude.{
  ℕ, ◌*◌, ◌^◌, Bool, true, false, not, ◌&&◌, ◌||◌, Option, none, some, List, [], ◌∷◌, nat_eq,
  if◌then◌else◌,
}
use wardex_sdk.Prelude.Text.{Text, text_eq}
use wardex_sdk.Types.{TraceId, SpanContext}
use wardex_sdk.Assembly.Integrity.{
  Limitation, instrumentation_degraded, correlation_conflict, unit_inferred_sole, parent_unresolved,
  alias_forgotten,
}
use wardex_sdk.Assembly.Parentage.Confidence.{
  Float, plus, real, Evidence, contextvar, unit_alias, unit_sole, unresolved, cap_at_alias_tier,
}
use wardex_sdk.Assembly.Parentage.Resolve.{
  Ambient, Parentage, empty_ambient, evidence_of, resolve_parentage, child_of, with_limitation,
  is_none,
}
use wardex_sdk.Assembly.Units.State.{
  UnitKey, UnitKind, session, UnitKind-discrete, WorkUnit, Registry,
}
use wardex_sdk.Assembly.Units.Forgotten.{is_same_trace, is_under, recall}
use wardex_sdk.Assembly.Units.Aliases.{find}

-- `_AmbientUnit`, with the task that set it.
pub record AmbientUnit : Type 0 where
  pub unit : ℕ
  pub owner : ℕ
  pub pinned : Bool

abbrev bool_eq : Bool → Bool → Bool
bool_eq true b = b
bool_eq false b = not b

-- `==` of two contexts.
unfoldable pub is_same_context : SpanContext → SpanContext → Bool
is_same_context a b =
    text_eq a.trace_id.value b.trace_id.value
    && text_eq a.span_id.value b.span_id.value
    && nat_eq a.trace_flags b.trace_flags
    && bool_eq a.is_remote b.is_remote

-- `current`: the unit of the context variable, while it is live.
unfoldable pub current : Option AmbientUnit → Registry → Option ℕ
current none r = none
current (some entry) r = if (r.units entry.unit).live then some entry.unit else none

unfoldable pub closed_ambient_context : Option AmbientUnit → Registry → Option SpanContext
closed_ambient_context none r = none
closed_ambient_context (some entry) r =
    if (r.units entry.unit).live then none else some (r.units entry.unit).context

unfoldable pub refused_ambient_marker : Option AmbientUnit → Registry → Limitation
refused_ambient_marker none r = correlation_conflict
refused_ambient_marker (some entry) r =
    if (r.units entry.unit).evicted then instrumentation_degraded else correlation_conflict

unfoldable pub is_stale : Option SpanContext → Option SpanContext → Bool
unfolding is_same_context
is_stale none ctx = false
is_stale (some stale) none = false
is_stale (some stale) (some ctx) = is_same_context ctx stale

-- Whether the ambient context is the span of a unit that has closed.
unfoldable pub is_poisoned : Option AmbientUnit → Ambient → Registry → Bool
unfolding is_stale closed_ambient_context
is_poisoned entry ambient r = is_stale (closed_ambient_context entry r) ambient.span_context

unfoldable pub becomes_trace_root : Option AmbientUnit → Ambient → Registry → Bool
unfolding is_poisoned is_none
becomes_trace_root entry ambient r = is_poisoned entry ambient r || is_none ambient.span_context

-- `parent_is_closed_unit`.
unfoldable pub parent_is_closed_unit : Option SpanContext → Option AmbientUnit → Registry → Bool
unfolding is_same_context
parent_is_closed_unit parent none r = false
parent_is_closed_unit none (some entry) r = false
parent_is_closed_unit (some parent) (some entry) r =
    not (r.units entry.unit).live && is_same_context parent (r.units entry.unit).context

-- The identity test of a kind.
abbrev pub is_kind : UnitKind → UnitKind → Bool
is_kind a b = elim (UnitKind-discrete a b) [ yes p ↦ true | no p ↦ false ]

-- `owner is not None and unit.owner != owner`.
unfoldable pub is_of_other : Option Text → Option Text → Bool
is_of_other none has_owner = false
is_of_other (some owner) none = true
is_of_other (some owner) (some actual) = not (text_eq actual owner)

-- The one live unit of a kind and, where asked, an owner; none where there are two.
unfoldable pub sole_of : (ℕ → WorkUnit) → UnitKind → Option Text → Option ℕ → List ℕ → Option ℕ
unfolding is_of_other is_none
sole_of units kind owner found [] = found
sole_of units kind owner found (u ∷ rest) =
    let counts = is_kind (units u).kind kind && not (is_of_other owner (units u).owner) in
    if counts
    then (if is_none found then sole_of units kind owner (some u) rest else none)
    else sole_of units kind owner found rest

unfoldable pub sole_live : UnitKind → Option Text → Registry → Option ℕ
unfolding sole_of
sole_live kind owner r = sole_of r.units kind owner none r.live_units

-- `Unit.child` without a conversation of its own.
unfoldable pub child : TraceId → WorkUnit → Evidence → Parentage
unfolding child_of
child generated unit e = child_of generated unit.context e unit.conversation unit.tracestate

-- `Evidence(source, request_id=hint)`, and the float 0.8.
abbrev hinted : Evidence → Option Text → Evidence
hinted e hint = record e { request_id = hint }

abbrev pub doubtful_tier : Float
doubtful_tier = real (plus (3602879701896397 * 2 ^ 1022))

-- The edge of a span whose unit lost the alias that it names.
unfoldable pub forgotten_edge :
    TraceId → Option WorkUnit → Ambient → Option Text → WorkUnit → Parentage
unfolding child with_limitation resolve_parentage cap_at_alias_tier
forgotten_edge generated (some sole) ambient hint owner =
    with_limitation alias_forgotten (child generated sole (hinted (evidence_of unit_sole) hint))
forgotten_edge generated none ambient hint owner = elim ambient.span_context [
  | none ↦
      with_limitation alias_forgotten
        (resolve_parentage generated empty_ambient (hinted (evidence_of unresolved) hint))
  | some ctx ↦
      let seen = hinted (evidence_of contextvar) hint in
      if is_same_trace ctx owner.context
      then with_limitation alias_forgotten
          (resolve_parentage generated ambient (cap_at_alias_tier seen))
      else with_limitation alias_forgotten (
          with_limitation correlation_conflict (
            resolve_parentage generated ambient
              (cap_at_alias_tier (record seen { confidence = some doubtful_tier }))))
]

abbrev hint_of : Option UnitKey → Option Text
hint_of none = none
hint_of (some key) = some key.value

abbrev unit_of : (ℕ → WorkUnit) → Option ℕ → Option WorkUnit
unit_of units none = none
unit_of units (some u) = some (units u)

unfoldable pub find_any : Option UnitKey → Registry → Option ℕ
unfolding find
find_any none r = none
find_any (some alias) r = (find alias r).1

-- A unit was found beside an ambient span.
unfoldable pub edge_between :
    TraceId → Option Text → Ambient → SpanContext → WorkUnit → (ℕ → WorkUnit) → ℕ → Parentage
unfolding child resolve_parentage with_limitation is_under
edge_between generated hint ambient ctx unit units fuel =
    if is_same_trace unit.context ctx
    then (if is_under units fuel unit.parent ctx
        then child generated unit (hinted (evidence_of unit_alias) hint)
        else resolve_parentage generated ambient (hinted (evidence_of contextvar) hint))
    else with_limitation correlation_conflict (
        resolve_parentage generated ambient
          (record (hinted (evidence_of contextvar) hint) { confidence = some doubtful_tier }))

-- Neither a unit nor one that lost the alias.
unfoldable pub edge_alone : TraceId → Option Text → Ambient → Registry → Parentage
unfolding child resolve_parentage with_limitation sole_live
edge_alone generated hint ambient r = elim ambient.span_context [
  | some ctx ↦ resolve_parentage generated ambient (evidence_of contextvar)
  | none ↦ elim (sole_live session none r) [
    | some sole ↦
        with_limitation unit_inferred_sole
          (child generated (r.units sole) (hinted (evidence_of unit_sole) hint))
    | none ↦
        with_limitation parent_unresolved
          (resolve_parentage generated empty_ambient (hinted (evidence_of unresolved) hint))
  ]
]

unfoldable pub forgotten_owner : Option UnitKey → Option SpanContext → Registry → Option ℕ
unfolding recall
forgotten_owner none ctx r = none
forgotten_owner (some alias) ctx r = recall r.units r.next_unit alias ctx none r.forgotten

-- `_edge`; what `find` drops on the way makes no difference to an edge.
unfoldable pub edge : TraceId → Option UnitKey → Ambient → Registry → Parentage
unfolding find_any edge_between edge_alone forgotten_owner forgotten_edge sole_live child
edge generated alias ambient r = elim (find_any alias r) [
  | some u ↦ elim ambient.span_context [
    | some ctx ↦ edge_between generated (hint_of alias) ambient ctx (r.units u) r.units r.next_unit
    | none ↦ child generated (r.units u) (hinted (evidence_of unit_alias) (hint_of alias))
  ]
  | none ↦ elim (forgotten_owner alias ambient.span_context r) [
    | some owner ↦
        forgotten_edge generated (unit_of r.units (sole_live session none r)) ambient
          (hint_of alias) (r.units owner)
    | none ↦ edge_alone generated (hint_of alias) ambient r
  ]
]

unfoldable pub resolve :
    TraceId → Option UnitKey → Ambient → Option AmbientUnit → Registry → Parentage
unfolding edge is_poisoned refused_ambient_marker with_limitation
resolve generated alias ambient entry r =
    if is_poisoned entry ambient r
    then with_limitation (refused_ambient_marker entry r) (edge generated alias empty_ambient r)
    else edge generated alias ambient r
