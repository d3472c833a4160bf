-- ===== src/Assembly/Units/Edges.antt =====
-- The parent edge and the record of a unit to open.
use wardex_sdk.Prelude.{
  ℕ, zero, suc, Bool, true, false, ◌||◌, Option, none, some, List, [], nat_eq, nat_Eq,
  if◌then◌else◌,
}
use wardex_sdk.Prelude.Dicts.{or_else}
use wardex_sdk.Prelude.Text.{Text}
use wardex_sdk.Assembly.Vocabulary.{SpanIntent}
use wardex_sdk.Assembly.Parentage.Confidence.{Evidence, unit_active, contextvar}
use wardex_sdk.Assembly.Parentage.Resolve.{
  Ambient, Parentage, empty_ambient, evidence_of, resolve_parentage, child_of, with_limitation,
}
use wardex_sdk.Assembly.Builder.Draft.{SpanDraft}
use wardex_sdk.Assembly.Units.State.{
  UnitKind, session, agent, step, call, UnitKey, unit_key_Eq, WorkUnit, Registry,
}
use wardex_sdk.Assembly.Units.Ambience.{AmbientUnit, is_poisoned, refused_ambient_marker}
use wardex_sdk.Assembly.Units.Spans.{Generated}

-- What a unit is opened with. Evidence that is not stated is `AMBIENT`.
pub record Asked : Type 0 where
  pub kind : UnitKind
  pub key : UnitKey
  pub ambient : Ambient
  pub evidence : Option Evidence
  pub intent : SpanIntent
  pub subject : Option Text
  pub parent_unit : Option ℕ
  pub aliases : List UnitKey
  pub owner : Option Text
  pub conversation : Option ℕ
  pub carries_loss : Bool

-- What surrounds the call: the unit of the context variable, the task, the time and new identifiers.
pub record Moment : Type 0 where
  pub entry : Option AmbientUnit
  pub task : ℕ
  pub now : ℕ
  pub generated : Generated

abbrev is_run : UnitKind → Bool
is_run session = true
is_run agent = true
is_run step = false
is_run call = false

-- `a is b` of a conversation that may be none.
abbrev pub is_conversation : Option ℕ → ℕ → Bool
is_conversation none said = false
is_conversation (some conv) said = nat_eq conv said

-- The climb from the unit of the context variable; a parent is older, so a step for each older unit is
-- enough.
unfoldable pub under_from : ℕ → (ℕ → WorkUnit) → ℕ → Option ℕ → ℕ → Bool → Option ℕ
under_from zero units parent place said inside = (units parent).conversation
under_from (suc fuel) units parent none said inside =
    if inside then some said else (units parent).conversation
under_from (suc fuel) units parent (some place) said inside =
    let above =
      under_from fuel units parent (units place).parent said (inside || nat_eq place parent) in
    if is_conversation (units place).conversation said then (units parent).conversation else above

unfoldable pub conversation_under :
    ℕ → UnitKind → Option ℕ → Option AmbientUnit → Registry → Option ℕ
unfolding under_from
conversation_under parent kind none entry r = (r.units parent).conversation
conversation_under parent kind (some said) none r = (r.units parent).conversation
conversation_under parent kind (some said) (some entry) r =
    if is_run kind
    then under_from (suc (suc entry.unit)) r.units parent (some entry.unit) said false
    else (r.units parent).conversation

-- The parent edge of a new unit, with its conversation and tracestate.
pub record Edge : Type 0 where
  pub parentage : Parentage
  pub conversation : Option ℕ
  pub tracestate : Option Text

abbrev edge_of : Parentage → Edge
edge_of p = record { parentage = p; conversation = p.conversation; tracestate = p.tracestate }

abbrev evidence_or : Option Evidence → Evidence → Evidence
evidence_or none e = e
evidence_or (some stated) e = stated

unfoldable pub settle_edge : Option ℕ → Moment → Asked → Registry → Edge
unfolding conversation_under child_of is_poisoned refused_ambient_marker resolve_parentage
    with_limitation
settle_edge (some parent) m asked r =
    let unit = r.units parent in
    let conversation = conversation_under parent asked.kind asked.ambient.conversation m.entry r in
    record {
      parentage =
          child_of m.generated.trace_id unit.context
            (evidence_or asked.evidence (evidence_of unit_active))
            (or_else conversation unit.conversation) unit.tracestate;
      conversation = conversation;
      tracestate = unit.tracestate;
    }
settle_edge none m asked r =
    let e = evidence_or asked.evidence (evidence_of contextvar) in
    if is_poisoned m.entry asked.ambient r
    then edge_of (
        with_limitation (refused_ambient_marker m.entry r)
          (resolve_parentage m.generated.trace_id empty_ambient e))
    else edge_of (resolve_parentage m.generated.trace_id asked.ambient e)

-- `if stated is not None: draft.set_conversation(stated)`.
unfoldable pub state_conversation : Option ℕ → SpanDraft → SpanDraft
state_conversation none d = d
state_conversation (some stated) d = record d { conversation = some stated }

unfoldable pub new_unit : ℕ → SpanDraft → Edge → Moment → Asked → WorkUnit
new_unit draft d e m asked = record {
  key = asked.key;
  kind = asked.kind;
  owner = asked.owner;
  draft = draft;
  context = d.context;
  parentage = e.parentage;
  conversation = or_else asked.conversation e.conversation;
  tracestate = e.tracestate;
  start_ns = m.now;
  parent = asked.parent_unit;
  live = true;
  evicted = false;
  children = [];
  alias_keys = [];
  remembered = [];
  claims = [];
  opened = [];
  input = [];
  output = [];
  input_recorded = false;
  output_recorded = false;
  input_truncated = false;
  output_truncated = false;
}
