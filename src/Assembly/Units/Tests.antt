-- ===== src/Assembly/Units/Tests.antt =====
-- A registry that closes a session with its step for the next session's sake.
use wardex_sdk.Prelude.{
  ℕ, true, false, none, some, List, [], ◌∷◌, ◌≡◌, refl, ◌⊎◌, ◌<◌, arith, if◌then◌else◌,
}
use wardex_sdk.Prelude.Text.{codes}
use wardex_sdk.Assembly.Parentage.Resolve.{empty_ambient, evidence_of, resolve_parentage}
use wardex_sdk.Assembly.Parentage.Confidence.{unresolved}
use wardex_sdk.Assembly.Vocabulary.{SpanIntent}
use wardex_sdk.Spans.Enums.{CaptureSource}
use wardex_sdk.Assembly.Builder.Draft.{SpanDraft, new_draft}
use wardex_sdk.Assembly.Units.State.{UnitKind, UnitKey, WorkUnit, Registry}
use wardex_sdk.Assembly.Units.Tables.{is_key_in}
use wardex_sdk.Assembly.Units.Aliases.{find, resolve_link_target}
use wardex_sdk.Assembly.Units.Spans.{Generated}
use wardex_sdk.Assembly.Units.Edges.{Asked, Moment, new_unit}
use wardex_sdk.Assembly.Units.Life.{Call, opening, new_registry, IsRun, run, perform, IsKnown}
use wardex_sdk.Assembly.Units.Outcomes.{
  count, life, IsRooted, count-life, life-IsRooted, find-life, life-IsBounded,
}
use wardex_sdk.Assembly.Units.Rooms.{IsBounded}

abbrev new_ids : ℕ → Generated
new_ids n = record {
  trace_id = record { value = n ∷ 1 ∷ [] };
  span_id = record { value = n ∷ 2 ∷ [] };
}

abbrev at : ℕ → Moment
at n = record { entry = none; task = 0; now = n; generated = new_ids n }

abbrev key_of : ℕ → UnitKey
key_of n = record { namespace = codes "run"; value = n ∷ [] }

abbrev session_asked : ℕ → Asked
session_asked n = record {
  kind = UnitKind.session;
  key = key_of n;
  ambient = empty_ambient;
  evidence = none;
  intent = SpanIntent.invoke_agent;
  subject = none;
  parent_unit = none;
  aliases = [];
  owner = none;
  conversation = none;
  carries_loss = false;
}

abbrev step_asked : ℕ → ℕ → Asked
step_asked n parent = record (session_asked n) { kind = UnitKind.step; parent_unit = some parent }

-- What a store holds at a place that was not handed out is never read.
abbrev no_draft : ℕ → SpanDraft
no_draft place =
    new_draft (new_ids 0).span_id
      (resolve_parentage (new_ids 0).trace_id empty_ambient (evidence_of unresolved)) none none
      CaptureSource.adapter 0 none

abbrev no_unit : ℕ → WorkUnit
no_unit place =
    let p = resolve_parentage (new_ids 0).trace_id empty_ambient (evidence_of unresolved) in
    new_unit 0 (no_draft 0) (record { parentage = p; conversation = none; tracestate = none })
      (at 0) (session_asked 0)

-- One root at most: the third call closes the first unit, and with it the second.
abbrev some_calls : List Call
some_calls =
    opening (at 1) (session_asked 1)
    ∷ opening (at 2) (step_asked 2 0)
    ∷ opening (at 3) (session_asked 3)
    ∷ []

abbrev busy : Registry
busy = life 1 4 2 8 no_unit no_draft some_calls

-- The third call gave the sink the step and then its session.
emitted_busy : busy.emitted ≡ 1 ∷ 0 ∷ []
unfolding life run perform new_registry
emitted_busy = refl

some_calls-IsRun : IsRun some_calls (new_registry 1 4 2 8 no_unit no_draft)
unfolding IsRun IsKnown perform new_registry
some_calls-IsRun = ((λ p e. absurd (cc)), ((λ p e. ground (arith, e)), ((λ p e. absurd (cc)), tt)))

busy_made : busy.next_unit ≡ 3
unfolding life run perform new_registry
busy_made = refl

busy_live : (busy.units 2).live ≡ true
unfolding life run perform new_registry
busy_live = refl

-- The step's span went out, though nobody closed it.
count-life_example :
    count (busy.units 1).draft busy.emitted ≡ (if (busy.units 1).live then 0 else 1)
count-life_example =
    count-life 1 4 2 8 no_unit no_draft some_calls 1 some_calls-IsRun (omega (arith, busy_made))

life-IsRooted_example : IsRooted 3 busy 2
life-IsRooted_example =
    life-IsRooted 1 4 2 8 no_unit no_draft some_calls 2 some_calls-IsRun (omega (arith, busy_made))
      busy_live

find-life_example :
    (find (key_of 3) busy ≡ (busy, none))
    ⊎ ((u : ℕ) × (find (key_of 3) busy ≡ (busy, some u))
        × (u < busy.next_unit)
        × ((busy.units u).live ≡ true)
        × (is_key_in (key_of 3) (busy.units u).alias_keys ≡ true)
        × (resolve_link_target (key_of 3) busy ≡ some (busy.units u).context))
find-life_example = find-life 1 4 2 8 no_unit no_draft some_calls (key_of 3) some_calls-IsRun

life-IsBounded_example : IsBounded 1 4 busy
life-IsBounded_example =
    life-IsBounded 1 4 2 8 no_unit no_draft some_calls (omega arith) (omega arith) some_calls-IsRun
