-- ===== src/Assembly/Units/Life.antt =====
-- Any life of a registry, from the moment it is made, as a list of calls.
use mathlib.Core.Path.{subst}
use wardex_sdk.Prelude.{
  ℕ, ◌<◌, Bool, Option, none, some, List, [], ◌∷◌, nat_eq, includes, ◌*◌, ◌≡◌, refl, sym, arith,
  nat_Eq, holds_if,
}
use wardex_sdk.Prelude.Dicts.{get, drop_key}
use wardex_sdk.Prelude.Text.{Text}
use wardex_sdk.Assembly.Integrity.{Limitation, correlation_conflict}
use wardex_sdk.Assembly.Builder.Draft.{SpanDraft}
use wardex_sdk.Assembly.Units.State.{UnitKey, unit_key_Eq, WorkUnit, Carrier, Registry}
use wardex_sdk.Assembly.Units.Forgotten.{no_forgotten}
use wardex_sdk.Assembly.Units.Tables.{note, claim, record_input, record_output}
use wardex_sdk.Assembly.Units.Close.{Ending}
use wardex_sdk.Assembly.Units.Aliases.{add_alias, bind_alias, find}
use wardex_sdk.Assembly.Units.Spans.{Generated, Opened, open_span, close_span}
use wardex_sdk.Assembly.Units.Open.{open_unit, close_unit, close_all}
use wardex_sdk.Assembly.Units.Edges.{Moment, Asked}
use wardex_sdk.Assembly.Units.Pins.{PinToken, pin_driver, is_pinned_by, unpin, unpin_carrier}
use wardex_sdk.Assembly.Units.Sound.{Placed}
use wardex_sdk.Assembly.Units.Paid.{IsOnce}
use wardex_sdk.Assembly.Units.Alike.{alike-IsSound, even-IsPaid}
use wardex_sdk.Assembly.Units.Entered.{IsWell}
use wardex_sdk.Assembly.Units.Opens.{open_unit-IsWell}
use wardex_sdk.Assembly.Units.Acts.{
  close_unit-IsWell, close_all-IsWell, note-IsWell, claim-IsWell, record_input-IsWell,
  record_output-IsWell, add_alias-IsWell, bind_alias-IsWell, find_lem,
}
use wardex_sdk.Assembly.Units.SpanActs.{open_span-IsWell, close_span-IsWell}

-- `UnitRegistry.__init__` with its resolved limits, over stores in which no place is handed out.
unfoldable pub new_registry : ℕ → ℕ → ℕ → ℕ → (ℕ → WorkUnit) → (ℕ → SpanDraft) → Registry
new_registry units entries links bytes unit_store draft_store = record {
  max_units = units;
  max_entries_per_unit = entries;
  max_link_targets = links;
  max_record_bytes = bytes;
  max_total_units = units * entries;
  roots = [];
  live_units = [];
  pins = [];
  by_alias = [];
  link_memory = [];
  forgotten = no_forgotten;
  units = unit_store;
  next_unit = 0;
  drafts = draft_store;
  next_draft = 0;
  retired = [];
  emitted = [];
}

-- A call of the registry or of one of its units.
pub data Call : Type 0 where
  opening : Moment → Asked → Call
  closing : ℕ → ℕ → Ending → Call
  closing_all : ℕ → Limitation → Option Text → ℕ → Call
  span_opening : Generated → ℕ → Opened → ℕ → Call
  span_closing : ℕ → ℕ → Ending → Call
  claiming : ℕ → UnitKey → ℕ → Call
  noting : Limitation → ℕ → Call
  recording_input recording_output : ℕ → List ℕ → Call
  aliasing : UnitKey → UnitKey → Call
  binding : ℕ → UnitKey → Bool → Call
  finding : UnitKey → Call
  pinning : ℕ → ℕ → ℕ → ℕ → Call
  unpinning : PinToken → Call

unfoldable pub perform : Call → Registry → Registry
unfolding open_unit close_unit close_all open_span close_span claim note record_input record_output
    add_alias bind_alias find pin_driver unpin
perform (opening m asked) r = (open_unit m asked r).0
perform (closing task u e) r = close_unit task u e r
perform (closing_all task reason owner now) r = close_all task reason owner now r
perform (span_opening generated u asked now) r = (open_span generated u asked now r).0
perform (span_closing u draft e) r = close_span u draft e r
perform (claiming u key rank) r = (claim u key rank r).0
perform (noting marker u) r = note marker u r
perform (recording_input u chunk) r = record_input u chunk r
perform (recording_output u chunk) r = record_output u chunk r
perform (aliasing key second) r = add_alias key second r
perform (binding u key remember) r = bind_alias u key remember r
perform (finding key) r = (find key r).0
perform (pinning u owner_task observed identity) r = (pin_driver u owner_task observed identity r).0
perform (unpinning token) r = (unpin token r).0

-- A call names units that this registry made.
unfoldable pub IsKnown : Call → Registry → Type 0
IsKnown (opening m asked) r = (p : ℕ) → asked.parent_unit ≡ some p → p < r.next_unit
IsKnown (closing task u e) r = u < r.next_unit
IsKnown (span_opening generated u asked now) r = u < r.next_unit
IsKnown (span_closing u draft e) r = u < r.next_unit
IsKnown (binding u key remember) r = u < r.next_unit
IsKnown _ r = Unit

unfoldable pub run : List Call → Registry → Registry
unfolding perform
run [] r = r
run (call ∷ calls) r = run calls (perform call r)

unfoldable pub IsRun : List Call → Registry → Type 0
unfolding IsKnown perform
IsRun [] r = Unit
IsRun (call ∷ calls) r = IsKnown call r × IsRun calls (perform call r)

pinned-IsWell :
    (r : Registry) (pins : List (ℕ × Carrier)) → IsWell r → IsWell (record r { pins = pins })
pinned-IsWell r pins h =
    let n = r.next_unit in
    let m = r.next_draft in
    let s = record r { pins = pins } in
    record {
      sound =
          alike-IsSound n r s
            (record {
              live = λ v lt. refl;
              parent = λ v lt. refl;
              children = λ v lt. refl;
              alias_keys = λ v lt. refl;
              roots = refl;
              live_units = refl;
              by_alias = refl;
            })
            h.sound;
      paid =
          even-IsPaid n m [] r s
            (record {
              live = λ v lt. refl;
              draft = λ v lt. refl;
              opened = λ v lt. refl;
              flags = λ x lt. refl;
              emitted = refl;
            })
            h.paid;
    }

pin_driver-IsWell :
    (u owner_task observed identity : ℕ) (r : Registry)
    → IsWell r
    → IsWell (pin_driver u owner_task observed identity r).0
unfolding pin_driver
pin_driver-IsWell u owner_task observed identity r h =
    holds_if (λ (a : Registry × PinToken). IsWell a.0) (nat_eq owner_task observed) _ _
      (λ _. pinned-IsWell r _ h) (λ _. note-IsWell u correlation_conflict r h)

unpin_carrier-IsWell :
    (held : Option Carrier) (u : ℕ) (r : Registry) → IsWell r → IsWell (unpin_carrier held u r)
unfolding unpin_carrier
unpin_carrier-IsWell none u r h = h
unpin_carrier-IsWell (some carrier) u r h =
    holds_if IsWell (is_pinned_by (get u r.pins) carrier) (record r { pins = drop_key u r.pins }) r
      (λ _. pinned-IsWell r (drop_key u r.pins) h) (λ _. h)

find-IsWell : (key : UnitKey) (r : Registry) → IsWell r → IsWell (find key r).0
find-IsWell key r h = subst (λ (a : Registry × Option ℕ). IsWell a.0) (sym (find_lem key r h)) h

pub perform-IsWell :
    (call : Call) (r : Registry) → IsKnown call r → IsWell r → IsWell (perform call r)
unfolding perform IsKnown unpin
perform-IsWell (opening m asked) r k h = open_unit-IsWell m asked r h k
perform-IsWell (closing task u e) r k h = close_unit-IsWell task u e r h k
perform-IsWell (closing_all task reason owner now) r k h =
    close_all-IsWell task now reason owner r h
perform-IsWell (span_opening generated u asked now) r k h =
    open_span-IsWell generated u asked now r h k
perform-IsWell (span_closing u draft e) r k h = close_span-IsWell u r h k draft e
perform-IsWell (claiming u key rank) r k h = claim-IsWell u r h key rank
perform-IsWell (noting marker u) r k h = note-IsWell u marker r h
perform-IsWell (recording_input u chunk) r k h = record_input-IsWell u r h chunk
perform-IsWell (recording_output u chunk) r k h = record_output-IsWell u r h chunk
perform-IsWell (aliasing key second) r k h = add_alias-IsWell key second r h
perform-IsWell (binding u key remember) r k h = bind_alias-IsWell u key remember r h k
perform-IsWell (finding key) r k h = find-IsWell key r h
perform-IsWell (pinning u owner_task observed identity) r k h =
    pin_driver-IsWell u owner_task observed identity r h
perform-IsWell (unpinning token) r k h = unpin_carrier-IsWell token.carrier token.unit r h

pub run-IsWell :
    (calls : List Call) (r : Registry) → IsRun calls r → IsWell r → IsWell (run calls r)
unfolding run IsRun
run-IsWell [] r k h = h
run-IsWell (call ∷ calls) r k h =
    run-IsWell calls (perform call r) k.1 (perform-IsWell call r k.0 h)

pub new-IsWell :
    (units entries links bytes : ℕ) (unit_store : ℕ → WorkUnit) (draft_store : ℕ → SpanDraft)
    → IsWell (new_registry units entries links bytes unit_store draft_store)
unfolding new_registry Placed includes get
new-IsWell units entries links bytes unit_store draft_store = record {
  sound = record {
    known = λ u e. absurd (cc);
    listed = λ u lt. absurd (omega arith);
    rooted = λ u e. absurd (cc);
    placed = λ u lt e spared. absurd (omega arith);
    older = λ u p lt e. absurd (omega arith);
    child = λ p c lt e. absurd (omega arith);
    aliased = λ k u e. absurd (cc);
  };
  paid = record {
    drawn = λ u lt. absurd (omega arith);
    apart = λ u v lt mt e. absurd (omega arith);
    unopened = λ u v x lt mt e. absurd (omega arith);
    unpaid = λ u lt e. absurd (omega arith);
    paid = λ u lt e. absurd (omega arith);
    told = λ x lt. absurd (omega arith);
    emitted_known = λ x e. absurd (cc);
    pending_known = λ x e. absurd (cc);
    once = unfold IsOnce in tt;
  };
}
