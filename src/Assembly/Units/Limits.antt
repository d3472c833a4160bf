-- ===== src/Assembly/Units/Limits.antt =====
-- The registry's bounds over the calls that close, open and track.
use wardex_sdk.Prelude.{ℕ, Option, none, some, List, [], ◌∷◌, ◌++◌, nat_eq, nat_Eq, refl, holds_if}
use wardex_sdk.Prelude.Dicts.{get, put, drop_key}
use wardex_sdk.Prelude.Text.{Text}
use wardex_sdk.Assembly.Integrity.{Limitation, unit_table_full, correlation_conflict}
use wardex_sdk.Assembly.Builder.Draft.{new_draft}
use wardex_sdk.Assembly.Units.State.{UnitKey, unit_key_Eq, OpenDraft, Carrier, Registry, change}
use wardex_sdk.Assembly.Units.Tables.{
  claim, record_input, record_output, superseded, pop_open, force_close, evict_oldest, note,
}
use wardex_sdk.Assembly.Units.Close.{Ending, unset_at, close_locked, end_draft, flush}
use wardex_sdk.Assembly.Units.Aliases.{find, find_from}
use wardex_sdk.Assembly.Units.Ambience.{is_of_other, child}
use wardex_sdk.Assembly.Units.Spans.{
  Generated, Opened, add_draft, close_evicted, track_open, open_span, close_popped, close_span,
}
use wardex_sdk.Assembly.Units.Open.{close_unit, close_roots, close_all}
use wardex_sdk.Assembly.Units.Pins.{PinToken, pin_driver, is_pinned_by, unpin_carrier}
use wardex_sdk.Assembly.Units.Fewer.{IsFewer, same-IsFewer, IsFewer-trans, close_locked-IsFewer}
use wardex_sdk.Assembly.Units.Capacity.{same_lists-IsFewer, flush-IsFewer, note-IsFewer}

-- Closes.
pub close_unit-IsFewer :
    (task u : ℕ) (e : Ending) (r : Registry) → IsFewer r (close_unit task u e r)
unfolding close_unit
close_unit-IsFewer task u e r =
    let closed = close_locked task e u r in
    IsFewer-trans r closed.0 (flush closed.1 closed.0) (close_locked-IsFewer task u e r)
      (flush-IsFewer closed.1 closed.0)

close_roots-IsFewer :
    (task : ℕ) (reason : Limitation) (owner : Option Text) (now : ℕ) (roots : List ℕ) (r : Registry)
    → IsFewer r (close_roots task reason owner now roots r).0
unfolding close_roots
close_roots-IsFewer task reason owner now [] r = same-IsFewer r
close_roots-IsFewer task reason owner now (root ∷ roots) r =
    let noted = note reason root r in
    let closed = close_locked task (unset_at now) root noted in
    let rest = close_roots task reason owner now roots closed.0 in
    holds_if (λ (a : Registry × List ℕ). IsFewer r a.0) (is_of_other owner (r.units root).owner)
      (close_roots task reason owner now roots r) (rest.0, closed.1 ++ rest.1)
      (λ _. close_roots-IsFewer task reason owner now roots r)
      (λ _. IsFewer-trans r noted rest.0 (note-IsFewer reason root r) (
        IsFewer-trans noted closed.0 rest.0 (close_locked-IsFewer task root (unset_at now) noted)
          (close_roots-IsFewer task reason owner now roots closed.0)))

pub close_all-IsFewer :
    (task : ℕ) (reason : Limitation) (owner : Option Text) (now : ℕ) (r : Registry)
    → IsFewer r (close_all task reason owner now r)
unfolding close_all
close_all-IsFewer task reason owner now r =
    let closed = close_roots task reason owner now r.roots r in
    IsFewer-trans r closed.0 (flush closed.1 closed.0)
      (close_roots-IsFewer task reason owner now r.roots r) (flush-IsFewer closed.1 closed.0)

-- Spans.
close_evicted-IsFewer :
    (lost : Option OpenDraft) (claims : List (UnitKey × ℕ)) (now : ℕ) (r : Registry)
    → IsFewer r (close_evicted lost claims now r).0
unfolding close_evicted
close_evicted-IsFewer none claims now r = same-IsFewer r
close_evicted-IsFewer (some entry) claims now r =
    let s : Registry = record r {
      drafts = change entry.draft (force_close unit_table_full now) r.drafts;
    } in
    holds_if (λ (a : Registry × List ℕ). IsFewer r a.0) (superseded claims entry) (r, [])
      (s, entry.draft ∷ []) (λ _. same-IsFewer r) (λ _. same_lists-IsFewer r s refl refl refl refl)

track_open-IsFewer :
    (u draft : ℕ) (key : Option UnitKey) (now : ℕ) (r : Registry)
    → IsFewer r (track_open u draft key now r).0
unfolding track_open
track_open-IsFewer u draft key now r =
    let table = evict_oldest r.max_entries_per_unit (r.units u).opened in
    IsFewer-trans r _ (track_open u draft key now r).0 (same_lists-IsFewer r _ refl refl refl refl)
      (close_evicted-IsFewer table.0 (r.units u).claims now _)

pub open_span-IsFewer :
    (generated : Generated) (u : ℕ) (asked : Opened) (now : ℕ) (r : Registry)
    → IsFewer r (open_span generated u asked now r).0
unfolding open_span add_draft
open_span-IsFewer generated u asked now r =
    let begun =
      add_draft
        (new_draft generated.span_id (child generated.trace_id (r.units u) asked.evidence)
          (some asked.intent) asked.subject asked.source asked.start_ns none)
        r in
    let tracked = track_open u r.next_draft asked.claim_key now begun in
    let same = same_lists-IsFewer r begun refl refl refl refl in
    holds_if (IsFewer r) (r.units u).live (flush tracked.1 tracked.0) begun
      (λ _. IsFewer-trans r begun (flush tracked.1 tracked.0) same (
        IsFewer-trans begun tracked.0 (flush tracked.1 tracked.0)
          (track_open-IsFewer u r.next_draft asked.claim_key now begun)
          (flush-IsFewer tracked.1 tracked.0)))
      (λ _. same)

close_popped-IsFewer :
    (popped : Option OpenDraft) (claims : List (UnitKey × ℕ)) (draft : ℕ) (e : Ending)
    (r : Registry)
    → IsFewer r (close_popped popped claims draft e r)
unfolding close_popped
close_popped-IsFewer none claims draft e r = same-IsFewer r
close_popped-IsFewer (some entry) claims draft e r =
    let s : Registry = record r { drafts = change draft (end_draft e) r.drafts } in
    holds_if (IsFewer r) (superseded claims entry) r (flush (draft ∷ []) s) (λ _. same-IsFewer r)
      (λ _.
        IsFewer-trans r s (flush (draft ∷ []) s) (same_lists-IsFewer r s refl refl refl refl)
          (flush-IsFewer (draft ∷ []) s))

pub close_span-IsFewer :
    (u draft : ℕ) (e : Ending) (r : Registry) → IsFewer r (close_span u draft e r)
unfolding close_span
close_span-IsFewer u draft e r =
    let popped = pop_open draft (r.units u).opened in
    let s : Registry = record r {
      units = change u (λ old. record old { opened = popped.1 }) r.units;
    } in
    IsFewer-trans r s (close_popped popped.0 (r.units u).claims draft e s)
      (same_lists-IsFewer r s refl refl refl refl)
      (close_popped-IsFewer popped.0 (r.units u).claims draft e s)

-- Lookups and pins.
find_from-IsFewer :
    (found : Option ℕ) (key : UnitKey) (r : Registry) → IsFewer r (find_from found key r).0
unfolding find_from
find_from-IsFewer none key r = same-IsFewer r
find_from-IsFewer (some u) key r =
    let s : Registry = record r { by_alias = drop_key key r.by_alias } in
    holds_if (λ (a : Registry × Option ℕ). IsFewer r a.0) (r.units u).live (r, some u) (s, none)
      (λ _. same-IsFewer r) (λ _. same_lists-IsFewer r s refl refl refl refl)

pub find-IsFewer : (key : UnitKey) (r : Registry) → IsFewer r (find key r).0
unfolding find
find-IsFewer key r = find_from-IsFewer (get key r.by_alias) key r

pub pin_driver-IsFewer :
    (u owner_task observed identity : ℕ) (r : Registry)
    → IsFewer r (pin_driver u owner_task observed identity r).0
unfolding pin_driver
pin_driver-IsFewer u owner_task observed identity r =
    let carrier : Carrier = record { identity = identity; owner = observed } in
    let s : Registry = record r { pins = put u carrier r.pins } in
    holds_if (λ (a : Registry × PinToken). IsFewer r a.0) (nat_eq owner_task observed)
      (s, record { unit = u; owner = observed; carrier = some carrier })
      (note correlation_conflict u r, record { unit = u; owner = observed; carrier = none })
      (λ _. same_lists-IsFewer r s refl refl refl refl) (λ _. note-IsFewer correlation_conflict u r)

pub unpin_carrier-IsFewer :
    (held : Option Carrier) (u : ℕ) (r : Registry) → IsFewer r (unpin_carrier held u r)
unfolding unpin_carrier
unpin_carrier-IsFewer none u r = same-IsFewer r
unpin_carrier-IsFewer (some carrier) u r =
    let s : Registry = record r { pins = drop_key u r.pins } in
    holds_if (IsFewer r) (is_pinned_by (get u r.pins) carrier) s r
      (λ _. same_lists-IsFewer r s refl refl refl refl) (λ _. same-IsFewer r)

-- Claims and records.
pub claim-IsFewer :
    (u : ℕ) (key : UnitKey) (rank : ℕ) (r : Registry) → IsFewer r (claim u key rank r).0
unfolding claim
claim-IsFewer u key rank r = same_lists-IsFewer r _ refl refl refl refl

pub record_input-IsFewer :
    (u : ℕ) (chunk : List ℕ) (r : Registry) → IsFewer r (record_input u chunk r)
unfolding record_input
record_input-IsFewer u chunk r = same_lists-IsFewer r _ refl refl refl refl

pub record_output-IsFewer :
    (u : ℕ) (chunk : List ℕ) (r : Registry) → IsFewer r (record_output u chunk r)
unfolding record_output
record_output-IsFewer u chunk r = same_lists-IsFewer r _ refl refl refl refl
