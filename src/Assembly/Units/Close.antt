-- ===== src/Assembly/Units/Close.antt =====
-- How a unit closes: the drafts of its subtree are collected, then the subtree leaves every table.
use wardex_sdk.Prelude.{
  ℕ, zero, suc, ◌-◌, true, false, ◌||◌, Option, none, some, List, [], ◌∷◌, ◌++◌, nat_eq, length,
  drop, remove, nat_Eq, if◌then◌else◌,
}
use wardex_sdk.Prelude.Dicts.{get, drop_key}
use wardex_sdk.Prelude.Text.{Text}
use wardex_sdk.Types.{SpanContext}
use wardex_sdk.Assembly.Integrity.{child_span_unclosed, unit_evicted}
use wardex_sdk.Assembly.Builder.Draft.{SpanDraft}
use wardex_sdk.Assembly.Builder.Integrity.{truncated}
use wardex_sdk.Assembly.Builder.Setters.{claim_emit, set_status, set_error, set_io}
use wardex_sdk.Spans.Enums.{StatusCode}
use wardex_sdk.Assembly.Units.State.{
  UnitKey, unit_key_Eq, OpenDraft, WorkUnit, Carrier, Registry, change_unit, change,
}
use wardex_sdk.Assembly.Units.Forgotten.{disown_each, is_owned_by, drop_unit}
use wardex_sdk.Assembly.Units.Tables.{superseded, force_close, note_on, note}

-- How a span ends: its status, the type of its error and the time.
pub record Ending : Type 0 where
  pub status : StatusCode
  pub error_type : Option Text
  pub end_ns : ℕ

abbrev pub unset_at : ℕ → Ending
unset_at end_ns = record { status = StatusCode.unset; error_type = none; end_ns = end_ns }

-- `draft.set_status`, `draft.set_error` with a type, `draft.set_end_ns`.
unfoldable pub end_draft : Ending → SpanDraft → SpanDraft
unfolding set_status set_error
end_draft e d =
    let stated = set_status e.status [] d in
    let typed : SpanDraft = elim e.error_type [
      | none ↦ stated
      | some type_name ↦ set_error (some type_name) [] stated
    ] in
    record typed { end_ns = some e.end_ns }

unfoldable pub mark_truncated : WorkUnit → SpanDraft → SpanDraft
mark_truncated unit d =
    if unit.input_truncated || unit.output_truncated
    then record d { integrity = truncated true d.integrity }
    else d

unfoldable pub recorded : WorkUnit → SpanDraft → SpanDraft
unfolding set_io mark_truncated
recorded unit d =
    if unit.input_recorded || unit.output_recorded
    then mark_truncated unit
        (set_io unit.input unit.output unit.input_recorded unit.output_recorded d)
    else d

unfoldable pub finalize_locked : Ending → WorkUnit → SpanDraft → SpanDraft
unfolding end_draft recorded
finalize_locked e unit d = end_draft e (recorded unit d)

-- What a collection gathers: the drafts as written on, the drafts to emit and the units to detach.
pub record Collected : Type 0 where
  pub drafts : ℕ → SpanDraft
  pub pending : List ℕ
  pub doomed : List ℕ

module _ (units : ℕ → WorkUnit) where
  -- The spans that a unit still has open, closed by force unless a claim supersedes them.
  unfoldable pub collect_opened : List (UnitKey × ℕ) → ℕ → List OpenDraft → Collected → Collected
  unfolding superseded force_close change
  collect_opened claims end_ns [] c = c
  collect_opened claims end_ns (entry ∷ table) c = collect_opened claims end_ns table (
      if superseded claims entry then c else record c {
        drafts = change entry.draft (force_close child_span_unclosed end_ns) c.drafts;
        pending = c.pending ++ (entry.draft ∷ []);
      })

  -- The live children, each noted first.
  unfoldable pub collect_children : (ℕ → Collected → Collected) → List ℕ → Collected → Collected
  unfolding note_on
  collect_children collect_child [] c = c
  collect_children collect_child (child ∷ children) c = collect_children collect_child children (
      if (units child).live
      then collect_child child
          (record c { drafts = note_on child_span_unclosed child units c.drafts })
      else c)

  -- A child is younger than its parent, so one step for each younger unit is enough.
  unfoldable pub collect_locked : ℕ → Ending → ℕ → Collected → Collected
  unfolding collect_opened collect_children finalize_locked change
  collect_locked zero e u c = c
  collect_locked (suc fuel) e u c =
      let unit = units u in
      let begun = record c { doomed = c.doomed ++ (u ∷ []) } in
      let below = collect_children (collect_locked fuel (unset_at e.end_ns)) unit.children begun in
      let closed = collect_opened unit.claims e.end_ns unit.opened below in
      record closed {
        drafts = change unit.draft (finalize_locked e unit) closed.drafts;
        pending = closed.pending ++ (unit.draft ∷ []);
      }

-- `self._pins.pop(unit, None)`, retired from afar unless it is this task's.
unfoldable pub retire_pin : ℕ → Option Carrier → List Carrier → List Carrier
retire_pin task none retired = retired
retire_pin task (some pin) retired =
    if nat_eq pin.owner task then retired else retired ++ (pin ∷ [])

unfoldable pub leave_parent : Option ℕ → ℕ → (ℕ → WorkUnit) → ℕ → WorkUnit
unfolding change remove
leave_parent none u units = units
leave_parent (some parent) u units =
    change parent (λ unit. record unit { children = remove u unit.children }) units

-- The newest entries of a table, `bound` at most.
unfoldable pub newest {ℓ} : {A : Type ℓ} → ℕ → List A → List A
newest bound table = drop (length table - bound) table

-- The remembered links of a unit that still owns their keys, newest last and within the bound.
unfoldable pub remember_links :
    ℕ
    → ℕ
    → List (UnitKey × ℕ)
    → List (UnitKey × SpanContext)
    → List (UnitKey × SpanContext)
    → List (UnitKey × SpanContext)
unfolding is_owned_by get drop_key newest
remember_links bound u by_alias [] memory = memory
remember_links bound u by_alias ((key, ctx) ∷ remembered) memory =
    remember_links bound u by_alias remembered (
      if is_owned_by (get key by_alias) u
      then newest bound (drop_key key memory ++ ((key, ctx) ∷ []))
      else memory)

unfoldable pub detach_locked : ℕ → ℕ → Registry → Registry
unfolding change retire_pin leave_parent remember_links drop_unit disown_each remove get drop_key
detach_locked task u r =
    let unit = r.units u in
    let emptied =
      change u
        (λ old. record old {
          live = false;
          children = [];
          opened = [];
          remembered = [];
          alias_keys = [];
        })
        r.units in
    record r {
      units = leave_parent unit.parent u emptied;
      roots = remove u r.roots;
      live_units = remove u r.live_units;
      pins = drop_key u r.pins;
      retired = retire_pin task (get u r.pins) r.retired;
      link_memory = remember_links r.max_link_targets u r.by_alias unit.remembered r.link_memory;
      forgotten = drop_unit u r.forgotten;
      by_alias = disown_each unit.alias_keys u r.by_alias;
    }

unfoldable pub detach_each : ℕ → List ℕ → Registry → Registry
unfolding detach_locked
detach_each task [] r = r
detach_each task (dead ∷ doomed) r = detach_each task doomed (detach_locked task dead r)

abbrev pub collected : Ending → ℕ → Registry → Collected
collected e u r =
    collect_locked r.units r.next_unit e u (record { drafts = r.drafts; pending = []; doomed = [] })

-- The registry after a close, and the drafts to emit.
unfoldable pub close_locked : ℕ → Ending → ℕ → Registry → Registry × List ℕ
unfolding collect_locked detach_each
close_locked task e u r =
    let c = collected e u r in
    if (r.units u).live
    then (detach_each task c.doomed (record r { drafts = c.drafts }), c.pending)
    else (r, [])

unfoldable pub mark_evicted : ℕ → Registry → Registry
mark_evicted u r = change_unit u (λ unit. record unit { evicted = true }) r

unfoldable pub evict_root_locked : ℕ → ℕ → List ℕ → Registry → Registry × List ℕ
unfolding mark_evicted note close_locked
evict_root_locked task end_ns [] r = (r, [])
evict_root_locked task end_ns (oldest ∷ roots) r =
    close_locked task (unset_at end_ns) oldest (note unit_evicted oldest (mark_evicted oldest r))

-- `_flush`: each draft goes to the sink unless it was emitted before.
unfoldable pub flush : List ℕ → Registry → Registry
unfolding claim_emit change
flush [] r = r
flush (draft ∷ pending) r = flush pending (
    if (claim_emit (r.drafts draft)).1
    then record r {
      drafts = change draft (λ d. (claim_emit d).0) r.drafts;
      emitted = r.emitted ++ (draft ∷ []);
    }
    else r)
