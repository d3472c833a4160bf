-- ===== src/Assembly/Units/Spans.antt =====
-- The spans of a unit's own: opened, closed, and evicted from its table of open spans.
use wardex_sdk.Prelude.{ℕ, suc, Option, none, some, List, [], ◌∷◌, ◌++◌, if◌then◌else◌}
use wardex_sdk.Prelude.Dicts.{get}
use wardex_sdk.Prelude.Text.{Text}
use wardex_sdk.Types.{TraceId, SpanId}
use wardex_sdk.Assembly.Integrity.{unit_table_full}
use wardex_sdk.Assembly.Vocabulary.{SpanIntent}
use wardex_sdk.Assembly.Parentage.Confidence.{Evidence}
use wardex_sdk.Assembly.Builder.Draft.{SpanDraft, new_draft}
use wardex_sdk.Spans.Enums.{CaptureSource}
use wardex_sdk.Assembly.Units.State.{UnitKey, unit_key_Eq, OpenDraft, Registry, change_unit, change}
use wardex_sdk.Assembly.Units.Tables.{evict_oldest, superseded, force_close, pop_open}
use wardex_sdk.Assembly.Units.Close.{Ending, end_draft, flush}
use wardex_sdk.Assembly.Units.Ambience.{child}

-- The identifiers that `TraceId.generate` and `SpanId.generate` give.
pub record Generated : Type 0 where
  pub trace_id : TraceId
  pub span_id : SpanId

-- What a span is opened with.
pub record Opened : Type 0 where
  pub intent : SpanIntent
  pub subject : Option Text
  pub evidence : Evidence
  pub claim_key : Option UnitKey
  pub start_ns : ℕ
  pub source : CaptureSource

-- `self._claims.get(key, 0) if key is not None else 0`.
unfoldable pub rank_now : Option UnitKey → List (UnitKey × ℕ) → ℕ
unfolding get
rank_now none claims = 0
rank_now (some key) claims = elim (get key claims) [ none ↦ 0 | some rank ↦ rank ]

-- A new draft takes the next place of the store.
unfoldable pub add_draft : SpanDraft → Registry → Registry
unfolding change
add_draft d r = record r {
  drafts = change r.next_draft (λ old. d) r.drafts;
  next_draft = suc r.next_draft;
}

-- The drafts after an evicted entry is closed by force, unless a claim supersedes it.
unfoldable pub close_evicted :
    Option OpenDraft → List (UnitKey × ℕ) → ℕ → Registry → Registry × List ℕ
unfolding superseded force_close change
close_evicted none claims now r = (r, [])
close_evicted (some entry) claims now r = if superseded claims entry then (r, []) else (
  record r { drafts = change entry.draft (force_close unit_table_full now) r.drafts },
  entry.draft ∷ [],
)

-- The table of a live unit takes the new span, and may lose its oldest.
unfoldable pub track_open : ℕ → ℕ → Option UnitKey → ℕ → Registry → Registry × List ℕ
unfolding evict_oldest close_evicted rank_now change
track_open u draft key now r =
    let unit = r.units u in
    let table = evict_oldest r.max_entries_per_unit unit.opened in
    close_evicted table.0 unit.claims now (
      change_unit u
        (λ old. record old {
          opened =
              table.1
              ++ (record { draft = draft; claim_key = key; rank_at_open = rank_now key unit.claims }
                  ∷ []);
        })
        r)

-- The registry and the new draft.
unfoldable pub open_span : Generated → ℕ → Opened → ℕ → Registry → Registry × ℕ
unfolding child new_draft add_draft track_open flush
open_span generated u asked now r =
    let unit = r.units u in
    let draft = r.next_draft in
    let begun =
      add_draft
        (new_draft generated.span_id (child generated.trace_id unit asked.evidence)
          (some asked.intent) asked.subject asked.source asked.start_ns none)
        r in
    let tracked = track_open u draft asked.claim_key now begun in
    (if unit.live then flush tracked.1 tracked.0 else begun, draft)

unfoldable pub close_popped :
    Option OpenDraft → List (UnitKey × ℕ) → ℕ → Ending → Registry → Registry
unfolding superseded end_draft flush change
close_popped none claims draft e r = r
close_popped (some entry) claims draft e r =
    if superseded claims entry
    then r
    else flush (draft ∷ []) (record r { drafts = change draft (end_draft e) r.drafts })

unfoldable pub close_span : ℕ → ℕ → Ending → Registry → Registry
unfolding pop_open close_popped
close_span u draft e r =
    let unit = r.units u in
    let popped = pop_open draft unit.opened in
    close_popped popped.0 unit.claims draft e
      (change_unit u (λ old. record old { opened = popped.1 }) r)
