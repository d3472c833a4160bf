-- ===== src/Assembly/Parentage/Edges.antt =====
-- What edges the resolution makes: a parent is claimed only where there is one, and an edge that is
-- not resolved says so.
use wardex_sdk.Prelude.{
  ◌≡◌, ◌∙◌, refl, sym, ap, inl, inr, Bool, true, false, ◌||◌, Option, none, some, List, [], ◌∷◌,
  ◌++◌, Bool-cases, if◌then◌else◌,
}
use wardex_sdk.Types.{TraceId, SpanContext}
use wardex_sdk.Assembly.Integrity.{Limitation, is_same, place}
use wardex_sdk.Assembly.Parentage.Confidence.{ParentSource, unresolved, tier, Evidence, markers_for}
use wardex_sdk.Assembly.Parentage.Resolve.{
  Ambient, Parentage, is_in, with_limitation, root_source, joined_source, correlate, start_trace,
  join_trace, resolve_by, resolve_parentage,
}
use wardex_sdk.Assembly.Parentage.Tiers.{IsWithin, confidence_for-IsWithin}

-- The edge to a context, or a new trace where there is none.
abbrev pub Edge : TraceId → Option SpanContext → Parentage → Type 0
Edge generated none p =
    (p.joined ≡ false) × (p.parent_span_id ≡ none) × (p.trace_id ≡ generated) × (p.trace_flags ≡ 1)
Edge generated (some ctx) p =
    (p.joined ≡ true)
    × (p.parent_span_id ≡ some ctx.span_id)
    × (p.trace_id ≡ ctx.trace_id)
    × (p.trace_flags ≡ ctx.trace_flags)

-- The confidence is within the tier of the strategy, and an edge that is not resolved is marked.
abbrev pub Told : Parentage → Type 0
Told p =
    IsWithin (tier p.correlation.strategy) p.correlation.confidence
    × (p.correlation.strategy ≡ unresolved
        → is_in Limitation.parent_unresolved p.limitations ≡ true)

markers_for-unresolved :
    (s : ParentSource) → s ≡ unresolved → is_in Limitation.parent_unresolved (markers_for s) ≡ true
unfolding is_in is_same place markers_for
markers_for-unresolved s e = rw e refl

resolve_by-Edge :
    (generated : TraceId) (ctx : Option SpanContext) (ambient : Ambient) (e : Evidence)
    → Edge generated ctx (resolve_by ctx generated ambient e)
      × Told (resolve_by ctx generated ambient e)
unfolding resolve_by start_trace join_trace correlate
resolve_by-Edge generated none ambient e =
    let src = root_source e.source in
    ((refl, refl, refl, refl), (confidence_for-IsWithin src e, markers_for-unresolved src))
resolve_by-Edge generated (some ctx) ambient e =
    let src = joined_source ctx.is_remote e.source in
    ((refl, refl, refl, refl), (confidence_for-IsWithin src e, markers_for-unresolved src))

-- Whatever the evidence, a resolution joins the trace of its ambient context as the child of that
-- context's span, and starts a trace without a parent where there is no context. The confidence is
-- within its strategy's tier, and an unresolved edge is marked.
pub resolve_parentage-Edge :
    (generated : TraceId) (ambient : Ambient) (e : Evidence)
    → Edge generated ambient.span_context (resolve_parentage generated ambient e)
      × Told (resolve_parentage generated ambient e)
unfolding resolve_parentage
resolve_parentage-Edge generated ambient e =
    resolve_by-Edge generated ambient.span_context ambient e

is_in-append :
    (m l : Limitation) (ls : List Limitation) → is_in m ls ≡ true → is_in m (ls ++ (l ∷ [])) ≡ true
unfolding is_in
is_in-append m l [] h = cc
is_in-append m l (x ∷ ls) h = elim (Bool-cases (is_same m x)) [
  | inl e ↦ rw e refl
  | inr e ↦ rw e (is_in-append m l ls (sym (ap (λ b. b || is_in m ls) e) ∙ h))
]

Edge-if :
    (generated : TraceId) (ctx : Option SpanContext) (b : Bool) (p q : Parentage)
    → Edge generated ctx p
    → Edge generated ctx q
    → Edge generated ctx (if b then p else q)
Edge-if generated ctx true p q h k = h
Edge-if generated ctx false p q h k = k

Told-if : (b : Bool) (p q : Parentage) → Told p → Told q → Told (if b then p else q)
Told-if true p q h k = h
Told-if false p q h k = k

Edge-append :
    (generated : TraceId) (ctx : Option SpanContext) (ls : List Limitation) (p : Parentage)
    → Edge generated ctx p
    → Edge generated ctx (record p { limitations = ls })
Edge-append generated none ls p h = h
Edge-append generated (some ctx) ls p h = h

pub with_limitation-Edge :
    (generated : TraceId) (ctx : Option SpanContext) (m : Limitation) (p : Parentage)
    → Edge generated ctx p × Told p
    → Edge generated ctx (with_limitation m p) × Told (with_limitation m p)
unfolding with_limitation
with_limitation-Edge generated ctx m p h =
    let q = record p { limitations = p.limitations ++ (m ∷ []) } in
    (
      Edge-if generated ctx (is_in m p.limitations) p q h.0
          (Edge-append generated ctx (p.limitations ++ (m ∷ [])) p h.0),
      Told-if (is_in m p.limitations) p q h.1
          (h.1.0, λ e. is_in-append Limitation.parent_unresolved m p.limitations (h.1.1 e)),
    )
