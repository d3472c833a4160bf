-- ===== src/Assembly/Parentage/Observed.antt =====
-- What `resolve_observed` makes of a parent that wardex itself lost.
use wardex_sdk.Prelude.{
  ◌≡◌, ◌∙◌, refl, sym, inl, inr, Bool, true, false, ◌&&◌, ◌||◌, Option, none, some, [], ◌∷◌, ◌++◌,
  Bool-cases, if◌then◌else◌,
}
use wardex_sdk.Types.{TraceId, SpanContext}
use wardex_sdk.Assembly.Integrity.{Limitation}
use wardex_sdk.Assembly.Parentage.Confidence.{
  ParentSource, contextvar, header, trace_root, unresolved,
}
use wardex_sdk.Assembly.Parentage.Resolve.{
  Ambient, Parentage, empty_ambient, evidence_of, is_in, with_limitation, root_source,
  joined_source, correlate, start_trace, join_trace, resolve_by, resolve_parentage, is_none,
  resolve_observed,
}
use wardex_sdk.Assembly.Parentage.Edges.{Edge, Told, resolve_parentage-Edge, with_limitation-Edge}

-- The context that may be the parent: none where wardex knows it to be gone.
abbrev pub seen : Bool → Bool → Option SpanContext → Option SpanContext
seen closed evicted ctx = if closed || evicted then none else ctx

-- The source of an edge from the context alone.
abbrev pub source_of : Bool → Option SpanContext → ParentSource
source_of degraded none = if degraded then unresolved else trace_root
source_of degraded (some ctx) = if ctx.is_remote then header else contextvar

-- The source that the resolution should give: unresolved where wardex lost the parent, by a closed or
-- an evicted unit or in a degraded run, and else what the context says.
abbrev pub observed_source : Bool → Bool → Bool → Option SpanContext → ParentSource
observed_source closed evicted degraded ctx =
    if closed || evicted then unresolved else source_of degraded ctx

-- An edge as expected.
abbrev pub Expected : TraceId → Option SpanContext → ParentSource → Parentage → Type 0
Expected generated ctx source p =
    (Edge generated ctx p × Told p) × (p.correlation.strategy ≡ source)

strategy-with_limitation :
    (m : Limitation) (p : Parentage)
    → (with_limitation m p).correlation.strategy ≡ p.correlation.strategy
unfolding with_limitation
strategy-with_limitation m p =
    same_if (is_in m p.limitations) p (record p { limitations = p.limitations ++ (m ∷ []) }) refl
  where
    same_if :
        (b : Bool) (p q : Parentage)
        → q.correlation.strategy ≡ p.correlation.strategy
        → (if b then p else q).correlation.strategy ≡ p.correlation.strategy
    same_if true p q e = refl
    same_if false p q e = e

strategy-unresolved :
    (generated : TraceId) (ctx : Option SpanContext) (ambient : Ambient)
    → (resolve_by ctx generated ambient (evidence_of unresolved)).correlation.strategy ≡ unresolved
unfolding resolve_by start_trace join_trace correlate root_source joined_source
strategy-unresolved generated none ambient = refl
strategy-unresolved generated (some ctx) ambient = refl

strategy-ambient :
    (generated : TraceId) (degraded : Bool) (ctx : Option SpanContext) (ambient : Ambient)
    → (is_none ctx && degraded) ≡ false
    → (resolve_by ctx generated ambient (evidence_of contextvar)).correlation.strategy
      ≡ source_of degraded ctx
unfolding resolve_by start_trace join_trace correlate root_source joined_source is_none
strategy-ambient generated true none ambient e = cc
strategy-ambient generated false none ambient e = refl
strategy-ambient generated degraded (some ctx) ambient e = refl

source-lost :
    (degraded : Bool) (ctx : Option SpanContext)
    → (is_none ctx && degraded) ≡ true
    → source_of degraded ctx ≡ unresolved
unfolding is_none
source-lost true none e = refl
source-lost false none e = cc
source-lost degraded (some ctx) e = cc

module _ (generated : TraceId) (ambient : Ambient) where
  -- An orphan of wardex's making, with a marker that says so.
  marked :
      (ctx : Option SpanContext) (source : ParentSource) (p : Parentage)
      → Expected generated ctx source p
      → Expected generated ctx source (with_limitation Limitation.instrumentation_degraded p)
  marked ctx source p h = (
    with_limitation-Edge generated ctx Limitation.instrumentation_degraded p h.0,
    strategy-with_limitation Limitation.instrumentation_degraded p ∙ h.1,
  )

  orphan :
      Expected generated none unresolved
        (resolve_parentage generated empty_ambient (evidence_of unresolved))
  unfolding resolve_parentage
  orphan = (
    resolve_parentage-Edge generated empty_ambient (evidence_of unresolved),
    strategy-unresolved generated none empty_ambient,
  )

  open_parent :
      (degraded : Bool)
      → Expected generated ambient.span_context (source_of degraded ambient.span_context) (
          if is_none ambient.span_context && degraded
          then with_limitation Limitation.instrumentation_degraded
              (resolve_parentage generated ambient (evidence_of unresolved))
          else resolve_parentage generated ambient (evidence_of contextvar))
  unfolding resolve_parentage
  open_parent degraded = elim (Bool-cases (is_none ambient.span_context && degraded)) [
    | inl e ↦ rw e (
        marked ambient.span_context (source_of degraded ambient.span_context)
          (resolve_parentage generated ambient (evidence_of unresolved))
          (
            resolve_parentage-Edge generated ambient (evidence_of unresolved),
            strategy-unresolved generated ambient.span_context ambient
                ∙ sym (source-lost degraded ambient.span_context e),
          ))
    | inr e ↦ rw e (
      resolve_parentage-Edge generated ambient (evidence_of contextvar),
      strategy-ambient generated degraded ambient.span_context ambient e,
    )
  ]

-- A span is never hung under a unit that wardex knows closed or evicted: it starts a trace. Its edge
-- is unresolved exactly where wardex lost the parent (there, or without a context in a degraded run),
-- and else comes from a header or the context, or the span is a root. The confidence is within the
-- strategy's tier, and an unresolved edge is marked.
pub resolve_observed-Edge :
    (generated : TraceId) (degraded : Bool) (ambient : Ambient) (closed evicted : Bool)
    → Expected generated
        (seen closed evicted ambient.span_context)
        (observed_source closed evicted degraded ambient.span_context)
        (resolve_observed generated degraded ambient closed evicted)
unfolding resolve_observed
resolve_observed-Edge generated degraded ambient true evicted = orphan generated ambient
resolve_observed-Edge generated degraded ambient false true =
    marked generated ambient none unresolved
      (resolve_parentage generated empty_ambient (evidence_of unresolved))
      (orphan generated ambient)
resolve_observed-Edge generated degraded ambient false false =
    open_parent generated ambient degraded
