-- ===== src/Scope/Merge.antt =====
-- What a merged scope says, and that the two partial merges agree with the whole one.
use wardex_sdk.Prelude.{[], ◌∷◌, ◌≡◌, ◌∙◌, refl, ap, Option, List}
use wardex_sdk.Prelude.Text.{Text}
use wardex_sdk.Prelude.Dicts.{get, update, or_else, IsDict, get-update, update-IsDict}
use wardex_sdk.Scope.Layers.{
  Scope, text_Eq, merge_layer, merge_layers, merge_scopes, trace_layers, tag_layers,
  merged_trace_fields, merged_tags_and_user,
}

-- The tags and the contexts of a scope have no key twice.
abbrev pub IsScope : Scope → Type 0
IsScope s = IsDict s.tags × IsDict s.contexts

-- The first of three layers that has a value.
abbrev pub first_of {ℓ} : {A : Type ℓ} → Option A → Option A → Option A → Option A
first_of c i g = or_else c (or_else i g)

get-merge {ℓ} :
    {V : Type ℓ} (k : Text) (c i g : List (Text × V))
    → IsDict c
    → IsDict i
    → get k (update c (update i g)) ≡ first_of (get k c) (get k i) (get k g)
get-merge k c i g hc hi =
    get-update k c (update i g) hc ∙ ap (or_else (get k c)) (get-update k i g hi)

-- In the merged scope a tag, a context and each of the four single fields (user,
-- conversation, active span context and tracestate) has the value of the innermost layer
-- that has one, and the merged scope has no key twice.
pub merge_scopes-IsScope :
    (global isolation current : Scope) (key : Text)
    → IsScope global
    → IsScope isolation
    → IsScope current
    → (let merged = merge_scopes global isolation current in
        IsScope merged
        × (get key merged.tags
            ≡ first_of (get key current.tags) (get key isolation.tags) (get key global.tags))
        × (get key merged.contexts
            ≡ first_of
                (get key current.contexts)
                (get key isolation.contexts)
                (get key global.contexts))
        × (merged.user ≡ first_of current.user isolation.user global.user)
        × (merged.conversation
            ≡ first_of current.conversation isolation.conversation global.conversation)
        × (merged.active_span_context
            ≡ first_of current.active_span_context isolation.active_span_context
                global.active_span_context)
        × (merged.tracestate ≡ first_of current.tracestate isolation.tracestate global.tracestate))
unfolding merge_scopes merge_layers merge_layer
merge_scopes-IsScope global isolation current key hg hi hc = (
  (
    update-IsDict current.tags (update isolation.tags global.tags)
        (update-IsDict isolation.tags global.tags hg.0),
    update-IsDict current.contexts (update isolation.contexts global.contexts)
        (update-IsDict isolation.contexts global.contexts hg.1),
  ),
  get-merge key current.tags isolation.tags global.tags hc.0 hi.0,
  get-merge key current.contexts isolation.contexts global.contexts hc.1 hi.1,
  refl,
  refl,
  refl,
  refl,
)

trace_layers-merge_layers :
    (layers : List Scope) (s : Scope)
    → trace_layers layers s.active_span_context s.tracestate
      ≡ ((merge_layers layers s).active_span_context, (merge_layers layers s).tracestate)
unfolding trace_layers merge_layers merge_layer
trace_layers-merge_layers [] s = refl
trace_layers-merge_layers (layer ∷ layers) s =
    trace_layers-merge_layers layers (merge_layer layer s)

tag_layers-merge_layers :
    (layers : List Scope) (s : Scope)
    → tag_layers layers s.tags s.user ≡ ((merge_layers layers s).tags, (merge_layers layers s).user)
unfolding tag_layers merge_layers merge_layer
tag_layers-merge_layers [] s = refl
tag_layers-merge_layers (layer ∷ layers) s = tag_layers-merge_layers layers (merge_layer layer s)

-- The two partial merges that the hot paths call give what the whole merge gives.
pub merged_fields-merge_scopes :
    (global isolation current : Scope)
    → (let merged = merge_scopes global isolation current in
        (merged_trace_fields global isolation current
          ≡ (merged.active_span_context, merged.tracestate))
        × (merged_tags_and_user global isolation current ≡ (merged.tags, merged.user)))
unfolding merge_scopes merged_trace_fields merged_tags_and_user
merged_fields-merge_scopes global isolation current =
    let layers = isolation ∷ current ∷ [] in
    (trace_layers-merge_layers layers global, tag_layers-merge_layers layers global)
