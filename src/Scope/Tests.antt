-- ===== src/Scope/Tests.antt =====
-- Witnesses of the theorems on scopes.
use wardex_sdk.Prelude.{◌≡◌, refl, none, some, [], ◌∷◌}
use wardex_sdk.Prelude.Text.{Text, codes}
use wardex_sdk.Prelude.Dicts.{get, IsDict}
use wardex_sdk.Scope.Layers.{
  Scope, text_Eq, merge_scopes, merged_trace_fields, merged_tags_and_user,
}
use wardex_sdk.Scope.Merge.{IsScope, first_of, merge_scopes-IsScope, merged_fields-merge_scopes}

abbrev env_tag : Text
env_tag = codes "env"

-- A scope with one tag.
abbrev tagged : Text → Scope
tagged value = record {
  tags = (env_tag, value) ∷ [];
  user = none;
  contexts = [];
  active_span_context = none;
  conversation = none;
  tracestate = none;
}

tagged-IsScope : (value : Text) → IsScope (tagged value)
unfolding IsDict get
tagged-IsScope value = ((refl, tt), tt)

abbrev global : Scope
global = tagged (codes "prod")

abbrev isolation : Scope
isolation = record (tagged []) { tags = []; conversation = some 4 }

isolation-IsScope : IsScope isolation
unfolding IsDict
isolation-IsScope = (tt, tt)

abbrev current : Scope
current = tagged (codes "dev")

merge_scopes-IsScope_example :
    (let merged = merge_scopes global isolation current in
      IsScope merged
      × (get env_tag merged.tags
          ≡ first_of
              (get env_tag current.tags)
              (get env_tag isolation.tags)
              (get env_tag global.tags))
      × (get env_tag merged.contexts
          ≡ first_of
              (get env_tag current.contexts)
              (get env_tag isolation.contexts)
              (get env_tag global.contexts))
      × (merged.user ≡ first_of current.user isolation.user global.user)
      × (merged.conversation
          ≡ first_of current.conversation isolation.conversation global.conversation)
      × (merged.active_span_context
          ≡ first_of current.active_span_context isolation.active_span_context
              global.active_span_context)
      × (merged.tracestate ≡ first_of current.tracestate isolation.tracestate global.tracestate))
merge_scopes-IsScope_example =
    merge_scopes-IsScope global isolation current env_tag (tagged-IsScope (codes "prod"))
      isolation-IsScope (tagged-IsScope (codes "dev"))

merged_fields-merge_scopes_example :
    (let merged = merge_scopes global isolation current in
      (merged_trace_fields global isolation current
        ≡ (merged.active_span_context, merged.tracestate))
      × (merged_tags_and_user global isolation current ≡ (merged.tags, merged.user)))
merged_fields-merge_scopes_example = merged_fields-merge_scopes global isolation current
