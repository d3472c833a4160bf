-- ===== src/Scope/Layers.antt =====
-- A scope, and what the merge makes of three of them.
use wardex_sdk.Prelude.{[], ◌∷◌, ℕ, Option, List, HasEq}
use wardex_sdk.Prelude.Text.{Text, text_eq, text_eq_iff}
use wardex_sdk.Prelude.Dicts.{put, update, or_else}
use wardex_sdk.Types.{SpanContext}

pub record UserInfo : Type 0 where
  pub id : Option Text
  pub email : Option Text
  pub username : Option Text
  pub ip_address : Option Text

instance abbrev pub text_Eq : HasEq Text
text_Eq = record { same = text_eq; same_iff = text_eq_iff }

-- Values of contexts are named by numbers, and so are conversations.
pub record Scope : Type 0 where
  pub tags : List (Text × Text)
  pub user : Option UserInfo
  pub contexts : List (Text × List (Text × ℕ))
  pub active_span_context : Option SpanContext
  pub conversation : Option ℕ
  pub tracestate : Option Text

unfoldable pub set_tag : Text → Text → Scope → Scope
unfolding put
set_tag key value s = record s { tags = put key value s.tags }

unfoldable pub set_user : Option UserInfo → Scope → Scope
set_user user s = record s { user = user }

unfoldable pub set_context : Text → List (Text × ℕ) → Scope → Scope
unfolding put
set_context key value s = record s { contexts = put key value s.contexts }

-- One layer of `merge_scopes`.
unfoldable pub merge_layer : Scope → Scope → Scope
unfolding update
merge_layer layer merged = record {
  tags = update layer.tags merged.tags;
  user = or_else layer.user merged.user;
  contexts = update layer.contexts merged.contexts;
  active_span_context = or_else layer.active_span_context merged.active_span_context;
  conversation = or_else layer.conversation merged.conversation;
  tracestate = or_else layer.tracestate merged.tracestate;
}

-- `for layer in (isolation, current)`.
unfoldable pub merge_layers : List Scope → Scope → Scope
unfolding merge_layer
merge_layers [] merged = merged
merge_layers (layer ∷ layers) merged = merge_layers layers (merge_layer layer merged)

unfoldable pub merge_scopes : Scope → Scope → Scope → Scope
unfolding merge_layers
merge_scopes global isolation current = merge_layers (isolation ∷ current ∷ []) global

-- The same loop in `merged_trace_fields`, over the two variables.
unfoldable pub trace_layers :
    List Scope → Option SpanContext → Option Text → Option SpanContext × Option Text
trace_layers [] active tracestate = (active, tracestate)
trace_layers (layer ∷ layers) active tracestate =
    trace_layers layers (or_else layer.active_span_context active)
      (or_else layer.tracestate tracestate)

unfoldable pub merged_trace_fields : Scope → Scope → Scope → Option SpanContext × Option Text
unfolding trace_layers
merged_trace_fields global isolation current =
    trace_layers (isolation ∷ current ∷ []) global.active_span_context global.tracestate

-- The same loop in `merged_tags_and_user`.
unfoldable pub tag_layers :
    List Scope → List (Text × Text) → Option UserInfo → List (Text × Text) × Option UserInfo
unfolding update
tag_layers [] tags user = (tags, user)
tag_layers (layer ∷ layers) tags user =
    tag_layers layers (update layer.tags tags) (or_else layer.user user)

unfoldable pub merged_tags_and_user : Scope → Scope → Scope → List (Text × Text) × Option UserInfo
unfolding tag_layers
merged_tags_and_user global isolation current =
    tag_layers (isolation ∷ current ∷ []) global.tags global.user
