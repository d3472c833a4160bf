-- ===== src/Assembly/Parentage/Confidence.antt =====
-- The sources of a parent edge, and the confidence and the marker that each has.
use wardex_sdk.Prelude.{
  ℕ, zero, suc, ◌*◌, ◌^◌, Bool, true, false, Option, none, some, List, [], ◌∷◌, ltb, if◌then◌else◌,
}
use wardex_sdk.Prelude.Text.{Text}
use wardex_sdk.Assembly.Integrity.{Limitation}

-- A float that is a number, as a multiple of the least positive float, 2 ^ -1074.
pub data Real : Type 0 where
  minus_infinite : Real
  minus plus : ℕ → Real
  infinite : Real

pub data Float : Type 0 where
  nan : Float
  real : Real → Float

-- `<` on floats that are numbers; the two zeros are equal.
unfoldable pub lt : Real → Real → Bool
lt minus_infinite minus_infinite = false
lt minus_infinite (minus n) = true
lt minus_infinite (plus n) = true
lt minus_infinite infinite = true
lt (minus m) minus_infinite = false
lt (minus m) (minus n) = ltb n m
lt (minus zero) (plus zero) = false
lt (minus zero) (plus (suc n)) = true
lt (minus (suc m)) (plus n) = true
lt (minus m) infinite = true
lt (plus m) minus_infinite = false
lt (plus m) (minus n) = false
lt (plus m) (plus n) = ltb m n
lt (plus m) infinite = true
lt infinite minus_infinite = false
lt infinite (minus n) = false
lt infinite (plus n) = false
lt infinite infinite = false

-- Python's `min(a, b)` and `max(a, b)`.
unfoldable pub min_of : Real → Real → Real
unfolding lt
min_of a b = if lt b a then b else a

unfoldable pub max_of : Real → Real → Real
unfolding lt
max_of a b = if lt a b then b else a

pub data ParentSource : Type 0 where
  contextvar header unit_active unit_alias unit_sole trace_root unresolved : ParentSource

-- The floats 1.0, 0.9 and 0.5 as such multiples.
unfoldable pub full_tier : ℕ
full_tier = 2 ^ 1074

unfoldable pub alias_tier : ℕ
alias_tier = 8106479329266893 * 2 ^ 1021

unfoldable pub sole_tier : ℕ
sole_tier = 2 ^ 1073

-- `_CONFIDENCE`.
unfoldable pub tier : ParentSource → ℕ
tier contextvar = full_tier
tier header = full_tier
tier unit_active = full_tier
tier unit_alias = alias_tier
tier unit_sole = sole_tier
tier trace_root = full_tier
tier unresolved = 0

-- `_markers_for`, with `_MARKER`.
unfoldable pub markers_for : ParentSource → List Limitation
markers_for contextvar = []
markers_for header = []
markers_for unit_active = []
markers_for unit_alias = []
markers_for unit_sole = Limitation.unit_inferred_sole ∷ []
markers_for trace_root = []
markers_for unresolved = Limitation.parent_unresolved ∷ []

pub record Evidence : Type 0 where
  pub source : ParentSource
  pub request_id : Option Text
  pub operation_id : Option Text
  pub attempt_id : Option Text
  pub confidence : Option Float

-- What a source has of an evidence's confidence.
unfoldable pub settle : ℕ → Option Float → Real
unfolding min_of max_of
settle default none = plus default
settle default (some nan) = plus default
settle default (some (real r)) = max_of (plus 0) (min_of (plus default) r)

-- `_confidence_for`.
unfoldable pub confidence_for : ParentSource → Evidence → Real
unfolding tier settle
confidence_for source e = settle (tier source) e.confidence

-- The confidence that `cap_at_alias_tier` puts into an evidence.
unfoldable pub cap : Option Float → Real
unfolding min_of
cap none = plus alias_tier
cap (some nan) = plus alias_tier
cap (some (real r)) = min_of (plus alias_tier) r

unfoldable pub cap_at_alias_tier : Evidence → Evidence
unfolding cap
cap_at_alias_tier e = record e { confidence = some (real (cap e.confidence)) }
