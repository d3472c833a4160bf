-- ===== src/Assembly/Parentage/Tiers.antt =====
-- What a confidence can be, whatever the evidence supplies.
use wardex_sdk.Prelude.{
  ℕ, zero, suc, ◌≤◌, ◌<◌, min, ◌≡◌, ◌∙◌, refl, ap, inl, inr, Bool, true, false, Option, none, some,
  ltb, Bool-cases, arith, if◌then◌else◌,
}
use wardex_sdk.Assembly.Parentage.Confidence.{
  Float, nan, real, Real, minus_infinite, minus, plus, infinite, lt, min_of, max_of, ParentSource,
  tier, alias_tier, Evidence, settle, confidence_for, cap, cap_at_alias_tier,
}

-- A number from 0 to a bound.
abbrev pub IsWithin : ℕ → Real → Type 0
IsWithin bound r = (n : ℕ) × (r ≡ plus n) × (n ≤ bound)

IsWithin-if :
    (b : Bool) (bound : ℕ) (q r : Real)
    → (b ≡ true → IsWithin bound q)
    → (b ≡ false → IsWithin bound r)
    → IsWithin bound (if b then q else r)
IsWithin-if true bound q r h k = h refl
IsWithin-if false bound q r h k = k refl

below : (m n : ℕ) → ltb m n ≡ true → m < n
below m n e = ground arith

not_below : (m n : ℕ) → ltb m n ≡ false → n ≤ m
not_below m n e = ground arith

max_of-plus : (bound n : ℕ) → n ≤ bound → IsWithin bound (max_of (plus 0) (plus n))
unfolding max_of lt
max_of-plus bound n h =
    IsWithin-if (ltb 0 n) bound (plus n) (plus 0) (λ _. (n, refl, h)) (λ _. (0, refl, omega arith))

max_of-min_of : (bound : ℕ) (r : Real) → IsWithin bound (max_of (plus 0) (min_of (plus bound) r))
unfolding min_of max_of lt
max_of-min_of bound minus_infinite = (0, refl, omega arith)
max_of-min_of zero (minus zero) = (0, refl, omega arith)
max_of-min_of (suc bound) (minus zero) = (0, refl, omega arith)
max_of-min_of zero (minus (suc n)) = (0, refl, omega arith)
max_of-min_of (suc bound) (minus (suc n)) = (0, refl, omega arith)
max_of-min_of bound (plus n) = elim (Bool-cases (ltb n bound)) [
  | inl e ↦ rw e (max_of-plus bound n (omega (arith, below n bound e)))
  | inr e ↦ rw e (max_of-plus bound bound (omega arith))
]
max_of-min_of bound infinite = max_of-plus bound bound (omega arith)

settle-IsWithin : (bound : ℕ) (c : Option Float) → IsWithin bound (settle bound c)
unfolding settle
settle-IsWithin bound none = (bound, refl, omega arith)
settle-IsWithin bound (some nan) = (bound, refl, omega arith)
settle-IsWithin bound (some (real r)) = max_of-min_of bound r

-- Whatever the evidence supplies (nothing, NaN, an infinity, a negative number), a confidence is a
-- number from 0 to its source's tier.
pub confidence_for-IsWithin :
    (s : ParentSource) (e : Evidence) → IsWithin (tier s) (confidence_for s e)
unfolding confidence_for
confidence_for-IsWithin s e = settle-IsWithin (tier s) e.confidence

max_of-zero : (n : ℕ) → max_of (plus 0) (plus n) ≡ plus n
unfolding max_of lt
max_of-zero n = elim (Bool-cases (ltb 0 n)) [
  | inl e ↦ rw e refl
  | inr e ↦ rw e (ap plus (omega (arith, not_below 0 n e)))
]

-- A number that is not negative settles as the lesser of itself and the tier.
settle-plus : (bound n : ℕ) → settle bound (some (real (plus n))) ≡ plus (min n bound)
unfolding settle min_of lt
settle-plus bound n = elim (Bool-cases (ltb n bound)) [
  | inl e ↦ rw e (max_of-zero n ∙ ap plus (omega (arith, below n bound e)))
  | inr e ↦ rw e (max_of-zero bound ∙ ap plus (omega (arith, not_below n bound e)))
]

-- A minimum with a cap settles below that cap.
settle-capped :
    (bound most : ℕ) (r : Real)
    → IsWithin (min bound most) (settle bound (some (real (min_of (plus most) r))))
unfolding min_of lt settle max_of
settle-capped bound most minus_infinite = (0, refl, omega arith)
settle-capped zero (suc most) (minus zero) = (0, refl, omega arith)
settle-capped (suc bound) (suc most) (minus zero) = (0, refl, omega arith)
settle-capped bound zero (minus zero) = (min 0 bound, settle-plus bound 0, omega arith)
settle-capped zero zero (minus (suc n)) = (0, refl, omega arith)
settle-capped zero (suc most) (minus (suc n)) = (0, refl, omega arith)
settle-capped (suc bound) zero (minus (suc n)) = (0, refl, omega arith)
settle-capped (suc bound) (suc most) (minus (suc n)) = (0, refl, omega arith)
settle-capped bound most (plus n) = elim (Bool-cases (ltb n most)) [
  | inl e ↦ rw e (min n bound, settle-plus bound n, omega (arith, below n most e))
  | inr e ↦ rw e (min most bound, settle-plus bound most, omega arith)
]
settle-capped bound most infinite = (min most bound, settle-plus bound most, omega arith)

settle-cap :
    (bound : ℕ) (c : Option Float)
    → IsWithin (min bound alias_tier) (settle bound (some (real (cap c))))
unfolding cap
settle-cap bound none = (min alias_tier bound, settle-plus bound alias_tier, omega arith)
settle-cap bound (some nan) = (min alias_tier bound, settle-plus bound alias_tier, omega arith)
settle-cap bound (some (real r)) = settle-capped bound alias_tier r

-- Evidence that was capped has a confidence within the alias tier and within its source's tier,
-- whatever it supplied before.
pub confidence_for-cap_at_alias_tier :
    (s : ParentSource) (e : Evidence)
    → IsWithin (min (tier s) alias_tier) (confidence_for s (cap_at_alias_tier e))
unfolding confidence_for cap_at_alias_tier
confidence_for-cap_at_alias_tier s e = settle-cap (tier s) e.confidence
