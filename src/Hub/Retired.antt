-- ===== src/Hub/Retired.antt =====
-- Scopes that were taken down away from home, and what a Context reads in their place.
use wardex_sdk.Prelude.{ℕ, zero, suc, Option, none, some, nat_eq, if◌then◌else◌}

-- `_retired_to` and `_retired_by` of each scope. Scopes and Contexts are named by numbers.
abbrev pub Retirements : Type 0
Retirements = ℕ → Option (ℕ × ℕ)

-- The scope that a Context reads in place of a scope, one link on.
unfoldable pub next_of : ℕ → Option (ℕ × ℕ) → Option ℕ
next_of owner none = none
next_of owner (some (to, by)) = if nat_eq by owner then some to else none

unfoldable pub follow_from : (ℕ → ℕ) → ℕ → Option ℕ → ℕ
follow_from onward s none = s
follow_from onward s (some to) = onward to

-- The loops of `retire` and `_settled`, on fuel.
unfoldable pub follow : ℕ → ℕ → Retirements → ℕ → ℕ
unfolding next_of follow_from
follow zero owner t s = s
follow (suc n) owner t s = follow_from (follow n owner t) s (next_of owner (t s))

-- The two writes at the end of `retire`.
unfoldable pub link : ℕ → ℕ → ℕ → Retirements → Retirements
link fork to owner t s = if nat_eq s fork then some (to, owner) else t s

unfoldable pub retire : ℕ → ℕ → ℕ → ℕ → Retirements → Retirements
unfolding follow link
retire fuel fork prev owner t =
    let last = follow fuel owner t prev in if nat_eq last fork then t else link fork last owner t
