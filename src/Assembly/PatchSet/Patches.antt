-- ===== src/Assembly/PatchSet/Patches.antt =====
-- The operations of a patch set. Objects, names and values are numbers.
use wardex_sdk.Prelude.{
  ℕ, ◌+◌, ◌-◌, Bool, true, false, not, ◌&&◌, Option, none, some, List, [], ◌∷◌, filter, length,
  nat_eq, if◌then◌else◌,
}

-- The own values of objects by name: an object's `__dict__`, or what its slots hold.
abbrev pub Store : Type 0
Store = ℕ → ℕ → Option ℕ

-- What an object makes of a patch of a name: whether `_may_patch` allows one, whether `_own_value` can read
-- it, whether an assignment is taken, and whether it is held weakly.
pub record Target : Type 0 where
  pub may_patch : Bool
  pub readable : Bool
  pub settable : Bool
  pub weak : Bool

pub record Patch : Type 0 where
  pub object : ℕ
  pub name : ℕ
  pub wrapper : ℕ
  pub original : Option ℕ
  pub weak : Bool

-- The set, the latest patch first, and the store that it writes to.
pub record PatchSet : Type 0 where
  pub store : Store
  pub patches : List Patch
  pub superseded : ℕ
  pub collected : ℕ
  pub refused : ℕ

-- `setattr`, or `delattr` where there was no own value.
unfoldable pub set_attr : ℕ → ℕ → Option ℕ → Store → Store
set_attr o n value store p m = if nat_eq p o && nat_eq m n then value else store p m

unfoldable pub is_dead : (ℕ → Bool) → Patch → Bool
is_dead alive p = p.weak && not (alive p.object)

unfoldable pub prune : (ℕ → Bool) → PatchSet → PatchSet
unfolding is_dead
prune alive s =
    let live = filter (λ p. not (is_dead alive p)) s.patches in
    record s { collected = s.collected + (length s.patches - length live); patches = live }

unfoldable pub refuse : PatchSet → PatchSet
refuse s = record s { refused = s.refused + 1 }

-- The patch that is recorded once its assignment is taken.
unfoldable pub record_patch : Bool → ℕ → ℕ → ℕ → PatchSet → PatchSet
unfolding set_attr
record_patch weak o n w s = record s {
  store = set_attr o n (some w) s.store;
  patches =
      record { object = o; name = n; wrapper = w; original = s.store o n; weak = weak } ∷ s.patches;
}

-- `patch`, with whether the wrapper is installed.
unfoldable pub patch : (ℕ → ℕ → Target) → (ℕ → Bool) → ℕ → ℕ → ℕ → PatchSet → PatchSet × Bool
unfolding prune refuse record_patch
patch host alive o n w s =
    if not (host o n).may_patch
    then (refuse (prune alive s), false)
    else if not (host o n).readable
    then (refuse (prune alive s), false)
    else if not (host o n).settable
    then (prune alive s, false)
    else (record_patch (host o n).weak o n w (prune alive s), true)

-- `current is record.wrapper`.
unfoldable pub holds : ℕ → Option ℕ → Bool
holds w none = false
holds w (some v) = nat_eq v w

-- `_restore`.
unfoldable pub restore : (ℕ → ℕ → Target) → (ℕ → Bool) → Patch → PatchSet → PatchSet
unfolding is_dead holds set_attr
restore host alive p s =
    if is_dead alive p
    then record s { collected = s.collected + 1 }
    else if not (host p.object p.name).readable
    then s
    else if not (holds p.wrapper (s.store p.object p.name))
    then record s { superseded = s.superseded + 1 }
    else if (host p.object p.name).settable
    then record s { store = set_attr p.object p.name p.original s.store }
    else s

-- The loop of `restore_all`. The list is the set's.
unfoldable pub restore_each : (ℕ → ℕ → Target) → (ℕ → Bool) → List Patch → PatchSet → PatchSet
unfolding restore
restore_each host alive [] s = s
restore_each host alive (p ∷ ps) s =
    restore_each host alive ps (restore host alive p (record s { patches = ps }))

unfoldable pub restore_all : (ℕ → ℕ → Target) → (ℕ → Bool) → PatchSet → PatchSet
unfolding restore_each
restore_all host alive s = restore_each host alive s.patches s
