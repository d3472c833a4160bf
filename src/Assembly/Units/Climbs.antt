-- ===== src/Assembly/Units/Climbs.antt =====
-- The walks up from a unit: the nearest unit of a kind, and the unit that stated a conversation.
use wardex_sdk.Prelude.{
  ℕ, zero, suc, ◌<◌, Bool, true, false, ◌&&◌, Option, none, some, [], ◌≡◌, ◌∙◌, sym, Option-cases,
  inl, inr, refl, ap, arith, if◌then◌else◌,
}
use wardex_sdk.Prelude.Text.{Text, text_eq}
use wardex_sdk.Assembly.Units.State.{UnitKind, WorkUnit, Registry}
use wardex_sdk.Assembly.Units.Ambience.{AmbientUnit, is_kind}
use wardex_sdk.Assembly.Units.Edges.{is_conversation}
use wardex_sdk.Assembly.Units.Sound.{IsSound}

-- `while unit is not None and unit.kind is not kind`. A parent is older, so a step for each older unit
-- is enough.
unfoldable pub enclosing_from : ℕ → (ℕ → WorkUnit) → UnitKind → Option ℕ → Option ℕ
enclosing_from zero units kind place = none
enclosing_from (suc fuel) units kind none = none
enclosing_from (suc fuel) units kind (some u) =
    let above = enclosing_from fuel units kind (units u).parent in
    if is_kind (units u).kind kind then some u else above

unfoldable pub enclosing : UnitKind → ℕ → Registry → Option ℕ
unfolding enclosing_from
enclosing kind u r = enclosing_from (suc u) r.units kind (some u)

-- `unit.owner == owner`.
abbrev has_owner : Option Text → Text → Bool
has_owner none owner = false
has_owner (some actual) owner = text_eq actual owner

-- The climb through an owner's units that hold the conversation, to one that was not handed it.
unfoldable pub stated_from : ℕ → (ℕ → WorkUnit) → Text → ℕ → Option ℕ → Bool
stated_from zero units owner said place = false
stated_from (suc fuel) units owner said none = false
stated_from (suc fuel) units owner said (some u) =
    let unit = units u in
    let above = stated_from fuel units owner said unit.parent in
    if has_owner unit.owner owner && is_conversation unit.conversation said
    then (if is_conversation unit.parentage.conversation said then above else true)
    else false

unfoldable pub ambient_stated_conversation : Option AmbientUnit → Text → ℕ → Registry → Bool
unfolding stated_from
ambient_stated_conversation none owner said r = false
ambient_stated_conversation (some entry) owner said r =
    stated_from (suc entry.unit) r.units owner said (some entry.unit)

-- Where the walk goes on from.
abbrev pub enclosing_parent : UnitKind → Option ℕ → Registry → Option ℕ
unfolding enclosing
enclosing_parent kind none r = none
enclosing_parent kind (some p) r = enclosing kind p r

enclosing_none :
    (fuel : ℕ) (units : ℕ → WorkUnit) (kind : UnitKind) → enclosing_from fuel units kind none ≡ none
unfolding enclosing_from
enclosing_none zero units kind = refl
enclosing_none (suc fuel) units kind = refl

module _ (n : ℕ) (r : Registry) (h : IsSound n [] r) where
  -- More fuel than older units changes nothing.
  enclosing_fuel :
      (kind : UnitKind) (more less u : ℕ)
      → u < n
      → u < more
      → u < less
      → enclosing_from more r.units kind (some u) ≡ enclosing_from less r.units kind (some u)
  unfolding enclosing_from
  enclosing_fuel kind zero less u lt near far = absurd (omega arith)
  enclosing_fuel kind (suc more) zero u lt near far = absurd (omega arith)
  enclosing_fuel kind (suc more) (suc less) u lt near far = elim (Option-cases (r.units u).parent) [
    | inl root ↦
        ap (λ above. if is_kind (r.units u).kind kind then some u else above)
          (rw root (enclosing_none more r.units kind ∙ sym (enclosing_none less r.units kind)))
    | inr (p, named) ↦
        let below = h.older u p lt named in
        ap (λ above. if is_kind (r.units u).kind kind then some u else above)
          (ap (enclosing_from more r.units kind) named
            ∙ enclosing_fuel kind more less p (omega (arith, lt, below))
                (omega (arith, near, below)) (omega (arith, far, below))
            ∙ sym (ap (enclosing_from less r.units kind) named))
  ]

  -- The walk ends where the code's loop does: at the unit itself where it is of the kind, and else
  -- where the walk from its parent ends.
  pub enclosing_lem :
      (kind : UnitKind) (u : ℕ)
      → u < n
      → enclosing kind u r ≡ (
          if is_kind (r.units u).kind kind
          then some u
          else enclosing_parent kind (r.units u).parent r)
  unfolding enclosing enclosing_from
  enclosing_lem kind u lt =
      ap (λ above. if is_kind (r.units u).kind kind then some u else above)
        (elim (Option-cases (r.units u).parent) [
          | inl root ↦ rw root (enclosing_none u r.units kind)
          | inr (p, named) ↦ rw named (
              enclosing_fuel kind u (suc p) p (omega (arith, lt, h.older u p lt named))
                (h.older u p lt named) (omega arith))
        ])
