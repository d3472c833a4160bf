-- ===== src/Assembly/Units/Opens.antt =====
-- The whole of `open`, over a registry where all is well.
use wardex_sdk.Prelude.{
  ℕ, suc, ◌<◌, false, none, some, [], ◌++◌, nat_eq, length, ◌≡◌, refl, sym, ap, ◌∙◌, arith, if_true,
  if_false, nat_eq_iff,
}
use wardex_sdk.Assembly.Builder.Draft.{SpanDraft, new_draft}
use wardex_sdk.Spans.Enums.{CaptureSource}
use wardex_sdk.Assembly.Units.State.{Registry, change}
use wardex_sdk.Assembly.Units.Close.{flush}
use wardex_sdk.Assembly.Units.Aliases.{bind_alias_locked, bind_each}
use wardex_sdk.Assembly.Units.Spans.{add_draft}
use wardex_sdk.Assembly.Units.Open.{attach, evict_while_full, enter, open_unit, add_unit}
use wardex_sdk.Assembly.Units.Edges.{Moment, Asked, new_unit, settle_edge, state_conversation}
use wardex_sdk.Assembly.Units.Alike.{even-IsPaid, alike-IsSound}
use wardex_sdk.Assembly.Units.Evicting.{IsGood, evict_while_full-IsDone}
use wardex_sdk.Assembly.Units.Entering.{IsNewcomer, after-IsNewcomer}
use wardex_sdk.Assembly.Units.Binding.{
  bind_alias_locked-IsRebound, bind_each-IsRebound, rebound-IsSound, rebound-IsPaid,
}
use wardex_sdk.Assembly.Units.Rekeying.{Aliased}
use wardex_sdk.Assembly.Units.Entered.{listed, attach-IsEntered, IsWell, flush-IsWell}

module _ (n d : ℕ) (m : Moment) (asked : Asked) (b : Registry) (h : IsGood n d [] b)
    (new : IsNewcomer n d b) where
  -- Room is made, the unit attached and its aliases bound.
  enter-IsWell :
      (b.units n).parent ≡ asked.parent_unit
      → b.next_unit ≡ suc n
      → b.next_draft ≡ suc d
      → IsWell (flush (enter m asked n b).1 (enter m asked n b).0)
  unfolding enter listed Aliased
  enter-IsWell parent units drafts =
      let room = evict_while_full (length b.roots) m.task m.now b in
      let full = evict_while_full-IsDone n d (length b.roots) m.task m.now [] b h in
      let still = after-IsNewcomer n d b room.0 full.rest new in
      let named = ap (λ unit. unit.parent) (full.rest.beyond n (omega arith)) ∙ parent in
      let e =
        attach-IsEntered n d m.task m.now room.1 room.0 full.good still asked.parent_unit named in
      let attached = attach m.task m.now asked.parent_unit n room.0 in
      let s = listed n attached.0 in
      let owing = room.1 ++ attached.1 in
      let one = bind_alias_locked asked.key n asked.carries_loss s in
      let bound =
        bind_alias_locked-IsRebound (suc n) asked.key n asked.carries_loss s (omega arith) e.live
          e.sound.aliased in
      let rest =
        bind_each-IsRebound (suc n) asked.aliases n one (omega arith) (bound.0.live n ∙ e.live)
          bound.1 in
      let t = bind_each asked.aliases n one in
      flush-IsWell (suc n) (suc d) owing t
        (rest.0.next_unit ∙ bound.0.next_unit ∙ e.next_unit ∙ full.rest.next_unit ∙ units)
        (rest.0.next_draft ∙ bound.0.next_draft ∙ e.next_draft ∙ full.rest.next_draft ∙ drafts)
        (rebound-IsSound (suc n) one t rest.0 rest.1
          (rebound-IsSound (suc n) s one bound.0 bound.1 e.sound))
        (rebound-IsPaid (suc n) (suc d) owing one t rest.0
          (rebound-IsPaid (suc n) (suc d) owing s one bound.0 e.paid))

module _ (m : Moment) (asked : Asked) (r : Registry) (h : IsWell r)
    (known : (p : ℕ) → asked.parent_unit ≡ some p → p < r.next_unit) where
  first_draft : SpanDraft
  first_draft = state_conversation asked.conversation (
      new_draft m.generated.span_id (settle_edge asked.parent_unit m asked r).parentage
        (some asked.intent) asked.subject CaptureSource.adapter m.now none)

  first_flag : first_draft.emitted ≡ false
  unfolding first_draft state_conversation new_draft
  first_flag = ground arith

  pub begun : Registry
  begun =
      add_unit (new_unit r.next_draft first_draft (settle_edge asked.parent_unit m asked r) m asked)
        (add_draft first_draft r)

  n : ℕ
  n = r.next_unit

  begun_old : (v : ℕ) → v < n → begun.units v ≡ r.units v
  unfolding begun n add_unit add_draft change
  begun_old v lt = if_false (nat_eq v r.next_unit) _ (r.units v) (ground arith)

  begun_here :
      begun.units n
      ≡ new_unit r.next_draft first_draft (settle_edge asked.parent_unit m asked r) m asked
  unfolding begun n add_unit add_draft change
  begun_here =
      if_true (nat_eq r.next_unit r.next_unit) _ _ ((nat_eq_iff r.next_unit r.next_unit).1 refl)

  begun-IsNewcomer : IsNewcomer n r.next_draft begun
  unfolding begun n add_unit add_draft
  begun-IsNewcomer = record {
    live = ap (λ unit. unit.live) begun_here ∙ unfold new_unit in refl;
    older =
        λ p e. known p (sym (ap (λ unit. unit.parent) begun_here ∙ unfold new_unit in refl) ∙ e);
    children = ap (λ unit. unit.children) begun_here ∙ unfold new_unit in refl;
    alias_keys = ap (λ unit. unit.alias_keys) begun_here ∙ unfold new_unit in refl;
    opened = ap (λ unit. unit.opened) begun_here ∙ unfold new_unit in refl;
    draft = ap (λ unit. unit.draft) begun_here ∙ unfold new_unit in refl;
    flag =
        ap (λ (d : SpanDraft). d.emitted)
          (unfold change in
            if_true (nat_eq r.next_draft r.next_draft) _ _
              ((nat_eq_iff r.next_draft r.next_draft).1 refl))
        ∙ first_flag;
  }

  pub begun-IsGood : IsGood r.next_unit r.next_draft [] begun
  unfolding begun n add_unit add_draft
  begun-IsGood = record {
    sound =
        alike-IsSound n r begun
          (record {
            live = λ v lt. ap (λ unit. unit.live) (begun_old v lt);
            parent = λ v lt. ap (λ unit. unit.parent) (begun_old v lt);
            children = λ v lt. ap (λ unit. unit.children) (begun_old v lt);
            alias_keys = λ v lt. ap (λ unit. unit.alias_keys) (begun_old v lt);
            roots = refl;
            live_units = refl;
            by_alias = refl;
          })
          h.sound;
    paid =
        even-IsPaid n r.next_draft [] r begun
          (record {
            live = λ v lt. ap (λ unit. unit.live) (begun_old v lt);
            draft = λ v lt. ap (λ unit. unit.draft) (begun_old v lt);
            opened = λ v lt. ap (λ unit. unit.opened) (begun_old v lt);
            flags = λ x lt.
                ap (λ (d : SpanDraft). d.emitted)
                  (unfold change in if_false (nat_eq x r.next_draft) _ _ (ground arith));
            emitted = refl;
          })
          h.paid;
    room = omega arith;
  }

  -- A unit that is opened finds its place, whatever goes to make room, and every span that is owed
  -- is emitted.
  pub open_unit-IsWell : IsWell (open_unit m asked r).0
  unfolding open_unit begun n first_draft
  open_unit-IsWell =
      enter-IsWell r.next_unit r.next_draft m asked begun begun-IsGood begun-IsNewcomer
        (ap (λ unit. unit.parent) begun_here ∙ unfold new_unit in refl)
        (unfold add_unit add_draft in refl) (unfold add_unit add_draft in refl)

  -- The unit and its draft, once made, enter the registry.
  pub open_unit_lem :
      (open_unit m asked r).0
      ≡ flush (enter m asked r.next_unit begun).1 (enter m asked r.next_unit begun).0
  unfolding open_unit begun n first_draft
  open_unit_lem = refl

  pub begun_lists :
      (begun.max_units ≡ r.max_units)
      × (begun.max_total_units ≡ r.max_total_units)
      × (begun.roots ≡ r.roots)
      × (begun.live_units ≡ r.live_units)
  unfolding begun add_unit add_draft
  begun_lists = (refl, refl, refl, refl)
