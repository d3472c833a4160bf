-- ===== src/Assembly/Units/Entered.antt =====
-- The whole of `open`: the tree of units stands afterwards, with one more, and the books are even.
use mathlib.Core.Path.{subst}
use wardex_sdk.Prelude.{
  ℕ, suc, true, Option, none, some, List, [], ◌∷◌, ◌++◌, length, ◌≡◌, refl, sym, ap, ◌∙◌, arith,
  if_true, if_false, holds_if, Bool-cases, inl, inr,
}
use wardex_sdk.Assembly.Builder.Draft.{SpanDraft}
use wardex_sdk.Assembly.Units.State.{WorkUnit, Registry}
use wardex_sdk.Assembly.Units.Close.{flush}
use wardex_sdk.Assembly.Units.Open.{attach_child, attach_root, attach, evict_while_rooted}
use wardex_sdk.Assembly.Units.Sound.{IsSound}
use wardex_sdk.Assembly.Units.Paid.{IsPaid, flush-IsPaid}
use wardex_sdk.Assembly.Units.Alike.{even-IsPaid, change_unit_alike, alike-IsSound}
use wardex_sdk.Assembly.Units.Evicting.{IsGood, evict_while_rooted-IsDone}
use wardex_sdk.Assembly.Units.Entering.{
  IsNewcomer, after-IsNewcomer, as_root, as_root-IsSound, as_child, as_child-IsSound,
}
use wardex_sdk.Assembly.Units.Opening.{entered-IsPaid}
use wardex_sdk.Assembly.Units.Attaching.{IsJoined, attach_child-IsJoined}

unfoldable pub listed : ℕ → Registry → Registry
listed n a = record a { live_units = a.live_units ++ (n ∷ []) }

-- The new unit has entered, and what it took is pending.
pub record IsEntered (n m : ℕ) (pending : List ℕ) (r s : Registry) : Type 0 where
  pub sound : IsSound (suc n) [] s
  pub paid : IsPaid (suc n) (suc m) pending s
  pub next_unit : s.next_unit ≡ r.next_unit
  pub next_draft : s.next_draft ≡ r.next_draft
  pub live : (s.units n).live ≡ true

module _ (n m task now : ℕ) (pending : List ℕ) (r : Registry) (h : IsGood n m pending r)
    (new : IsNewcomer n m r) where
  root-IsEntered :
      IsEntered n m
        (pending ++ (attach_root task now n r).1)
        r
        (listed n (attach_root task now n r).0)
  unfolding attach_root listed as_root
  root-IsEntered =
      let fuel = length r.roots in
      let done = evict_while_rooted-IsDone n m fuel task now pending r h in
      let s = (evict_while_rooted fuel task now r).0 in
      let owing = pending ++ (evict_while_rooted fuel task now r).1 in
      let still = after-IsNewcomer n m r s done.rest new in
      record {
        sound = as_root-IsSound n m s done.good.sound still;
        paid =
            even-IsPaid (suc n) (suc m) owing s (as_root n s)
              (record {
                live = λ v lt. refl;
                draft = λ v lt. refl;
                opened = λ v lt. refl;
                flags = λ x lt. refl;
                emitted = refl;
              })
              (entered-IsPaid n m owing s done.good.paid still);
        next_unit = done.rest.next_unit;
        next_draft = done.rest.next_draft;
        live = still.live;
      }

  module _ (p : ℕ) (named : (r.units n).parent ≡ some p) where
    joined-IsEntered :
        (after : Registry × List ℕ)
        → IsJoined n m p pending r after
        → IsEntered n m (pending ++ after.1) r (listed n after.0)
    unfolding listed as_child
    joined-IsEntered after j =
        let s = j.middle in
        let still = after-IsNewcomer n m r s j.rest new in
        let parent = ap (λ unit. unit.parent) (j.rest.beyond n (omega arith)) ∙ named in
        let f : WorkUnit → WorkUnit =
          λ unit. record unit { children = unit.children ++ (n ∷ []) } in
        subst (λ a. IsEntered n m (pending ++ after.1) r (listed n a)) (sym j.result)
          (record {
            sound = as_child-IsSound n m s j.good.sound still p (new.older p named) j.lives parent;
            paid =
                even-IsPaid (suc n) (suc m) (pending ++ after.1) s (as_child p n s)
                  (record {
                    live =
                        λ v lt. change_unit_alike (λ unit. unit.live) f p s.units (λ unit. refl) v;
                    draft =
                        λ v lt. change_unit_alike (λ unit. unit.draft) f p s.units (λ unit. refl) v;
                    opened = λ v lt.
                        change_unit_alike (λ unit. unit.opened) f p s.units (λ unit. refl) v;
                    flags = λ x lt. refl;
                    emitted = refl;
                  })
                  (entered-IsPaid n m (pending ++ after.1) s j.good.paid still);
            next_unit = j.rest.next_unit;
            next_draft = j.rest.next_draft;
            live = change_unit_alike (λ unit. unit.live) f p s.units (λ unit. refl) n ∙ still.live;
          })

  pub attach-IsEntered :
      (parent : Option ℕ)
      → (r.units n).parent ≡ parent
      → IsEntered n m
          (pending ++ (attach task now parent n r).1)
          r
          (listed n (attach task now parent n r).0)
  unfolding attach
  attach-IsEntered none e = root-IsEntered
  attach-IsEntered (some p) e = elim (Bool-cases (r.units p).live) [
    | inl lives ↦
        subst (λ (a : Registry × List ℕ). IsEntered n m (pending ++ a.1) r (listed n a.0))
          (sym (if_true _ _ _ lives))
          (joined-IsEntered p e (attach_child task now p n r)
            (attach_child-IsJoined n m p task now pending r h (new.older p e) lives))
    | inr dead ↦
        subst (λ (a : Registry × List ℕ). IsEntered n m (pending ++ a.1) r (listed n a.0))
          (sym (if_false _ _ _ dead)) root-IsEntered
  ]

-- Every unit stands in its place and owes its span just while it is live, and nothing is pending.
pub record IsWell (r : Registry) : Type 0 where
  pub sound : IsSound r.next_unit [] r
  pub paid : IsPaid r.next_unit r.next_draft [] r

-- A flush writes on drafts, and gives some to the sink.
pub flush_frame :
    (pending : List ℕ) (r : Registry)
    → (store : ℕ → SpanDraft) × (given : List ℕ) × (flush pending r
        ≡ record r { drafts = store; emitted = given })
unfolding flush
flush_frame [] r = (r.drafts, r.emitted, refl)
flush_frame (x ∷ pending) r =
    holds_if
      (λ s.
        (store : ℕ → SpanDraft) × (given : List ℕ) × (flush pending s
          ≡ record r { drafts = store; emitted = given }))
      _ _ r (λ _. flush_frame pending _) (λ _. flush_frame pending r)

redrafted-IsSound :
    (n : ℕ) (r : Registry) (store : ℕ → SpanDraft) (given : List ℕ)
    → IsSound n [] r
    → IsSound n [] (record r { drafts = store; emitted = given })
redrafted-IsSound n r store given =
    alike-IsSound n r (record r { drafts = store; emitted = given })
      (record {
        live = λ v lt. refl;
        parent = λ v lt. refl;
        children = λ v lt. refl;
        alias_keys = λ v lt. refl;
        roots = refl;
        live_units = refl;
        by_alias = refl;
      })

-- Once what is pending is flushed, all is well.
pub flush-IsWell :
    (n m : ℕ) (pending : List ℕ) (s : Registry)
    → s.next_unit ≡ n
    → s.next_draft ≡ m
    → IsSound n [] s
    → IsPaid n m pending s
    → IsWell (flush pending s)
flush-IsWell n m pending s units drafts sound paid =
    let (store, given, frame) = flush_frame pending s in
    let kept : (flush pending s).next_unit ≡ n = ap (λ r. r.next_unit) frame ∙ units in
    let drawn : (flush pending s).next_draft ≡ m = ap (λ r. r.next_draft) frame ∙ drafts in
    record {
      sound =
          subst (λ k. IsSound k [] (flush pending s)) (sym kept)
            (subst (IsSound n []) (sym frame) (redrafted-IsSound n s store given sound));
      paid =
          subst (λ k. IsPaid k (flush pending s).next_draft [] (flush pending s)) (sym kept)
            (subst (λ k. IsPaid n k [] (flush pending s)) (sym drawn)
              (flush-IsPaid n m pending s paid));
    }
