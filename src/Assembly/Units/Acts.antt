-- ===== src/Assembly/Units/Acts.antt =====
-- The other operations of the registry keep the tree and the books.
use mathlib.Core.Path.{subst}
use wardex_sdk.Prelude.{
  ℕ, ◌<◌, Bool, true, false, ◌||◌, Option, List, [], ◌∷◌, ◌++◌, includes, ◌≡◌, refl, sym, arith,
  if_true, holds_if, Option-cases, inl, inr,
}
use wardex_sdk.Prelude.Dicts.{get, put}
use wardex_sdk.Prelude.Text.{Text}
use wardex_sdk.Assembly.Integrity.{Limitation}
use wardex_sdk.Assembly.Units.State.{UnitKey, unit_key_Eq, WorkUnit, Registry, change}
use wardex_sdk.Assembly.Units.Tables.{
  note, claim, claim_over, append_capped, record_input, record_output,
}
use wardex_sdk.Assembly.Units.Close.{Ending, unset_at, close_locked}
use wardex_sdk.Assembly.Units.Aliases.{
  bind_alias_locked, alias_from, add_alias, remember_link, bind_alias, find, find_from,
}
use wardex_sdk.Assembly.Units.Open.{close_unit, close_roots, close_all}
use wardex_sdk.Assembly.Units.Ambience.{is_of_other}
use wardex_sdk.Assembly.Units.Sound.{IsSound}
use wardex_sdk.Assembly.Units.Paid.{IsPaid}
use wardex_sdk.Assembly.Units.Alike.{alike-IsSound, even-IsPaid, Keeps, kept-IsAlike, kept-IsEven}
use wardex_sdk.Assembly.Units.Evicting.{
  IsGood, IsDone, idle-IsDone, then-IsDone, close_locked-IsDone, note-IsGood, IsAfter-trans,
  noted-IsAfter,
}
use wardex_sdk.Assembly.Units.Binding.{bind_alias_locked-IsRebound, rebound-IsSound, rebound-IsPaid}
use wardex_sdk.Assembly.Units.Rekeying.{Aliased, IsRebound}
use wardex_sdk.Assembly.Units.Entered.{IsWell, flush-IsWell}

pub IsWell-IsGood : (r : Registry) → IsWell r → IsGood r.next_unit r.next_draft [] r
IsWell-IsGood r h = record { sound = h.sound; paid = h.paid; room = omega arith }

pub close_unit-IsWell :
    (task u : ℕ) (e : Ending) (r : Registry)
    → IsWell r
    → u < r.next_unit
    → IsWell (close_unit task u e r)
unfolding close_unit
close_unit-IsWell task u e r h lt =
    let done = close_locked-IsDone r.next_unit r.next_draft [] task u e r (IsWell-IsGood r h) lt in
    flush-IsWell r.next_unit r.next_draft (close_locked task e u r).1 (close_locked task e u r).0
      done.rest.next_unit done.rest.next_draft done.good.sound done.good.paid

module _ (n m task now : ℕ) (reason : Limitation) (owner : Option Text) where
  close_roots-IsDone :
      (roots : List ℕ) (pending : List ℕ) (r : Registry)
      → ((u : ℕ) → includes u roots ≡ true → u < n)
      → IsGood n m pending r
      → IsDone n m pending r (close_roots task reason owner now roots r)
  unfolding close_roots includes
  close_roots-IsDone [] pending r known h = idle-IsDone n m pending r h
  close_roots-IsDone (root ∷ roots) pending r known h =
      let near : root < n = known root (ground arith) in
      let others : (u : ℕ) → includes u roots ≡ true → u < n = λ u held. known u (ground arith) in
      let noted = note reason root r in
      let once = close_locked task (unset_at now) root noted in
      let done =
        close_locked-IsDone n m pending task root (unset_at now) noted
          (note-IsGood n m pending root reason r h) near in
      let first : IsDone n m pending r once = record {
        good = done.good;
        rest = IsAfter-trans n r noted once.0 (noted-IsAfter n m pending root reason r) done.rest;
      } in
      holds_if (IsDone n m pending r) (is_of_other owner (r.units root).owner) _ _
        (λ _. close_roots-IsDone roots pending r others h)
        (λ _.
          then-IsDone n m pending r once (close_roots task reason owner now roots once.0) first
            (close_roots-IsDone roots (pending ++ once.1) once.0 others done.good))

pub close_all-IsWell :
    (task now : ℕ) (reason : Limitation) (owner : Option Text) (r : Registry)
    → IsWell r
    → IsWell (close_all task reason owner now r)
unfolding close_all
close_all-IsWell task now reason owner r h =
    let done =
      close_roots-IsDone r.next_unit r.next_draft task now reason owner r.roots [] r
        (λ u held. (h.sound.rooted u held).0) (IsWell-IsGood r h) in
    let after = close_roots task reason owner now r.roots r in
    flush-IsWell r.next_unit r.next_draft after.1 after.0 done.rest.next_unit done.rest.next_draft
      done.good.sound done.good.paid

-- Changes that the tree and the books do not see.
pub note-IsWell : (u : ℕ) (marker : Limitation) (r : Registry) → IsWell r → IsWell (note marker u r)
note-IsWell u marker r h =
    let n = r.next_unit in
    let m = r.next_draft in
    let s = note marker u r in
    let good = note-IsGood n m [] u marker r (IsWell-IsGood r h) in
    unfold note in record { sound = good.sound; paid = good.paid }

changed-IsWell :
    (u : ℕ) (f : WorkUnit → WorkUnit) (r : Registry)
    → Keeps f
    → IsWell r
    → IsWell (record r { units = change u f r.units })
changed-IsWell u f r kept h =
    let n = r.next_unit in
    let m = r.next_draft in
    let s = record r { units = change u f r.units } in
    record {
      sound = alike-IsSound n r s (kept-IsAlike n m u f kept r) h.sound;
      paid = even-IsPaid n m [] r s (kept-IsEven n m u f kept r) h.paid;
    }

-- A change of a unit that the tree and the books do not see: of its claims, its remembered links and
-- what it recorded.
touched : (WorkUnit → WorkUnit) → WorkUnit → WorkUnit
touched g unit = record unit {
  evicted = (g unit).evicted;
  remembered = (g unit).remembered;
  claims = (g unit).claims;
  input = (g unit).input;
  output = (g unit).output;
  input_recorded = (g unit).input_recorded;
  output_recorded = (g unit).output_recorded;
  input_truncated = (g unit).input_truncated;
  output_truncated = (g unit).output_truncated;
}

touched-Keeps : (g : WorkUnit → WorkUnit) → Keeps (touched g)
unfolding touched
touched-Keeps g = record {
  live = λ unit. refl;
  parent = λ unit. refl;
  children = λ unit. refl;
  alias_keys = λ unit. refl;
  draft = λ unit. refl;
  opened = λ unit. refl;
}

touched-IsWell :
    (u : ℕ) (g : WorkUnit → WorkUnit) (r : Registry)
    → IsWell r
    → IsWell (record r { units = change u (touched g) r.units })
touched-IsWell u g r h = changed-IsWell u (touched g) r (touched-Keeps g) h

module _ (u : ℕ) (r : Registry) (h : IsWell r) where
  pub claim-IsWell : (key : UnitKey) (rank : ℕ) → IsWell (claim u key rank r).0
  unfolding claim touched
  claim-IsWell key rank =
      touched-IsWell u
        (λ unit. record unit {
          claims =
              (claim_over (get key (r.units u).claims) r.max_entries_per_unit key rank
                (r.units u).claims).0;
        })
        r h

  pub record_input-IsWell : (chunk : List ℕ) → IsWell (record_input u chunk r)
  unfolding record_input touched
  record_input-IsWell chunk =
      let after = append_capped (r.units u).input chunk r.max_record_bytes in
      touched-IsWell u
        (λ unit. record unit {
          input_recorded = true;
          input = after.0;
          input_truncated = unit.input_truncated || after.1;
        })
        r h

  pub record_output-IsWell : (chunk : List ℕ) → IsWell (record_output u chunk r)
  unfolding record_output touched
  record_output-IsWell chunk =
      let after = append_capped (r.units u).output chunk r.max_record_bytes in
      touched-IsWell u
        (λ unit. record unit {
          output_recorded = true;
          output = after.0;
          output_truncated = unit.output_truncated || after.1;
        })
        r h

rebound-IsWell :
    (r s : Registry) → IsRebound r s → Aliased r.next_unit s.units s.by_alias → IsWell r → IsWell s
rebound-IsWell r s a index h =
    let n = r.next_unit in
    let m = r.next_draft in
    record {
      sound = subst (λ k. IsSound k [] s) (sym a.next_unit) (rebound-IsSound n r s a index h.sound);
      paid =
          subst (λ k. IsPaid k s.next_draft [] s) (sym a.next_unit)
            (subst (λ k. IsPaid n k [] s) (sym a.next_draft) (rebound-IsPaid n m [] r s a h.paid));
    }

pub bind_locked-IsWell :
    (key : UnitKey) (u : ℕ) (r : Registry)
    → IsWell r
    → u < r.next_unit
    → (r.units u).live ≡ true
    → IsWell (bind_alias_locked key u false r)
unfolding Aliased
bind_locked-IsWell key u r h lt lives =
    let bound = bind_alias_locked-IsRebound r.next_unit key u false r lt lives h.sound.aliased in
    rebound-IsWell r (bind_alias_locked key u false r) bound.0 bound.1 h

pub add_alias-IsWell :
    (key second : UnitKey) (r : Registry) → IsWell r → IsWell (add_alias key second r)
unfolding add_alias alias_from
add_alias-IsWell key second r h = elim (Option-cases (get key r.by_alias)) [
  | inl absent ↦ subst (λ o. IsWell (alias_from o second r)) (sym absent) h
  | inr (u, found) ↦
      let q = h.sound.aliased key u found in
      subst (λ o. IsWell (alias_from o second r)) (sym found)
        (holds_if IsWell (r.units u).live _ r (λ lives. bind_locked-IsWell second u r h q.0 lives)
          (λ _. h))
]

pub bind_alias-IsWell :
    (u : ℕ) (key : UnitKey) (remember : Bool) (r : Registry)
    → IsWell r
    → u < r.next_unit
    → IsWell (bind_alias u key remember r)
unfolding bind_alias remember_link touched
bind_alias-IsWell u key remember r h lt =
    let bound = bind_alias_locked key u false r in
    holds_if IsWell (r.units u).live _ r
      (λ lives.
        let well = bind_locked-IsWell key u r h lt lives in
        holds_if IsWell remember _ bound
          (λ _.
            touched-IsWell u
              (λ unit. record unit { remembered = put key unit.context unit.remembered }) bound
              well)
          (λ _. well))
      (λ _. h)

-- What `find` finds is live, and has the alias; nothing is ever dropped on the way.
pub find_lem : (key : UnitKey) (r : Registry) → IsWell r → find key r ≡ (r, get key r.by_alias)
unfolding find find_from
find_lem key r h = elim (Option-cases (get key r.by_alias)) [
  | inl absent ↦ rw absent refl
  | inr (u, found) ↦ rw found (if_true _ _ _ (h.sound.aliased key u found).1)
]
