-- ===== src/Assembly/Units/Capacity.antt =====
-- No call leaves more roots or live units than the registry's bounds.
use wardex_sdk.Prelude.{
  ℕ, Bool, false, Option, none, some, List, [], ◌∷◌, ◌++◌, length, ◌≡◌, refl, ap, arith, holds_if,
  if◌then◌else◌,
}
use wardex_sdk.Prelude.Dicts.{get, put, drop_key}
use wardex_sdk.Assembly.Integrity.{Limitation}
use wardex_sdk.Assembly.Units.State.{UnitKey, unit_key_Eq, Registry, change}
use wardex_sdk.Assembly.Units.Forgotten.{rebound, forget, is_owned_by}
use wardex_sdk.Assembly.Units.Tables.{is_key_in, evict_oldest, note}
use wardex_sdk.Assembly.Units.Close.{flush}
use wardex_sdk.Assembly.Units.Aliases.{
  forget_link, lose_alias, add_alias_key, bind_alias_locked, bind_each, alias_from, add_alias,
  remember_link, bind_alias,
}
use wardex_sdk.Assembly.Units.Entered.{flush_frame}
use wardex_sdk.Assembly.Units.Fewer.{IsFewer, same-IsFewer, IsFewer-trans}

-- A change of other fields only.
pub same_lists-IsFewer :
    (r s : Registry)
    → s.max_units ≡ r.max_units
    → s.max_total_units ≡ r.max_total_units
    → s.roots ≡ r.roots
    → s.live_units ≡ r.live_units
    → IsFewer r s
same_lists-IsFewer r s a b roots live_units = record {
  max_units = a;
  max_total_units = b;
  roots = omega (arith, ap length roots);
  live_units = omega (arith, ap length live_units);
}

pub flush-IsFewer : (pending : List ℕ) (r : Registry) → IsFewer r (flush pending r)
flush-IsFewer pending r =
    let (store, given, frame) = flush_frame pending r in
    same_lists-IsFewer r (flush pending r) (ap (λ s. s.max_units) frame)
      (ap (λ s. s.max_total_units) frame) (ap (λ s. s.roots) frame) (ap (λ s. s.live_units) frame)

pub note-IsFewer : (marker : Limitation) (u : ℕ) (r : Registry) → IsFewer r (note marker u r)
unfolding note
note-IsFewer marker u r = same_lists-IsFewer r _ refl refl refl refl

-- Aliases.
lose_alias-IsFewer :
    (lost : Option UnitKey) (u : ℕ) (r : Registry) → IsFewer r (lose_alias lost u r)
unfolding lose_alias
lose_alias-IsFewer none u r = same-IsFewer r
lose_alias-IsFewer (some evicted) u r =
    let s : Registry = record r {
      by_alias = drop_key evicted r.by_alias;
      forgotten = forget r.max_entries_per_unit evicted u r.forgotten;
    } in
    holds_if (IsFewer r) (is_owned_by (get evicted r.by_alias) u) s r
      (λ _. same_lists-IsFewer r s refl refl refl refl) (λ _. same-IsFewer r)

add_alias_key-IsFewer : (key : UnitKey) (u : ℕ) (r : Registry) → IsFewer r (add_alias_key key u r)
unfolding add_alias_key
add_alias_key-IsFewer key u r =
    let table = evict_oldest r.max_entries_per_unit (r.units u).alias_keys in
    let s : Registry = record r {
      units =
          change u
            (λ unit. record unit {
              alias_keys = table.1 ++ (key ∷ []);
              remembered = forget_link table.0 unit.remembered;
            })
            r.units;
    } in
    IsFewer-trans r s (lose_alias table.0 u s) (same_lists-IsFewer r s refl refl refl refl)
      (lose_alias-IsFewer table.0 u s)

reindexed-IsFewer :
    (r s t : Registry)
    → t.max_units ≡ s.max_units
    → t.max_total_units ≡ s.max_total_units
    → t.roots ≡ s.roots
    → t.live_units ≡ s.live_units
    → IsFewer r s
    → IsFewer r t
reindexed-IsFewer r s t a b c d h = IsFewer-trans r s t h (same_lists-IsFewer s t a b c d)

pub bind_alias_locked-IsFewer :
    (key : UnitKey) (u : ℕ) (carries_loss : Bool) (r : Registry)
    → IsFewer r (bind_alias_locked key u carries_loss r)
unfolding bind_alias_locked
bind_alias_locked-IsFewer key u carries_loss r =
    let s = record r { forgotten = rebound key u carries_loss r.forgotten } in
    let kept = if is_key_in key (r.units u).alias_keys then s else add_alias_key key u s in
    let same = same_lists-IsFewer r s refl refl refl refl in
    reindexed-IsFewer r kept
      (record kept {
        by_alias = put key u kept.by_alias;
        link_memory = drop_key key kept.link_memory;
      })
      refl refl refl refl
      (holds_if (IsFewer r) (is_key_in key (r.units u).alias_keys) s (add_alias_key key u s)
        (λ _. same)
        (λ _. IsFewer-trans r s (add_alias_key key u s) same (add_alias_key-IsFewer key u s)))

pub bind_each-IsFewer :
    (keys : List UnitKey) (u : ℕ) (r : Registry) → IsFewer r (bind_each keys u r)
unfolding bind_each
bind_each-IsFewer [] u r = same-IsFewer r
bind_each-IsFewer (key ∷ keys) u r =
    let s = bind_alias_locked key u false r in
    IsFewer-trans r s (bind_each keys u s) (bind_alias_locked-IsFewer key u false r)
      (bind_each-IsFewer keys u s)

alias_from-IsFewer :
    (found : Option ℕ) (second : UnitKey) (r : Registry) → IsFewer r (alias_from found second r)
unfolding alias_from
alias_from-IsFewer none second r = same-IsFewer r
alias_from-IsFewer (some u) second r =
    holds_if (IsFewer r) (r.units u).live (bind_alias_locked second u false r) r
      (λ _. bind_alias_locked-IsFewer second u false r) (λ _. same-IsFewer r)

pub add_alias-IsFewer : (key second : UnitKey) (r : Registry) → IsFewer r (add_alias key second r)
unfolding add_alias
add_alias-IsFewer key second r = alias_from-IsFewer (get key r.by_alias) second r

pub bind_alias-IsFewer :
    (u : ℕ) (key : UnitKey) (remember : Bool) (r : Registry)
    → IsFewer r (bind_alias u key remember r)
unfolding bind_alias remember_link
bind_alias-IsFewer u key remember r =
    let bound = bind_alias_locked key u false r in
    let h = bind_alias_locked-IsFewer key u false r in
    let linked = remember_link key u bound in
    holds_if (IsFewer r) (r.units u).live (if remember then linked else bound) r
      (λ _.
        holds_if (IsFewer r) remember linked bound
          (λ _. reindexed-IsFewer r bound linked refl refl refl refl h) (λ _. h))
      (λ _. same-IsFewer r)
