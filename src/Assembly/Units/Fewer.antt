-- ===== src/Assembly/Units/Fewer.antt =====
-- A close leaves no more roots and live units than there were, and an eviction fewer roots.
use mathlib.Core.Path.{subst}
use wardex_sdk.Prelude.{
  ℕ, ◌<◌, ◌≤◌, true, List, [], ◌∷◌, nat_eq, includes, includes-remove, length, remove,
  length-remove-le, length-remove-lt, ◌≡◌, refl, sym, ◌∙◌, arith, if_true, holds_if, Bool-cases,
  inl, inr, nat_eq_iff,
}
use wardex_sdk.Assembly.Integrity.{unit_evicted}
use wardex_sdk.Assembly.Units.State.{Registry}
use wardex_sdk.Assembly.Units.Tables.{note}
use wardex_sdk.Assembly.Units.Close.{
  Ending, unset_at, collected, detach_locked, detach_each, close_locked, mark_evicted,
  evict_root_locked,
}
use wardex_sdk.Assembly.Units.Sound.{IsSound}
use wardex_sdk.Assembly.Units.Gone.{IsSound-IsLoose, collected_mine}
use wardex_sdk.Assembly.Units.Evicting.{IsGood, note-IsGood, mark_evicted-IsGood}

-- No more roots and live units, under the same bounds.
pub record IsFewer (r s : Registry) : Type 0 where
  pub max_units : s.max_units ≡ r.max_units
  pub max_total_units : s.max_total_units ≡ r.max_total_units
  pub roots : length s.roots ≤ length r.roots
  pub live_units : length s.live_units ≤ length r.live_units

pub same-IsFewer : (r : Registry) → IsFewer r r
same-IsFewer r = record {
  max_units = refl;
  max_total_units = refl;
  roots = omega arith;
  live_units = omega arith;
}

pub IsFewer-trans : (r s t : Registry) → IsFewer r s → IsFewer s t → IsFewer r t
IsFewer-trans r s t a b = record {
  max_units = b.max_units ∙ a.max_units;
  max_total_units = b.max_total_units ∙ a.max_total_units;
  roots = omega (arith, a.roots, b.roots);
  live_units = omega (arith, a.live_units, b.live_units);
}

detach_each-IsFewer :
    (task : ℕ) (doomed : List ℕ) (r : Registry) → IsFewer r (detach_each task doomed r)
unfolding detach_each detach_locked
detach_each-IsFewer task [] r = same-IsFewer r
detach_each-IsFewer task (d ∷ doomed) r =
    IsFewer-trans r (detach_locked task d r) _
      (record {
        max_units = refl;
        max_total_units = refl;
        roots = length-remove-le d r.roots;
        live_units = length-remove-le d r.live_units;
      })
      (detach_each-IsFewer task doomed (detach_locked task d r))

pub close_locked-IsFewer :
    (task u : ℕ) (e : Ending) (r : Registry) → IsFewer r (close_locked task e u r).0
unfolding close_locked
close_locked-IsFewer task u e r =
    let c = collected e u r in
    let s = record r { drafts = c.drafts } in
    let less = detach_each-IsFewer task c.doomed s in
    holds_if (λ (a : Registry × List ℕ). IsFewer r a.0) (r.units u).live
      (detach_each task c.doomed s, c.pending) (r, [])
      (λ _. record {
        max_units = less.max_units;
        max_total_units = less.max_total_units;
        roots = less.roots;
        live_units = less.live_units;
      })
      (λ _. same-IsFewer r)

-- A root that is among the doomed leaves the roots.
detach_each_roots :
    (task u : ℕ) (doomed : List ℕ) (r : Registry)
    → includes u doomed ≡ true
    → includes u r.roots ≡ true
    → length (detach_each task doomed r).roots < length r.roots
unfolding detach_each detach_locked includes
detach_each_roots task u [] r h e = absurd (cc)
detach_each_roots task u (d ∷ doomed) r h e = elim (Bool-cases (nat_eq d u)) [
  | inl same ↦
      let here : includes d r.roots ≡ true =
        subst (λ v. includes v r.roots ≡ true) (sym ((nat_eq_iff d u).0 same)) e in
      omega (
        arith,
        length-remove-lt d r.roots here,
        (detach_each-IsFewer task doomed (detach_locked task d r)).roots,
      )
  | inr other ↦
      let later : includes u doomed ≡ true = ground arith in
      let still : includes u (remove d r.roots) ≡ true =
        ground (arith, includes-remove u d r.roots) in
      omega (
        arith,
        detach_each_roots task u doomed (detach_locked task d r) later still,
        length-remove-le d r.roots,
      )
]

close_root_roots :
    (task n u : ℕ) (e : Ending) (r : Registry)
    → IsSound n [] r
    → n ≤ r.next_unit
    → includes u r.roots ≡ true
    → length (close_locked task e u r).0.roots < length r.roots
unfolding close_locked
close_root_roots task n u e r h room root =
    let (near, lives) = h.rooted u root in
    let c = collected e u r in
    let mine = collected_mine task n u e r (IsSound-IsLoose n u r h) near lives room in
    subst (λ (a : Registry × List ℕ). length a.0.roots < length r.roots) (sym (if_true _ _ _ lives))
      (detach_each_roots task u c.doomed (record r { drafts = c.drafts }) mine root)

module _ (n m task now : ℕ) where
  pub evict_root-IsFewer :
      (roots : List ℕ) (r : Registry) → IsFewer r (evict_root_locked task now roots r).0
  unfolding evict_root_locked note mark_evicted
  evict_root-IsFewer [] r = same-IsFewer r
  evict_root-IsFewer (oldest ∷ roots) r =
      let s = note unit_evicted oldest (mark_evicted oldest r) in
      let less = close_locked-IsFewer task oldest (unset_at now) s in
      record {
        max_units = less.max_units;
        max_total_units = less.max_total_units;
        roots = less.roots;
        live_units = less.live_units;
      }

  -- An eviction takes a root away.
  pub evict_root_roots :
      (pending : List ℕ) (oldest : ℕ) (roots : List ℕ) (r : Registry)
      → r.roots ≡ oldest ∷ roots
      → IsGood n m pending r
      → length (evict_root_locked task now r.roots r).0.roots < length r.roots
  unfolding evict_root_locked
  evict_root_roots pending oldest roots r e h =
      let s = note unit_evicted oldest (mark_evicted oldest r) in
      let marked =
        note-IsGood n m pending oldest unit_evicted (mark_evicted oldest r)
          (mark_evicted-IsGood n m pending oldest r h) in
      let first : includes oldest r.roots ≡ true = unfold includes in ground arith in
      subst (λ rs. length (evict_root_locked task now rs r).0.roots < length r.roots) (sym e)
        (close_root_roots task n oldest (unset_at now) s marked.sound marked.room first)
