-- ===== src/Assembly/Units/Rooms.antt =====
-- A unit is opened only where there is room, and no call breaks the registry's bounds.
use mathlib.Core.Path.{subst}
use wardex_sdk.Prelude.{
  ℕ, ◌<◌, ◌≤◌, Option, none, some, List, [], ◌∷◌, ◌++◌, nat_Eq, length, length-append, ◌≡◌, refl,
  sym, ◌∙◌, arith, holds_if,
}
use wardex_sdk.Assembly.Integrity.{unit_table_full}
use wardex_sdk.Assembly.Units.State.{Registry, change}
use wardex_sdk.Assembly.Units.Tables.{evict_oldest, note}
use wardex_sdk.Assembly.Units.Close.{unset_at, close_locked, mark_evicted, flush}
use wardex_sdk.Assembly.Units.Aliases.{bind_alias_locked, bind_each}
use wardex_sdk.Assembly.Units.Open.{
  close_evicted_child, join_parent, attach_child, attach_root, attach, evict_while_full,
  evict_while_rooted, enter, open_unit,
}
use wardex_sdk.Assembly.Units.Edges.{Moment, Asked}
use wardex_sdk.Assembly.Units.Pins.{unpin}
use wardex_sdk.Assembly.Units.Evicting.{IsGood, evict_while_full-IsDone}
use wardex_sdk.Assembly.Units.Fewer.{IsFewer, same-IsFewer, IsFewer-trans, close_locked-IsFewer}
use wardex_sdk.Assembly.Units.Bounded.{
  evict_while_full-IsFewer, evict_while_rooted-IsFewer, evict_while_rooted_room, full_room,
}
use wardex_sdk.Assembly.Units.Capacity.{
  same_lists-IsFewer, flush-IsFewer, note-IsFewer, bind_alias_locked-IsFewer, bind_each-IsFewer,
  add_alias-IsFewer, bind_alias-IsFewer,
}
use wardex_sdk.Assembly.Units.Limits.{
  close_unit-IsFewer, close_all-IsFewer, open_span-IsFewer, close_span-IsFewer, find-IsFewer,
  pin_driver-IsFewer, unpin_carrier-IsFewer, claim-IsFewer, record_input-IsFewer,
  record_output-IsFewer,
}
use wardex_sdk.Assembly.Units.Entered.{IsWell}
use wardex_sdk.Assembly.Units.Opens.{begun, begun-IsGood, begun_lists, open_unit_lem}
use wardex_sdk.Assembly.Units.Life.{
  Call, opening, closing, closing_all, span_opening, span_closing, claiming, noting,
  recording_input, recording_output, aliasing, binding, finding, pinning, unpinning, perform,
  IsKnown, IsRun, run, perform-IsWell,
}

-- As many roots and live units as the bounds `a` and `b` allow.
unfoldable pub IsBounded : ℕ → ℕ → Registry → Type 0
IsBounded a b r =
    (r.max_units ≡ a) × (r.max_total_units ≡ b) × (length r.roots ≤ a) × (length r.live_units ≤ b)

fewer-IsBounded : (a b : ℕ) (r s : Registry) → IsFewer r s → IsBounded a b r → IsBounded a b s
unfolding IsBounded
fewer-IsBounded a b r s less h = (
  less.max_units ∙ h.0,
  less.max_total_units ∙ h.1,
  omega (arith, less.roots, h.2),
  omega (arith, less.live_units, h.3),
)

close_evicted_child-IsFewer :
    (task now : ℕ) (lost : Option ℕ) (r : Registry)
    → IsFewer r (close_evicted_child task now lost r).0
unfolding close_evicted_child mark_evicted
close_evicted_child-IsFewer task now none r = same-IsFewer r
close_evicted_child-IsFewer task now (some evicted) r =
    let s = mark_evicted evicted r in
    let t = note unit_table_full evicted s in
    IsFewer-trans r t (close_locked task (unset_at now) evicted t).0
      (IsFewer-trans r s t (same_lists-IsFewer r s refl refl refl refl)
        (note-IsFewer unit_table_full evicted s))
      (close_locked-IsFewer task evicted (unset_at now) t)

join_parent-IsFewer :
    (task now parent u : ℕ) (table : Option ℕ × List ℕ) (r : Registry)
    → IsFewer r (join_parent task now parent u table r).0
unfolding join_parent
join_parent-IsFewer task now parent u table r =
    let s : Registry = record r {
      units = change parent (λ unit. record unit { children = table.1 }) r.units;
    } in
    let closed = close_evicted_child task now table.0 s in
    IsFewer-trans r s (join_parent task now parent u table r).0
      (same_lists-IsFewer r s refl refl refl refl)
      (IsFewer-trans s closed.0 (join_parent task now parent u table r).0
        (close_evicted_child-IsFewer task now table.0 s)
        (same_lists-IsFewer closed.0 (join_parent task now parent u table r).0 refl refl refl refl))

module _ (n m a b : ℕ) (positive : 1 ≤ a) (task now : ℕ) (pending : List ℕ) (r : Registry) where
  -- A unit may be attached where there is room for a live one.
  attach_root-IsBounded :
      (u : ℕ) → IsGood n m pending r → IsBounded a b r → IsBounded a b (attach_root task now u r).0
  unfolding attach_root IsBounded
  attach_root-IsBounded u good h =
      let room = evict_while_rooted (length r.roots) task now r in
      let less = evict_while_rooted-IsFewer n m task now (length r.roots) r in
      let free =
        evict_while_rooted_room n m task now (length r.roots) pending r good
          (omega (arith, h.0, positive)) (omega arith) in
      (
        less.max_units ∙ h.0,
        less.max_total_units ∙ h.1,
        omega (arith, length-append room.0.roots (u ∷ []), free, less.max_units, h.0),
        omega (arith, less.live_units, h.3),
      )

  attach_root_live : (u : ℕ) → length (attach_root task now u r).0.live_units ≤ length r.live_units
  unfolding attach_root
  attach_root_live u = (evict_while_rooted-IsFewer n m task now (length r.roots) r).live_units

  attach-IsBounded :
      (parent : Option ℕ) (u : ℕ)
      → IsGood n m pending r
      → IsBounded a b r
      → (IsBounded a b (attach task now parent u r).0)
        × (length (attach task now parent u r).0.live_units ≤ length r.live_units)
  unfolding attach attach_child
  attach-IsBounded none u good h = (attach_root-IsBounded u good h, attach_root_live u)
  attach-IsBounded (some p) u good h =
      let joined = attach_child task now p u r in
      let less =
        join_parent-IsFewer task now p u (evict_oldest r.max_entries_per_unit (r.units p).children)
          r in
      holds_if
        (λ (s : Registry × List ℕ).
          IsBounded a b s.0 × (length s.0.live_units ≤ length r.live_units))
        (r.units p).live joined (attach_root task now u r)
        (λ _. (fewer-IsBounded a b r joined.0 less h, less.live_units))
        (λ _. (attach_root-IsBounded u good h, attach_root_live u))

module _ (a b : ℕ) (positive : 1 ≤ a) (total_positive : 1 ≤ b) where
  enter-IsBounded :
      (n d : ℕ) (m : Moment) (asked : Asked) (u : ℕ) (r : Registry)
      → IsGood n d [] r
      → IsBounded a b r
      → IsBounded a b (enter m asked u r).0
  unfolding enter IsBounded
  enter-IsBounded n d m asked u r good h =
      let room = evict_while_full (length r.roots) m.task m.now r in
      let less = evict_while_full-IsFewer n d m.task m.now (length r.roots) r in
      let done = evict_while_full-IsDone n d (length r.roots) m.task m.now [] r good in
      let free = full_room n d m.task m.now [] r good (omega (arith, h.1, total_positive)) in
      let attached = attach m.task m.now asked.parent_unit u room.0 in
      let (still, live) =
        attach-IsBounded n d a b positive m.task m.now room.1 room.0 asked.parent_unit u done.good
          (fewer-IsBounded a b r room.0 less h) in
      let entered : Registry = record attached.0 {
        live_units = attached.0.live_units ++ (u ∷ []);
      } in
      let held : IsBounded a b entered = (
        still.0,
        still.1,
        still.2,
        omega (
          arith,
          length-append attached.0.live_units (u ∷ []),
          live,
          free,
          less.max_total_units,
          h.1,
        ),
      ) in
      let bound = bind_alias_locked asked.key u asked.carries_loss entered in
      fewer-IsBounded a b entered (bind_each asked.aliases u bound)
        (IsFewer-trans entered bound (bind_each asked.aliases u bound)
          (bind_alias_locked-IsFewer asked.key u asked.carries_loss entered)
          (bind_each-IsFewer asked.aliases u bound))
        held

  open_unit-IsBounded :
      (m : Moment) (asked : Asked) (r : Registry)
      → IsWell r
      → ((p : ℕ) → asked.parent_unit ≡ some p → p < r.next_unit)
      → IsBounded a b r
      → IsBounded a b (open_unit m asked r).0
  open_unit-IsBounded m asked r well known h =
      let s = begun m asked r well known in
      let (units, total, roots, live) = begun_lists m asked r well known in
      let entered = enter m asked r.next_unit s in
      let good = begun-IsGood m asked r well known in
      subst (IsBounded a b) (sym (open_unit_lem m asked r well known)) (
        fewer-IsBounded a b entered.0 (flush entered.1 entered.0)
          (flush-IsFewer entered.1 entered.0)
          (enter-IsBounded r.next_unit r.next_draft m asked r.next_unit s good
            (fewer-IsBounded a b r s (same_lists-IsFewer r s units total roots live) h)))

  -- Every call keeps the bounds, and all calls but an opening leave no more than there was.
  perform-IsBounded :
      (call : Call) (r : Registry)
      → IsKnown call r
      → IsWell r
      → IsBounded a b r
      → IsBounded a b (perform call r)
  unfolding perform IsKnown unpin
  perform-IsBounded (opening m asked) r k w = open_unit-IsBounded m asked r w k
  perform-IsBounded (closing task u e) r k w =
      fewer-IsBounded a b r _ (close_unit-IsFewer task u e r)
  perform-IsBounded (closing_all task reason owner now) r k w =
      fewer-IsBounded a b r _ (close_all-IsFewer task reason owner now r)
  perform-IsBounded (span_opening generated u asked now) r k w =
      fewer-IsBounded a b r _ (open_span-IsFewer generated u asked now r)
  perform-IsBounded (span_closing u draft e) r k w =
      fewer-IsBounded a b r _ (close_span-IsFewer u draft e r)
  perform-IsBounded (claiming u key rank) r k w =
      fewer-IsBounded a b r _ (claim-IsFewer u key rank r)
  perform-IsBounded (noting marker u) r k w = fewer-IsBounded a b r _ (note-IsFewer marker u r)
  perform-IsBounded (recording_input u chunk) r k w =
      fewer-IsBounded a b r _ (record_input-IsFewer u chunk r)
  perform-IsBounded (recording_output u chunk) r k w =
      fewer-IsBounded a b r _ (record_output-IsFewer u chunk r)
  perform-IsBounded (aliasing key second) r k w =
      fewer-IsBounded a b r _ (add_alias-IsFewer key second r)
  perform-IsBounded (binding u key remember) r k w =
      fewer-IsBounded a b r _ (bind_alias-IsFewer u key remember r)
  perform-IsBounded (finding key) r k w = fewer-IsBounded a b r _ (find-IsFewer key r)
  perform-IsBounded (pinning u owner_task observed identity) r k w =
      fewer-IsBounded a b r _ (pin_driver-IsFewer u owner_task observed identity r)
  perform-IsBounded (unpinning token) r k w =
      fewer-IsBounded a b r _ (unpin_carrier-IsFewer token.carrier token.unit r)

  pub run-IsBounded :
      (calls : List Call) (r : Registry)
      → IsRun calls r
      → IsWell r
      → IsBounded a b r
      → IsBounded a b (run calls r)
  unfolding run IsRun
  run-IsBounded [] r k w h = h
  run-IsBounded (call ∷ calls) r k w h =
      run-IsBounded calls (perform call r) k.1 (perform-IsWell call r k.0 w)
        (perform-IsBounded call r k.0 w h)
