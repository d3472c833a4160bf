-- ===== src/Assembly/Units/Open.antt =====
-- Opening a unit, closing one or all of them, and the pin of a driver.
use wardex_sdk.Prelude.{
  ℕ, zero, suc, Bool, true, false, ◌||◌, Option, none, some, List, [], ◌∷◌, ◌++◌, ltb, length,
  nat_Eq, if◌then◌else◌,
}
use wardex_sdk.Prelude.Text.{Text}
use wardex_sdk.Assembly.Integrity.{Limitation, unit_table_full}
use wardex_sdk.Assembly.Builder.Draft.{new_draft}
use wardex_sdk.Spans.Enums.{CaptureSource}
use wardex_sdk.Assembly.Units.State.{unit_key_Eq, WorkUnit, Registry, change_unit, change}
use wardex_sdk.Assembly.Units.Forgotten.{no_forgotten}
use wardex_sdk.Assembly.Units.Tables.{evict_oldest, note}
use wardex_sdk.Assembly.Units.Close.{
  Ending, unset_at, close_locked, mark_evicted, evict_root_locked, flush,
}
use wardex_sdk.Assembly.Units.Aliases.{bind_alias_locked, bind_each}
use wardex_sdk.Assembly.Units.Ambience.{is_of_other}
use wardex_sdk.Assembly.Units.Spans.{add_draft}
use wardex_sdk.Assembly.Units.Edges.{Asked, Moment, settle_edge, state_conversation, new_unit}

abbrev pub has_none : List ℕ → Bool
has_none [] = true
has_none (root ∷ roots) = false

-- `while len(live_units) >= max_total_units and roots`, where each round closes a root.
unfoldable pub evict_while_full : ℕ → ℕ → ℕ → Registry → Registry × List ℕ
unfolding evict_root_locked
evict_while_full zero task now r = (r, [])
evict_while_full (suc fuel) task now r =
    let once = evict_root_locked task now r.roots r in
    let rest = evict_while_full fuel task now once.0 in
    if ltb (length r.live_units) r.max_total_units || has_none r.roots
    then (r, [])
    else (rest.0, once.1 ++ rest.1)

-- `while len(roots) >= max_units`.
unfoldable pub evict_while_rooted : ℕ → ℕ → ℕ → Registry → Registry × List ℕ
unfolding evict_root_locked
evict_while_rooted zero task now r = (r, [])
evict_while_rooted (suc fuel) task now r =
    let once = evict_root_locked task now r.roots r in
    let rest = evict_while_rooted fuel task now once.0 in
    if ltb (length r.roots) r.max_units then (r, []) else (rest.0, once.1 ++ rest.1)

-- The child that a full table of children loses is closed.
unfoldable pub close_evicted_child : ℕ → ℕ → Option ℕ → Registry → Registry × List ℕ
unfolding mark_evicted note close_locked
close_evicted_child task now none r = (r, [])
close_evicted_child task now (some evicted) r =
    close_locked task (unset_at now) evicted (note unit_table_full evicted (mark_evicted evicted r))

-- A live parent takes a child, once its table has lost a child or none.
unfoldable pub join_parent : ℕ → ℕ → ℕ → ℕ → Option ℕ × List ℕ → Registry → Registry × List ℕ
unfolding close_evicted_child change
join_parent task now parent u table r =
    let closed =
      close_evicted_child task now table.0
        (change_unit parent (λ unit. record unit { children = table.1 }) r) in
    (
      change_unit parent (λ unit. record unit { children = unit.children ++ (u ∷ []) }) closed.0,
      closed.1,
    )

unfoldable pub attach_child : ℕ → ℕ → ℕ → ℕ → Registry → Registry × List ℕ
unfolding evict_oldest join_parent
attach_child task now parent u r =
    join_parent task now parent u (evict_oldest r.max_entries_per_unit (r.units parent).children) r

unfoldable pub attach_root : ℕ → ℕ → ℕ → Registry → Registry × List ℕ
unfolding evict_while_rooted
attach_root task now u r =
    let room = evict_while_rooted (length r.roots) task now r in
    (record room.0 { roots = room.0.roots ++ (u ∷ []) }, room.1)

-- Under a parent that is live, or else at the top.
unfoldable pub attach : ℕ → ℕ → Option ℕ → ℕ → Registry → Registry × List ℕ
unfolding attach_child attach_root
attach task now none u r = attach_root task now u r
attach task now (some parent) u r =
    if (r.units parent).live then attach_child task now parent u r else attach_root task now u r

-- A new unit takes the next place of the store.
unfoldable pub add_unit : WorkUnit → Registry → Registry
unfolding change
add_unit unit r = record r {
  units = change r.next_unit (λ old. unit) r.units;
  next_unit = suc r.next_unit;
}

-- The part of `open` under the lock: room is made, the unit is attached and its aliases are bound.
unfoldable pub enter : Moment → Asked → ℕ → Registry → Registry × List ℕ
unfolding evict_while_full attach bind_alias_locked bind_each
enter m asked u r =
    let room = evict_while_full (length r.roots) m.task m.now r in
    let attached = attach m.task m.now asked.parent_unit u room.0 in
    let entered = record attached.0 { live_units = attached.0.live_units ++ (u ∷ []) } in
    (
      bind_each asked.aliases u (bind_alias_locked asked.key u asked.carries_loss entered),
      room.1 ++ attached.1,
    )

-- The registry and the new unit.
unfoldable pub open_unit : Moment → Asked → Registry → Registry × ℕ
unfolding settle_edge new_draft state_conversation new_unit add_draft add_unit enter flush
open_unit m asked r =
    let e = settle_edge asked.parent_unit m asked r in
    let d = state_conversation asked.conversation (
      new_draft m.generated.span_id e.parentage (some asked.intent) asked.subject
        CaptureSource.adapter m.now none) in
    let u = r.next_unit in
    let begun = add_unit (new_unit r.next_draft d e m asked) (add_draft d r) in
    let entered = enter m asked u begun in (flush entered.1 entered.0, u)

unfoldable pub close_unit : ℕ → ℕ → Ending → Registry → Registry
unfolding close_locked flush
close_unit task u e r = let closed = close_locked task e u r in flush closed.1 closed.0

-- The roots of an owner, or all of them, one after the other.
unfoldable pub close_roots :
    ℕ → Limitation → Option Text → ℕ → List ℕ → Registry → Registry × List ℕ
unfolding is_of_other note close_locked
close_roots task reason owner now [] r = (r, [])
close_roots task reason owner now (root ∷ roots) r =
    let closed = close_locked task (unset_at now) root (note reason root r) in
    let rest = close_roots task reason owner now roots closed.0 in
    if is_of_other owner (r.units root).owner
    then close_roots task reason owner now roots r
    else (rest.0, closed.1 ++ rest.1)

unfoldable pub close_all : ℕ → Limitation → Option Text → ℕ → Registry → Registry
unfolding close_roots flush
close_all task reason owner now r =
    let closed = close_roots task reason owner now r.roots r in flush closed.1 closed.0

unfoldable pub at_fork_reinit : Registry → Registry
at_fork_reinit r = record r {
  roots = [];
  live_units = [];
  pins = [];
  by_alias = [];
  link_memory = [];
  forgotten = no_forgotten;
}
