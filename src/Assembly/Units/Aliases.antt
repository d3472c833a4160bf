-- ===== src/Assembly/Units/Aliases.antt =====
-- The aliases by which the wire finds a unit.
use wardex_sdk.Prelude.{ℕ, Bool, false, Option, none, some, List, [], ◌∷◌, ◌++◌, if◌then◌else◌}
use wardex_sdk.Prelude.Dicts.{get, put, drop_key}
use wardex_sdk.Types.{SpanContext}
use wardex_sdk.Assembly.Units.State.{UnitKey, unit_key_Eq, Registry, change_unit, change}
use wardex_sdk.Assembly.Units.Forgotten.{is_owned_by, forget, rebound}
use wardex_sdk.Assembly.Units.Tables.{is_key_in, evict_oldest}

-- `_evict_alias` takes the oldest key with what was remembered under it.
unfoldable pub forget_link :
    Option UnitKey → List (UnitKey × SpanContext) → List (UnitKey × SpanContext)
unfolding drop_key
forget_link none remembered = remembered
forget_link (some popped) remembered = drop_key popped remembered

-- The rest of an eviction: the index forgets the key where it named the unit, and the registry
-- keeps it among the forgotten.
unfoldable pub lose_alias : Option UnitKey → ℕ → Registry → Registry
unfolding is_owned_by get drop_key forget
lose_alias none u r = r
lose_alias (some evicted) u r =
    if is_owned_by (get evicted r.by_alias) u
    then record r {
      by_alias = drop_key evicted r.by_alias;
      forgotten = forget r.max_entries_per_unit evicted u r.forgotten;
    }
    else r

unfoldable pub add_alias_key : UnitKey → ℕ → Registry → Registry
unfolding evict_oldest forget_link lose_alias change
add_alias_key key u r =
    let table = evict_oldest r.max_entries_per_unit (r.units u).alias_keys in
    lose_alias table.0 u (
      change_unit u
        (λ unit. record unit {
          alias_keys = table.1 ++ (key ∷ []);
          remembered = forget_link table.0 unit.remembered;
        })
        r)

unfoldable pub bind_alias_locked : UnitKey → ℕ → Bool → Registry → Registry
unfolding rebound is_key_in add_alias_key put drop_key
bind_alias_locked key u carries_loss r =
    let told = record r { forgotten = rebound key u carries_loss r.forgotten } in
    let kept = if is_key_in key (r.units u).alias_keys then told else add_alias_key key u told in
    record kept { by_alias = put key u kept.by_alias; link_memory = drop_key key kept.link_memory }

unfoldable pub bind_each : List UnitKey → ℕ → Registry → Registry
unfolding bind_alias_locked
bind_each [] u r = r
bind_each (key ∷ keys) u r = bind_each keys u (bind_alias_locked key u false r)

-- `alias`: a second key for the unit that a first one finds.
unfoldable pub alias_from : Option ℕ → UnitKey → Registry → Registry
unfolding bind_alias_locked
alias_from none second r = r
alias_from (some u) second r = if (r.units u).live then bind_alias_locked second u false r else r

unfoldable pub add_alias : UnitKey → UnitKey → Registry → Registry
unfolding alias_from get
add_alias key second r = alias_from (get key r.by_alias) second r

unfoldable pub remember_link : UnitKey → ℕ → Registry → Registry
unfolding put change
remember_link key u r =
    change_unit u (λ unit. record unit { remembered = put key unit.context unit.remembered }) r

unfoldable pub bind_alias : ℕ → UnitKey → Bool → Registry → Registry
unfolding bind_alias_locked remember_link
bind_alias u key remember r =
    let bound = bind_alias_locked key u false r in
    if (r.units u).live then (if remember then remember_link key u bound else bound) else r

unfoldable pub find_from : Option ℕ → UnitKey → Registry → Registry × Option ℕ
unfolding drop_key
find_from none key r = (r, none)
find_from (some u) key r =
    if (r.units u).live
    then (r, some u)
    else (record r { by_alias = drop_key key r.by_alias }, none)

-- The unit of an alias; the key of one that is not live goes.
unfoldable pub find : UnitKey → Registry → Registry × Option ℕ
unfolding find_from get
find key r = find_from (get key r.by_alias) key r

unfoldable pub link_from : Option ℕ → UnitKey → Registry → Option SpanContext
unfolding get
link_from none selector r = get selector r.link_memory
link_from (some u) selector r =
    if (r.units u).live then some (r.units u).context else get selector r.link_memory

unfoldable pub resolve_link_target : UnitKey → Registry → Option SpanContext
unfolding link_from get
resolve_link_target selector r = link_from (get selector r.by_alias) selector r
