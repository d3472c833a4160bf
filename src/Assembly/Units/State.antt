-- ===== src/Assembly/Units/State.antt =====
-- The units, the registry's tables, and the objects that they refer to.
use wardex_sdk.Prelude.{
  ℕ, Bool, true, ◌&&◌, Option, List, ◌≡◌, ◌↔◌, HasEq, nat_eq, if◌then◌else◌, arith,
}
use wardex_sdk.Prelude.Text.{Text, text_eq, text_eq_iff}
use wardex_sdk.Types.{SpanContext}
use wardex_sdk.Assembly.Parentage.Resolve.{Parentage}
use wardex_sdk.Assembly.Builder.Draft.{SpanDraft}

pub data UnitKind : Type 0 where
  session agent step call : UnitKind

pub UnitKind-discrete : Discrete UnitKind
UnitKind-discrete = hlevel

pub record UnitKey : Type 0 where
  pub namespace : Text
  pub value : Text

unfoldable pub is_same_key : UnitKey → UnitKey → Bool
is_same_key a b = text_eq a.namespace b.namespace && text_eq a.value b.value

pub is_same_key_iff : (a b : UnitKey) → (is_same_key a b ≡ true) ↔ (a ≡ b)
unfolding is_same_key
is_same_key_iff a b =
    ground (arith, text_eq_iff a.namespace b.namespace, text_eq_iff a.value b.value)

instance abbrev pub unit_key_Eq : HasEq UnitKey
unit_key_Eq = record { same = is_same_key; same_iff = is_same_key_iff }

-- `_OpenDraft`; a draft is named by its place in the store of drafts.
pub record OpenDraft : Type 0 where
  pub draft : ℕ
  pub claim_key : Option UnitKey
  pub rank_at_open : ℕ

-- `Unit`, which keeps the context of its draft, for that never changes. Units are named by their
-- place in the store. Without anything remembered, `remembered` is empty.
pub record WorkUnit : Type 0 where
  pub key : UnitKey
  pub kind : UnitKind
  pub owner : Option Text
  pub draft : ℕ
  pub context : SpanContext
  pub parentage : Parentage
  pub conversation : Option ℕ
  pub tracestate : Option Text
  pub start_ns : ℕ
  pub parent : Option ℕ
  pub live : Bool
  pub evicted : Bool
  pub children : List ℕ
  pub alias_keys : List UnitKey
  pub remembered : List (UnitKey × SpanContext)
  pub claims : List (UnitKey × ℕ)
  pub opened : List OpenDraft
  pub input : List ℕ
  pub output : List ℕ
  pub input_recorded : Bool
  pub output_recorded : Bool
  pub input_truncated : Bool
  pub output_truncated : Bool

-- `ForgottenAliases`: the keys that a unit lost to the bound of its alias table.
pub record Forgotten : Type 0 where
  pub by_key : List (UnitKey × ℕ)
  pub by_unit : List (ℕ × List UnitKey)

-- A carrier that pinned a unit: its identity and the task that installed it.
pub record Carrier : Type 0 where
  pub identity : ℕ
  pub owner : ℕ

-- The registry with its stores of units and drafts, the places handed out so far, the carriers that
-- were retired from afar, and the drafts given to the sink, oldest first.
pub record Registry : Type 0 where
  pub max_units : ℕ
  pub max_entries_per_unit : ℕ
  pub max_link_targets : ℕ
  pub max_record_bytes : ℕ
  pub max_total_units : ℕ
  pub roots : List ℕ
  pub live_units : List ℕ
  pub pins : List (ℕ × Carrier)
  pub by_alias : List (UnitKey × ℕ)
  pub link_memory : List (UnitKey × SpanContext)
  pub forgotten : Forgotten
  pub units : ℕ → WorkUnit
  pub next_unit : ℕ
  pub drafts : ℕ → SpanDraft
  pub next_draft : ℕ
  pub retired : List Carrier
  pub emitted : List ℕ

-- An assignment to what one place of a store holds.
unfoldable pub change {ℓ} : {A : Type ℓ} → ℕ → (A → A) → (ℕ → A) → ℕ → A
change place f store q = if nat_eq q place then f (store q) else store q

abbrev pub change_unit : ℕ → (WorkUnit → WorkUnit) → Registry → Registry
change_unit u f r = record r { units = change u f r.units }
