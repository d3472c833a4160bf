-- ===== src/Assembly/Units/Pins.antt =====
-- The pin of a driver: a unit stays the ambient one of a task until it is unpinned or closed.
use wardex_sdk.Prelude.{ℕ, Bool, false, Option, none, some, nat_eq, if◌then◌else◌, nat_Eq}
use wardex_sdk.Prelude.Dicts.{get, put, drop_key}
use wardex_sdk.Assembly.Integrity.{correlation_conflict}
use wardex_sdk.Assembly.Units.State.{Carrier, Registry}
use wardex_sdk.Assembly.Units.Tables.{note}

pub record PinToken : Type 0 where
  pub unit : ℕ
  pub owner : ℕ
  pub carrier : Option Carrier

unfoldable pub on_this_task : ℕ → PinToken → Bool
on_this_task task token = elim token.carrier [
  | none ↦ false
  | some carrier ↦ nat_eq token.owner task
]

-- `pin_driver`, by the task `observed`, with the identity of the carrier that it installs.
unfoldable pub pin_driver : ℕ → ℕ → ℕ → ℕ → Registry → Registry × PinToken
unfolding note put
pin_driver u owner_task observed identity r =
    let carrier : Carrier = record { identity = identity; owner = observed } in
    if nat_eq owner_task observed
    then (
      record r { pins = put u carrier r.pins },
      record { unit = u; owner = observed; carrier = some carrier },
    )
    else (note correlation_conflict u r, record { unit = u; owner = observed; carrier = none })

-- `pins.get(unit) is carrier`.
unfoldable pub is_pinned_by : Option Carrier → Carrier → Bool
is_pinned_by none carrier = false
is_pinned_by (some held) carrier = nat_eq held.identity carrier.identity

unfoldable pub unpin_carrier : Option Carrier → ℕ → Registry → Registry
unfolding is_pinned_by get drop_key
unpin_carrier none u r = r
unpin_carrier (some carrier) u r =
    if is_pinned_by (get u r.pins) carrier then record r { pins = drop_key u r.pins } else r

-- The registry, and the token, which has no carrier afterwards.
unfoldable pub unpin : PinToken → Registry → Registry × PinToken
unfolding unpin_carrier
unpin token r = (unpin_carrier token.carrier token.unit r, record token { carrier = none })
