-- ===== src/Hub/Tests.antt =====
-- Witnesses of the theorems on retired scopes.
use wardex_sdk.Prelude.{false, nat_eq, if◌then◌else◌, ◌≡◌, refl, none, arith}
use wardex_sdk.Hub.Retired.{Retirements, next_of, follow, retire}
use wardex_sdk.Hub.Chains.{IsRooted, here, retire-IsRooted}
use wardex_sdk.Hub.TakeDown.{Contexts, read_scope, take_down, read_scope-take_down}

abbrev fresh_table : Retirements
fresh_table s = none

fresh_table-IsRooted : IsRooted 0 fresh_table
unfolding next_of
fresh_table-IsRooted owner s = (0, s, omega arith, here s refl)

-- Scope 2 was opened over scope 1, and scope 3 over scope 2; each was taken down away from home.
abbrev one_down : Retirements
one_down = retire 0 2 1 7 fresh_table

one_down-IsRooted : IsRooted 1 one_down
one_down-IsRooted = retire-IsRooted 0 0 2 1 7 fresh_table fresh_table-IsRooted (omega arith)

retire-IsRooted_example : IsRooted 2 (retire 1 3 2 7 one_down)
retire-IsRooted_example = retire-IsRooted 1 1 3 2 7 one_down one_down-IsRooted (omega arith)

-- Contexts 7 and 8, the first of which still holds scope 3, which it opened over scope 2.
abbrev contexts : Contexts
contexts = record { installed = λ o. if nat_eq o 7 then 3 else 0; retired = one_down }

read_scope-take_down_example :
    read_scope 2 7 (take_down 1 false false 8 7 3 2 contexts).0 ≡ follow 1 7 contexts.retired 2
read_scope-take_down_example =
    read_scope-take_down 1 1 8 7 3 2 false contexts one_down-IsRooted (omega arith) refl refl
