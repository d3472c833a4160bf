-- ===== src/Assembly/PatchSet/Tests.antt =====
-- Witnesses of the theorems on patch sets.
use wardex_sdk.Prelude.{ℕ, ◌≡◌, refl, true, false, none, some, List, [], ◌∷◌, nat_eq, if◌then◌else◌}
use wardex_sdk.Assembly.PatchSet.Patches.{Store, Target, PatchSet, set_attr, holds, restore_all}
use wardex_sdk.Assembly.PatchSet.Layers.{
  PatchCall, all_alive, patch_all, fresh_set, restore_all-patch_all,
}
use wardex_sdk.Assembly.PatchSet.Foreign.{IsForeign, store-restore_all}

-- Object 3 does not take an assignment.
abbrev host : ℕ → ℕ → Target
host o n = record {
  may_patch = true;
  readable = true;
  settable = if nat_eq o 3 then false else true;
  weak = true;
}

abbrev base : Store
base o n = if nat_eq n 1 then some 40 else none

-- One attribute twice, one that the object lacks, and one that it does not take.
abbrev calls : List PatchCall
calls = (1, 1, 50) ∷ (1, 1, 51) ∷ (2, 9, 52) ∷ (3, 1, 53) ∷ []

restore_all-patch_all_example :
    (let restored = restore_all host all_alive (patch_all host calls (fresh_set base)) in
      (restored.store ≡ base)
      × (restored.patches ≡ [])
      × (restored.superseded ≡ (patch_all host calls (fresh_set base)).superseded))
restore_all-patch_all_example = restore_all-patch_all host base calls

-- The host has put a patch of its own over that of the set.
abbrev covered : PatchSet
covered = record (fresh_set (set_attr 1 1 (some 60) base)) {
  patches = record { object = 1; name = 1; wrapper = 50; original = some 40; weak = true } ∷ [];
}

covered-IsForeign : IsForeign 1 1 (covered.store 1 1) covered.patches
unfolding holds set_attr
covered-IsForeign = (λ _. refl, tt)

store-restore_all_example : (restore_all host all_alive covered).store 1 1 ≡ covered.store 1 1
store-restore_all_example = store-restore_all host all_alive 1 1 covered covered-IsForeign
