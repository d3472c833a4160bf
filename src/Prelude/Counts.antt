-- ===== src/Prelude/Counts.antt =====
-- Counting tables: a Python `dict` from keys to non-negative integers, in insertion order.
use Prim.Native.Nat.{ℕ, ◌+◌}
use mathlib.Core.Path.{◌≡◌}
use mathlib.Core.Bool.{Bool, true, false}
use mathlib.Core.List.{List, [], ◌∷◌}
use native.Mathlib.Omega.{arith}
use wardex_sdk.Prelude.Tests.{if◌then◌else◌, HasEq, ◌==◌}

abbrev pub Table {ℓ} : Type ℓ → Type ℓ
Table K = List (K × ℕ)

module _ {ℓ} {K : Type ℓ} ⦃keys : HasEq K⦄ where
  unfoldable pub has : K → Table K → Bool
  has k [] = false
  has k ((j, n) ∷ t) = if j == k then true else has k t

  -- `table[key] = table.get(key, 0) + n`.
  unfoldable pub add : K → ℕ → Table K → Table K
  add k n [] = (k, n) ∷ []
  add k n ((j, m) ∷ t) = if j == k then (j, m + n) ∷ t else (j, m) ∷ add k n t

  -- What a table, or a list of pairs, says of a key: its counts, added up.
  unfoldable pub tally : K → List (K × ℕ) → ℕ
  tally k [] = 0
  tally k ((j, n) ∷ t) = (if j == k then n else 0) + tally k t

  -- What one addition changes, at every key.
  pub tally-add :
      (j k : K) (n : ℕ) (t : Table K) → tally j (add k n t) ≡ tally j t + (if k == j then n else 0)
  unfolding tally add
  tally-add j k n [] = ground arith
  tally-add j k n ((i, m) ∷ t) =
      ground (arith, tally-add j k n t, keys.same_iff i k, keys.same_iff i j, keys.same_iff k j)

  -- `for key, n in pairs: table[key] = table.get(key, 0) + n`.
  unfoldable pub add_all : List (K × ℕ) → Table K → Table K
  add_all [] t = t
  add_all ((k, n) ∷ r) t = add_all r (add k n t)

  pub tally-add_all :
      (j : K) (r : List (K × ℕ)) (t : Table K) → tally j (add_all r t) ≡ tally j t + tally j r
  unfolding add_all tally
  tally-add_all j [] t = omega arith
  tally-add_all j ((k, n) ∷ r) t = omega (arith, tally-add_all j r (add k n t), tally-add j k n t)
