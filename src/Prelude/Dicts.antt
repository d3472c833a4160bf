-- ===== src/Prelude/Dicts.antt =====
-- A Python `dict` as the list of its items, in insertion order.
use mathlib.Core.Path.{◌≡◌, refl, sym, ◌∙◌, ap}
use mathlib.Core.Bool.{true, false}
use mathlib.Core.Logic.{inl, inr}
use mathlib.Core.Option.{Option, none, some}
use mathlib.Core.List.{List, [], ◌∷◌}
use Prim.Native.Nat.{◌+◌, ◌≤◌}
use native.Mathlib.Omega.{arith}
use wardex_sdk.Prelude.Tests.{if◌then◌else◌, HasEq, ◌==◌, Bool-cases}
use wardex_sdk.Prelude.Lists.{length}

-- `a if a is not None else b`.
abbrev pub or_else {ℓ} : {A : Type ℓ} → Option A → Option A → Option A
or_else none b = b
or_else (some a) b = some a

module _ {ℓ} {K : Type ℓ} ⦃keys : HasEq K⦄ where
  flip_false : (j k : K) → (j == k) ≡ false → (k == j) ≡ false
  flip_false j k e = ground (arith, keys.same_iff j k, keys.same_iff k j, e)

module _ {ℓ κ} {K : Type ℓ} {V : Type κ} ⦃keys : HasEq K⦄ where
  unfoldable pub get : K → List (K × V) → Option V
  get k [] = none
  get k ((j, v) ∷ d) = if j == k then some v else get k d

  -- `d[k] = v`.
  unfoldable pub put : K → V → List (K × V) → List (K × V)
  put k v [] = (k, v) ∷ []
  put k v ((j, w) ∷ d) = if j == k then (j, v) ∷ d else (j, w) ∷ put k v d

  -- `d.update(items)`.
  unfoldable pub update : List (K × V) → List (K × V) → List (K × V)
  unfolding put
  update [] d = d
  update ((k, v) ∷ items) d = update items (put k v d)

  -- No key twice.
  unfoldable pub IsDict : List (K × V) → Type κ
  IsDict [] = Unit
  IsDict ((k, v) ∷ d) = (get k d ≡ none) × IsDict d

  pub get-put :
      (j k : K) (v : V) (d : List (K × V))
      → get j (put k v d) ≡ (if k == j then some v else get j d)
  unfolding get put
  get-put j k v [] = refl
  get-put j k v ((i, w) ∷ d) =
      ground (arith, get-put j k v d, keys.same_iff i k, keys.same_iff i j, keys.same_iff k j)

  get-put_here : (j k : K) (v : V) (d : List (K × V)) → (k == j) ≡ true → get j (put k v d) ≡ some v
  get-put_here j k v d e = ground (arith, get-put j k v d, e)

  get-put_else :
      (j k : K) (v : V) (d : List (K × V)) → (k == j) ≡ false → get j (put k v d) ≡ get j d
  get-put_else j k v d e = ground (arith, get-put j k v d, e)

  get_same : (j k : K) (d : List (K × V)) → (k == j) ≡ true → get k d ≡ none → get j d ≡ none
  get_same j k d e h = ap (λ i. get i d) (sym ((keys.same_iff k j).0 e)) ∙ h

  -- An update has the items' value of a key, or else the old one.
  pub get-update :
      (j : K) (items d : List (K × V))
      → IsDict items
      → get j (update items d) ≡ or_else (get j items) (get j d)
  unfolding get update IsDict
  get-update j [] d h = refl
  get-update j ((k, v) ∷ items) d h = elim (Bool-cases (k == j)) [
    | inl e ↦ rw e (
        get-update j items (put k v d) h.1
        ∙ ap (λ o. or_else o (get j (put k v d))) (get_same j k items e h.0)
        ∙ get-put_here j k v d e)
    | inr e ↦
        rw e
          (get-update j items (put k v d) h.1 ∙ ap (or_else (get j items)) (get-put_else j k v d e))
  ]

  put-IsDict : (k : K) (v : V) (d : List (K × V)) → IsDict d → IsDict (put k v d)
  unfolding put IsDict
  put-IsDict k v [] h = (unfold get in refl, tt)
  put-IsDict k v ((j, w) ∷ d) h = elim (Bool-cases (j == k)) [
    | inl e ↦ rw e h
    | inr e ↦ rw e (get-put_else j k v d (flip_false j k e) ∙ h.0, put-IsDict k v d h.1)
  ]

  pub update-IsDict : (items d : List (K × V)) → IsDict d → IsDict (update items d)
  unfolding update
  update-IsDict [] d h = h
  update-IsDict ((k, v) ∷ items) d h = update-IsDict items (put k v d) (put-IsDict k v d h)

  -- `d.pop(k, None)`.
  unfoldable pub drop_key : K → List (K × V) → List (K × V)
  drop_key k [] = []
  drop_key k ((j, v) ∷ d) = let rest = drop_key k d in if j == k then rest else (j, v) ∷ rest

  pub get-drop_key :
      (j k : K) (d : List (K × V)) → get j (drop_key k d) ≡ (if k == j then none else get j d)
  unfolding get drop_key
  get-drop_key j k [] = ground arith
  get-drop_key j k ((i, w) ∷ d) =
      ground (arith, get-drop_key j k d, keys.same_iff i k, keys.same_iff i j, keys.same_iff k j)

  pub length-drop_key-le : (k : K) (d : List (K × V)) → length (drop_key k d) ≤ length d
  unfolding drop_key
  length-drop_key-le k [] = omega arith
  length-drop_key-le k ((i, w) ∷ d) = ground (arith, length-drop_key-le k d)

  pub length-put :
      (k : K) (v : V) (d : List (K × V))
      → length (put k v d) ≡ length d + elim (get k d) [ none ↦ 1 | some w ↦ 0 ]
  unfolding put get
  length-put k v [] = refl
  length-put k v ((i, w) ∷ d) = ground (arith, length-put k v d)
