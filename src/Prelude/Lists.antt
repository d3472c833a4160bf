-- ===== src/Prelude/Lists.antt =====
-- Lists measured by native numbers, and predicates over the items of a list.
use Prim.Native.Nat.{ℕ, zero, suc, ◌+◌, ◌≤◌, ◌<◌, min}
use mathlib.Core.Path.{◌≡◌, refl, ap}
use mathlib.Core.Bool.{Bool, true, false, not, ◌&&◌, ◌||◌}
use mathlib.Core.List.{List, [], ◌∷◌, ◌++◌}
use native.Mathlib.Omega.{arith}
use wardex_sdk.Prelude.Tests.{if◌then◌else◌, nat_eq}

module _ {ℓ} {A : Type ℓ} where
  abbrev pub length : List A → ℕ
  length [] = 0
  length (x ∷ xs) = suc (length xs)

  pub length-append : (xs ys : List A) → length (xs ++ ys) ≡ length xs + length ys
  length-append [] ys = omega arith
  length-append (x ∷ xs) ys = omega (arith, length-append xs ys)

  abbrev pub take : ℕ → List A → List A
  take zero xs = []
  take (suc n) [] = []
  take (suc n) (x ∷ xs) = x ∷ take n xs

  abbrev pub drop : ℕ → List A → List A
  drop zero xs = xs
  drop (suc n) [] = []
  drop (suc n) (x ∷ xs) = drop n xs

  pub length-take : (n : ℕ) (xs : List A) → length (take n xs) ≡ min n (length xs)
  length-take zero xs = omega arith
  length-take (suc n) [] = omega arith
  length-take (suc n) (x ∷ xs) = omega (arith, length-take n xs)

  pub take_short : (n : ℕ) (xs : List A) → length xs ≤ n → take n xs ≡ xs
  take_short zero [] h = refl
  take_short zero (x ∷ xs) h = absurd (omega arith)
  take_short (suc n) [] h = refl
  take_short (suc n) (x ∷ xs) h = ap (λ t. x ∷ t) (take_short n xs (omega arith))

  -- The items that a comprehension keeps.
  abbrev pub filter : (A → Bool) → List A → List A
  filter p [] = []
  filter p (x ∷ xs) = if p x then x ∷ filter p xs else filter p xs

  abbrev pub all : (A → Bool) → List A → Bool
  all p [] = true
  all p (x ∷ xs) = p x && all p xs

-- What holds of each item.
abbrev pub All {ℓ κ} : {A : Type ℓ} → (A → Type κ) → List A → Type κ
All holds [] = Unit
All holds (item ∷ rest) = holds item × All holds rest

module _ {ℓ κ} {A : Type ℓ} (holds : A → Type κ) where
  pub All-append :
      (front back : List A) → All holds front → All holds back → All holds (front ++ back)
  All-append [] back fs bs = bs
  All-append (item ∷ front) back fs bs = (fs.0, All-append front back fs.1 bs)

pub All-take {ℓ κ} :
    {A : Type ℓ} (P : A → Type κ) (n : ℕ) (xs : List A) → All P xs → All P (take n xs)
All-take P zero xs h = tt
All-take P (suc n) [] h = tt
All-take P (suc n) (x ∷ xs) h = (h.0, All-take P n xs h.1)

-- `x in items`, and the items without `x`, for numbers that name objects.
unfoldable pub includes : ℕ → List ℕ → Bool
includes x [] = false
includes x (y ∷ ys) = nat_eq y x || includes x ys

unfoldable pub remove : ℕ → List ℕ → List ℕ
remove x [] = []
remove x (y ∷ ys) = let rest = remove x ys in if nat_eq y x then rest else y ∷ rest

pub includes-remove :
    (x y : ℕ) (ys : List ℕ) → includes x (remove y ys) ≡ (includes x ys && not (nat_eq y x))
unfolding includes remove
includes-remove x y [] = refl
includes-remove x y (z ∷ ys) = ground (arith, includes-remove x y ys)

pub includes-append :
    (x : ℕ) (xs ys : List ℕ) → includes x (xs ++ ys) ≡ (includes x xs || includes x ys)
unfolding includes
includes-append x [] ys = refl
includes-append x (z ∷ xs) ys = ground (arith, includes-append x xs ys)

pub length-remove-le : (x : ℕ) (ys : List ℕ) → length (remove x ys) ≤ length ys
unfolding remove
length-remove-le x [] = omega arith
length-remove-le x (y ∷ ys) = ground (arith, length-remove-le x ys)

pub length-remove-lt :
    (x : ℕ) (ys : List ℕ) → includes x ys ≡ true → length (remove x ys) < length ys
unfolding remove includes
length-remove-lt x [] h = absurd (cc)
length-remove-lt x (y ∷ ys) h = ground (arith, length-remove-lt x ys, length-remove-le x ys)
