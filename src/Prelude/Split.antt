-- ===== src/Prelude/Split.antt =====
-- `str.split` and `str.join` at one separator character, and the laws between them.
use Prim.Native.Nat.{ℕ, zero, suc}
use mathlib.Core.Path.{◌≡◌, refl, ap}
use mathlib.Core.Bool.{false}
use mathlib.Core.Logic.{◌≢◌, inl, inr}
use mathlib.Core.List.{List, [], ◌∷◌, ◌++◌, append-nil, append_assoc}
use native.Mathlib.Omega.{arith}
use wardex_sdk.Prelude.Tests.{if◌then◌else◌, nat_eq, Bool-cases}
use wardex_sdk.Prelude.Lists.{All, take}
use wardex_sdk.Prelude.Text.{Text, Lacks}

pub cons_head : ℕ → List Text → List Text
cons_head c [] = (c ∷ []) ∷ []
cons_head c (m ∷ ms) = (c ∷ m) ∷ ms

-- `s.split(sep)` at one character: the parts between the separators, one part at least.
unfoldable pub split : ℕ → Text → List Text
unfolding cons_head
split sep [] = [] ∷ []
split sep (c ∷ s) =
    let parts = split sep s in if nat_eq c sep then [] ∷ parts else cons_head c parts

-- `sep.join(parts)`.
unfoldable pub join : ℕ → List Text → Text
join sep [] = []
join sep (m ∷ []) = m
join sep (m ∷ n ∷ ms) = m ++ sep ∷ join sep (n ∷ ms)

pub cons_head-ne-nil : (c : ℕ) (ms : List Text) → cons_head c ms ≢ []
unfolding cons_head
cons_head-ne-nil c [] h = cc
cons_head-ne-nil c (m ∷ ms) h = cc

pub split-ne-nil : (sep : ℕ) (s : Text) → split sep s ≢ []
unfolding split
split-ne-nil sep [] h = cc
split-ne-nil sep (c ∷ s) h = ground (arith, cons_head-ne-nil c (split sep s))

join-nil_cons : (sep : ℕ) (ms : List Text) → ms ≢ [] → join sep ([] ∷ ms) ≡ sep ∷ join sep ms
unfolding join
join-nil_cons sep [] h = absurd (h refl)
join-nil_cons sep (m ∷ ms) h = refl

join-cons_head : (sep c : ℕ) (ms : List Text) → join sep (cons_head c ms) ≡ c ∷ join sep ms
unfolding join cons_head
join-cons_head sep c [] = refl
join-cons_head sep c (m ∷ []) = refl
join-cons_head sep c (m ∷ n ∷ ms) = refl

-- Joining undoes splitting.
pub join-split : (sep : ℕ) (s : Text) → join sep (split sep s) ≡ s
unfolding split
join-split sep [] = unfold join in refl
join-split sep (c ∷ s) = elim (Bool-cases (nat_eq c sep)) [
  | inl e ↦
      rw (e, join-nil_cons sep (split sep s) (split-ne-nil sep s), join-split sep s) (ground arith)
  | inr e ↦ rw (e, join-cons_head sep c (split sep s)) (ap (λ t. c ∷ t) (join-split sep s))
]

cons_head-Lacks :
    (sep c : ℕ) (ms : List Text)
    → nat_eq c sep ≡ false
    → All (Lacks sep) ms
    → All (Lacks sep) (cons_head c ms)
unfolding cons_head
cons_head-Lacks sep c [] e h = ((e, tt), tt)
cons_head-Lacks sep c (m ∷ ms) e h = ((e, h.0), h.1)

-- No part holds the separator.
pub split-Lacks : (sep : ℕ) (s : Text) → All (Lacks sep) (split sep s)
unfolding split
split-Lacks sep [] = (tt, tt)
split-Lacks sep (c ∷ s) = elim (Bool-cases (nat_eq c sep)) [
  | inl e ↦ rw e (tt, split-Lacks sep s)
  | inr e ↦ rw e (cons_head-Lacks sep c (split sep s) e (split-Lacks sep s))
]

split_whole : (sep : ℕ) (m : Text) → Lacks sep m → split sep m ≡ m ∷ []
unfolding split cons_head
split_whole sep [] h = refl
split_whole sep (c ∷ m) h = rw (h.0, split_whole sep m h.1)

split-append : (sep : ℕ) (m t : Text) → Lacks sep m → split sep (m ++ sep ∷ t) ≡ m ∷ split sep t
unfolding split cons_head
split-append sep [] t h = ground arith
split-append sep (c ∷ m) t h = rw (h.0, split-append sep m t h.1)

-- Splitting undoes joining, where no part holds the separator.
pub split-join :
    (sep : ℕ) (ms : List Text) → ms ≢ [] → All (Lacks sep) ms → split sep (join sep ms) ≡ ms
unfolding join
split-join sep [] n h = absurd (n refl)
split-join sep (m ∷ []) n h = split_whole sep m h.0
split-join sep (m ∷ k ∷ ms) n h =
    rw (split-append sep m (join sep (k ∷ ms)) h.0, split-join sep (k ∷ ms) (λ e. cc) h.1)

-- The first members, joined, are the beginning of the text.
pub join-take :
    (sep n : ℕ) (ms : List Text) → (rest : Text) × (join sep ms ≡ join sep (take n ms) ++ rest)
unfolding join
join-take sep zero ms = (join sep ms, refl)
join-take sep (suc n) [] = ([], refl)
join-take sep (suc zero) (m ∷ []) = ([], simp append-nil)
join-take sep (suc (suc n)) (m ∷ []) = ([], simp append-nil)
join-take sep (suc zero) (m ∷ k ∷ ms) = (sep ∷ join sep (k ∷ ms), refl)
join-take sep (suc (suc n)) (m ∷ k ∷ ms) =
    let (rest, e) = join-take sep (suc n) (k ∷ ms) in
    (
      rest,
      rw (append_assoc m (sep ∷ join sep (take (suc n) (k ∷ ms))) rest) (ap (λ t. m ++ sep ∷ t) e),
    )
