-- ===== src/Assembly/Builder/Distinct.antt =====
-- Lists of limitations without one twice, and what a builder adds to them.
use wardex_sdk.Prelude.{
  ℕ, true, false, ◌||◌, List, [], ◌∷◌, ◌++◌, ◌≡◌, refl, arith, nat_eq, Bool-cases, inl, inr,
}
use wardex_sdk.Assembly.Integrity.{Limitation, is_same, place}
use wardex_sdk.Assembly.Parentage.Resolve.{is_in}
use wardex_sdk.Assembly.Builder.Integrity.{add_marker}
use wardex_sdk.Assembly.Builder.Setters.{Setter, limitation_added}

-- No marker twice.
unfoldable pub IsDistinct : List Limitation → Type 0
IsDistinct [] = Unit
IsDistinct (m ∷ ms) = (is_in m ms ≡ false) × IsDistinct ms

is_same_flip : (a b : Limitation) → is_same a b ≡ is_same b a
unfolding is_same
is_same_flip a b = ground arith

is_in-append :
    (m k : Limitation) (ms : List Limitation)
    → is_in m (ms ++ (k ∷ [])) ≡ (is_in m ms || is_same m k)
unfolding is_in
is_in-append m k [] = ground arith
is_in-append m k (l ∷ ms) = ground (arith, is_in-append m k ms)

append-IsDistinct :
    (k : Limitation) (ms : List Limitation)
    → is_in k ms ≡ false
    → IsDistinct ms
    → IsDistinct (ms ++ (k ∷ []))
unfolding IsDistinct is_in
append-IsDistinct k [] h d = (refl, tt)
append-IsDistinct k (l ∷ ms) h d = (
  ground (arith, is_in-append l k ms, is_same_flip k l),
  append-IsDistinct k ms (ground arith) d.1,
)

nat_eq_places : (a b m : ℕ) → nat_eq a b ≡ true → nat_eq m b ≡ nat_eq m a
nat_eq_places a b m e = ground arith

same_places : (a b m : Limitation) → is_same a b ≡ true → is_same m b ≡ is_same m a
unfolding is_same
same_places a b m e = nat_eq_places (place a) (place b) (place m) e

is_in_same :
    (m k : Limitation) (ms : List Limitation)
    → is_in k ms ≡ true
    → is_same m k ≡ true
    → is_in m ms ≡ true
unfolding is_in
is_in_same m k [] h e = h
is_in_same m k (l ∷ ms) h e = ground (
  arith,
  is_in_same m k ms,
  same_places m k l,
  is_same_flip l k,
  is_same_flip l m,
  is_same_flip m l,
)

-- What one more marker makes of the markers that a builder has.
is_in-add_marker :
    (m k : Limitation) (ms : List Limitation)
    → is_in m (add_marker k ms) ≡ (is_in m ms || is_same m k)
unfolding add_marker
is_in-add_marker m k ms = elim (Bool-cases (is_in k ms)) [
  | inl e ↦ rw e (ground (arith, is_in_same m k ms e))
  | inr e ↦ rw e (is_in-append m k ms)
]

add_marker-IsDistinct :
    (k : Limitation) (ms : List Limitation) → IsDistinct ms → IsDistinct (add_marker k ms)
unfolding add_marker
add_marker-IsDistinct k ms d = elim (Bool-cases (is_in k ms)) [
  | inl e ↦ rw e d
  | inr e ↦ rw e (append-IsDistinct k ms e d)
]

-- The markers that a list of limitations makes of others.
unfoldable pub add_markers : List Limitation → List Limitation → List Limitation
unfolding add_marker
add_markers [] ms = ms
add_markers (k ∷ ks) ms = add_markers ks (add_marker k ms)

pub is_in-add_markers :
    (m : Limitation) (ks ms : List Limitation)
    → is_in m (add_markers ks ms) ≡ (is_in m ms || is_in m ks)
unfolding add_markers is_in
is_in-add_markers m [] ms = ground arith
is_in-add_markers m (k ∷ ks) ms =
    ground (arith, is_in-add_markers m ks (add_marker k ms), is_in-add_marker m k ms)

pub add_markers-IsDistinct :
    (ks ms : List Limitation) → IsDistinct ms → IsDistinct (add_markers ks ms)
unfolding add_markers
add_markers-IsDistinct [] ms d = d
add_markers-IsDistinct (k ∷ ks) ms d =
    add_markers-IsDistinct ks (add_marker k ms) (add_marker-IsDistinct k ms d)

-- The limitation that a setter adds.
unfoldable pub added_by : Setter → List Limitation
added_by (limitation_added marker) = marker ∷ []
added_by _ = []

unfoldable pub added : List Setter → List Limitation
unfolding added_by
added [] = []
added (setter ∷ rest) = added_by setter ++ added rest
