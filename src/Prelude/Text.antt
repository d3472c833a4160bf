-- ===== src/Prelude/Text.antt =====
-- Python's `str` as the list of its code points, with the methods that the SDK calls on it.
use Prim.Native.Char.{code}
use Prim.Native.String.{String}
use Prim.Native.Nat.{ℕ}
use mathlib.Core.Path.{◌≡◌, refl}
use mathlib.Core.Bool.{Bool, true, false, ◌&&◌, ◌||◌}
use mathlib.Core.Logic.{◌↔◌}
use mathlib.Core.List.{List, [], ◌∷◌, ◌++◌}
use native.Mathlib.Omega.{arith}
use wardex_sdk.Prelude.Tests.{if◌then◌else◌, leb, nat_eq}
use wardex_sdk.Prelude.Lists.{All}

abbrev pub Text : Type 0
Text = List ℕ

abbrev pub codes : String → Text
codes String.[] = []
codes (String.◌∷◌ c s) = code c ∷ codes s

-- `lo <= ch <= hi`.
abbrev pub between : ℕ → ℕ → ℕ → Bool
between lo hi c = leb lo c && leb c hi

-- `str.isspace` of one character: the code points that `str.strip` removes.
unfoldable pub is_space : ℕ → Bool
is_space c =
    between 9 13 c
    || between 28 32 c
    || nat_eq c 0x85
    || nat_eq c 0xa0
    || nat_eq c 0x1680
    || between 0x2000 0x200a c
    || between 0x2028 0x2029 c
    || nat_eq c 0x202f
    || nat_eq c 0x205f
    || nat_eq c 0x3000

unfoldable pub lstrip : Text → Text
lstrip [] = []
lstrip (c ∷ s) = let rest = lstrip s in if is_space c then rest else c ∷ s

-- One character in front of a text whose right end is stripped already.
unfoldable pub rstrip_cons : ℕ → Text → Text
rstrip_cons c [] = if is_space c then [] else c ∷ []
rstrip_cons c (d ∷ s) = c ∷ d ∷ s

unfoldable pub rstrip : Text → Text
unfolding rstrip_cons
rstrip [] = []
rstrip (c ∷ s) = rstrip_cons c (rstrip s)

unfoldable pub strip : Text → Text
unfolding lstrip rstrip
strip s = rstrip (lstrip s)

pub rstrip_full : (s : Text) → All (λ c. is_space c ≡ false) s → rstrip s ≡ s
unfolding rstrip
rstrip_full [] h = refl
rstrip_full (c ∷ []) h = ground arith
rstrip_full (c ∷ d ∷ s) h = ground (arith, rstrip_full (d ∷ s) h.1)

-- A text with no white space in it is its own stripped form.
pub strip_full : (s : Text) → All (λ c. is_space c ≡ false) s → strip s ≡ s
unfolding strip
strip_full [] h = refl
strip_full (c ∷ s) h = ground (arith, rstrip_full (c ∷ s) h)

abbrev pub Lacks : ℕ → Text → Type 0
Lacks sep = All (λ c. nat_eq c sep ≡ false)

-- `s.partition(sep)` at one character: what stands before the first one, and behind it.
unfoldable pub before_first : ℕ → Text → Text
before_first sep [] = []
before_first sep (c ∷ s) = let rest = before_first sep s in if nat_eq c sep then [] else c ∷ rest

unfoldable pub after_first : ℕ → Text → Text
after_first sep [] = []
after_first sep (c ∷ s) = let rest = after_first sep s in if nat_eq c sep then s else rest

pub before_first-append : (sep : ℕ) (s t : Text) → Lacks sep s → before_first sep (s ++ sep ∷ t) ≡ s
unfolding before_first
before_first-append sep [] t h = ground arith
before_first-append sep (c ∷ s) t h = ground (arith, before_first-append sep s t h.1)

pub after_first-append : (sep : ℕ) (s t : Text) → Lacks sep s → after_first sep (s ++ sep ∷ t) ≡ t
unfolding after_first
after_first-append sep [] t h = ground arith
after_first-append sep (c ∷ s) t h = ground (arith, after_first-append sep s t h.1)

-- `==` on texts.
unfoldable pub text_eq : Text → Text → Bool
text_eq [] [] = true
text_eq (c ∷ s) (d ∷ t) = nat_eq c d && text_eq s t
text_eq _ _ = false

pub text_eq_iff : (s t : Text) → (text_eq s t ≡ true) ↔ (s ≡ t)
unfolding text_eq
text_eq_iff [] [] = (λ h. refl, λ h. refl)
text_eq_iff [] (d ∷ t) = (λ h. cc, λ h. cc)
text_eq_iff (c ∷ s) [] = (λ h. cc, λ h. cc)
text_eq_iff (c ∷ s) (d ∷ t) =
    (λ h. ground (arith, text_eq_iff s t), λ h. ground (arith, text_eq_iff s t))
