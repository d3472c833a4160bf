-- ===== src/Context/W3c/Hex.antt =====
-- Hexadecimal digits and bytes: what `bytes.hex` writes is what the pattern and `bytes.fromhex` read.
use wardex_sdk.Prelude.{
  ℕ, zero, suc, ◌+◌, ◌*◌, ◌/◌, ◌%◌, ◌<◌, ◌≡◌, refl, ap, inl, inr, true, false, Option, none, some,
  List, [], ◌∷◌, ◌++◌, length, All, arith, nat_eq, Bool-cases,
}
use wardex_sdk.Prelude.Text.{Text, is_space}
use wardex_sdk.Types.{digit, to_hex}
use wardex_sdk.Context.W3c.{is_hex, hex_run, hex_value, from_hex, cons_run}

abbrev pub AreBytes : List ℕ → Type 0
AreBytes = All (λ b. b < 256)

abbrev pub AreHex : Text → Type 0
AreHex = All (λ c. is_hex c ≡ true)

pub is_hex-digit : (d : ℕ) → d < 16 → is_hex (digit d) ≡ true
unfolding is_hex digit
is_hex-digit d h = ground arith

pub hex_value-digit : (d : ℕ) → d < 16 → hex_value (digit d) ≡ d
unfolding hex_value digit
hex_value-digit d h = ground arith

pub digit-hex_value : (c : ℕ) → is_hex c ≡ true → digit (hex_value c) ≡ c
unfolding hex_value digit is_hex
digit-hex_value c h = ground arith

pub hex_value-lt : (c : ℕ) → is_hex c ≡ true → hex_value c < 16
unfolding hex_value is_hex
hex_value-lt c h = ground arith

pub is_hex-not-space : (c : ℕ) → is_hex c ≡ true → is_space c ≡ false
unfolding is_hex is_space
is_hex-not-space c h = ground arith

pub is_hex-not-feed : (c : ℕ) → is_hex c ≡ true → nat_eq c 10 ≡ false
unfolding is_hex
is_hex-not-feed c h = ground arith

pub to_hex-AreHex : (bs : List ℕ) → AreBytes bs → AreHex (to_hex bs)
unfolding to_hex
to_hex-AreHex [] h = tt
to_hex-AreHex (b ∷ bs) h = (
  is_hex-digit (b / 16) (omega (arith, h.0)),
  (is_hex-digit (b % 16) (omega arith), to_hex-AreHex bs h.1),
)

pub length-to_hex : (bs : List ℕ) → length (to_hex bs) ≡ 2 * length bs
unfolding to_hex
length-to_hex [] = omega arith
length-to_hex (b ∷ bs) = omega (arith, length-to_hex bs)

pub from_hex-to_hex : (bs : List ℕ) → AreBytes bs → from_hex (to_hex bs) ≡ bs
unfolding to_hex from_hex
from_hex-to_hex [] h = refl
from_hex-to_hex (b ∷ bs) h =
    rw
      (
        hex_value-digit (b / 16) (omega (arith, h.0)),
        hex_value-digit (b % 16) (omega arith),
        from_hex-to_hex bs h.1,
      )
      (ap (λ x. x ∷ bs) (omega arith))

-- The pattern takes the digits that stand there.
pub hex_run-append :
    (n : ℕ) (s r : Text) → length s ≡ n → AreHex s → hex_run n (s ++ r) ≡ some (s, r)
unfolding hex_run
hex_run-append zero [] r e h = refl
hex_run-append zero (c ∷ s) r e h = absurd (omega arith)
hex_run-append (suc n) [] r e h = absurd (omega arith)
hex_run-append (suc n) (c ∷ s) r e h = rw (h.0, hex_run-append n s r (omega arith) h.1)

-- What the pattern took, and what it left.
pub record Run (n : ℕ) (s ds r : Text) : Type 0 where
  pub whole : s ≡ ds ++ r
  pub size : length ds ≡ n
  pub hex : AreHex ds

cons_run-Run :
    (n c : ℕ) (s ds r : Text) (o : Option (Text × Text))
    → ((es : Text) → o ≡ some (es, r) → Run n s es r)
    → is_hex c ≡ true
    → cons_run c o ≡ some (ds, r)
    → Run (suc n) (c ∷ s) ds r
cons_run-Run n c s ds r none ih h e = cc
cons_run-Run n c s ds r (some (es, q)) ih h e =
    let k : Run n s es r = ih es (ground arith) in
    let d : c ∷ es ≡ ds = ground arith in
    rw (← d) (record { whole = ap (λ t. c ∷ t) k.whole; size = ap suc k.size; hex = (h, k.hex) })

pub hex_run-Run : (n : ℕ) (s ds r : Text) → hex_run n s ≡ some (ds, r) → Run n s ds r
unfolding hex_run
hex_run-Run zero s ds r e =
    let d : [] ≡ ds = ground arith in
    rw (← d) (record { whole = ground arith; size = refl; hex = tt })
hex_run-Run (suc n) [] ds r e = cc
hex_run-Run (suc n) (c ∷ s) ds r e = elim (Bool-cases (is_hex c)) [
  | inl h ↦ cons_run-Run n c s ds r (hex_run n s) (λ es. hex_run-Run n s es r) h (ground arith)
  | inr h ↦ absurd (ground arith)
]

pub length-from_hex : (n : ℕ) (ds : Text) → length ds ≡ 2 * n → length (from_hex ds) ≡ n
unfolding from_hex
length-from_hex n [] h = omega arith
length-from_hex n (c ∷ []) h = absurd (omega arith)
length-from_hex zero (c ∷ d ∷ ds) h = absurd (omega arith)
length-from_hex (suc n) (c ∷ d ∷ ds) h = ap suc (length-from_hex n ds (omega arith))

pub from_hex-AreBytes : (ds : Text) → AreHex ds → AreBytes (from_hex ds)
unfolding from_hex
from_hex-AreBytes [] h = tt
from_hex-AreBytes (c ∷ []) h = tt
from_hex-AreBytes (c ∷ d ∷ ds) h =
    (omega (arith, hex_value-lt c h.0, hex_value-lt d h.1.0), from_hex-AreBytes ds h.1.1)

-- Reading bytes and writing them again gives the digits back.
pub to_hex-from_hex :
    (n : ℕ) (ds : Text) → length ds ≡ 2 * n → AreHex ds → to_hex (from_hex ds) ≡ ds
unfolding to_hex from_hex
to_hex-from_hex n [] e h = refl
to_hex-from_hex n (c ∷ []) e h = absurd (omega arith)
to_hex-from_hex zero (c ∷ d ∷ ds) e h = absurd (omega arith)
to_hex-from_hex (suc n) (c ∷ d ∷ ds) e h =
    let lc = hex_value-lt c h.0 in
    let ld = hex_value-lt d h.1.0 in
    let hi : (hex_value c * 16 + hex_value d) / 16 ≡ hex_value c = omega arith in
    let lo : (hex_value c * 16 + hex_value d) % 16 ≡ hex_value d = omega arith in
    rw (
      hi,
      lo,
      digit-hex_value c h.0,
      digit-hex_value d h.1.0,
      to_hex-from_hex n ds (omega arith) h.1.1,
    )
