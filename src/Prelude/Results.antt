-- ===== src/Prelude/Results.antt =====
-- What raises: a value, or the error in its place.
use mathlib.Core.Bool.{Bool, true, false}

pub data Result {ℓ κ} (E : Type ℓ) (A : Type κ) : Type (ℓ ⊔ κ) where
  ok : A → Result E A
  raise : E → Result E A

-- `if test: raise error`.
unfoldable pub raise_if {ℓ} : {E : Type ℓ} → Bool → E → Result {ℓ, 0} E Unit
raise_if true e = raise e
raise_if false e = ok tt
