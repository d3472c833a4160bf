-- ===== src/Client/Measures.antt =====
-- What a client holds and what it has recorded as lost.
use wardex_sdk.Prelude.{ℕ, ◌+◌, ◌≡◌, List, [], ◌∷◌, ◌++◌, length, arith}
use wardex_sdk.Client.State.{
  Client, Span, LedgerCall, recorded, recorded_items, attached, settled_unsent, settled_done,
}

-- The bytes that a list of spans is charged for.
unfoldable pub total : List Span → ℕ
total [] = 0
total (s ∷ ss) = s.size + total ss

-- The items that calls record as lost, spans and snapshots together.
unfoldable pub losses : List LedgerCall → ℕ
losses [] = 0
losses (recorded r u n ∷ calls) = n + losses calls
losses (recorded_items r n m ∷ calls) = n + m + losses calls
losses (attached d ∷ calls) = losses calls
losses (settled_unsent d l ∷ calls) = losses calls
losses (settled_done ∷ calls) = losses calls

-- The items that a client holds or has recorded as lost.
unfoldable pub known : Client → ℕ
known c = length c.spans + length c.snapshots + losses c.calls

pub total-append : (ss ts : List Span) → total (ss ++ ts) ≡ total ss + total ts
unfolding total
total-append [] ts = omega arith
total-append (s ∷ ss) ts = omega (arith, total-append ss ts)
