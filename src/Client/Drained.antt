-- ===== src/Client/Drained.antt =====
-- What a drain does to the items it swaps out.
use wardex_sdk.Prelude.{
  ◌∷◌, [], ap, inl, inr, Bool-cases, both_true, ℕ, ◌+◌, ◌≡◌, ◌∙◌, refl, Bool, true, false, not,
  ◌&&◌, List, length, arith, if◌then◌else◌,
}
use wardex_sdk.Assembly.Ledger.Wire.{is_empty}
use wardex_sdk.Client.State.{Client, Span}
use wardex_sdk.Client.Capture.{capture_all, admit_all}
use wardex_sdk.Client.Drain.{
  Export, export_raises, shipped, undelivered, Meets, swap_out, abandon, attach_and_ship,
  drain_batch, drain, close,
}
use wardex_sdk.Client.Measures.{known}
use wardex_sdk.Client.Conservation.{known_if, known-report_lost, known-capture_all, known-admit_all}
use wardex_sdk.Client.Sent.{
  leaves, charged, went, filtered_out, added_in, leaves_lem, attach_and_ship-undelivered,
  attach_and_ship-shipped, attach_and_ship-raises, known-send,
}

known-swap_out : (c : Client) → known (swap_out c) + (length c.spans + length c.snapshots) ≡ known c
unfolding known swap_out
known-swap_out c = omega arith

known-abandon : (c : Client) → known (abandon c) ≡ known c
unfolding abandon
known-abandon c =
    omega (
      arith,
      known-swap_out c,
      known-report_lost (length c.spans + length c.snapshots) (swap_out c),
    )

abbrev pub is_batch : List Span → List ℕ → Bool
is_batch ss xs = not (is_empty ss && is_empty xs)

is_empty-length {ℓ} : {A : Type ℓ} (xs : List A) → is_empty xs ≡ true → length xs ≡ 0
is_empty-length [] e = refl
is_empty-length (x ∷ xs) e = cc

if_same : (b : Bool) (n : ℕ) → n ≡ 0 → (if b then n else 0) ≡ 0
if_same true n e = e
if_same false n e = refl

-- An envelope without items, which carries the ledger's report alone.
attach_and_ship-empty :
    (final : Bool) (export : Export) (ss : List Span) (xs : List ℕ) (c : Client)
    → length ss + length xs ≡ 0
    → known (attach_and_ship final export 0 0 ss xs c) ≡ known c
attach_and_ship-empty final undelivered ss xs c e =
    omega (arith, attach_and_ship-undelivered final ss xs c 0 0, e)
attach_and_ship-empty final shipped ss xs c e = attach_and_ship-shipped final ss xs c 0 0
attach_and_ship-empty final (export_raises true) ss xs c e =
    omega (arith, attach_and_ship-raises final ss xs c true 0 0)
attach_and_ship-empty final (export_raises false) ss xs c e =
    omega (arith, attach_and_ship-raises final ss xs c false 0 0)

module _ (final : Bool) (env : Meets) (ss : List Span) (xs : List ℕ) (c : Client) where
  -- What a drain knows afterwards, with the batch if it left.
  abbrev Accounted : Bool → Client → Type 0
  Accounted batch d =
      known d + (if leaves env.hook env.export then length ss + length xs else 0)
      ≡ known c
        + length env.meanwhile
        + (length ss + length xs)
        + (if batch then charged env.hook env.export (length ss) (length xs) else 0)

  drain_empty-Accounted :
      (is_empty ss && is_empty xs) ≡ true
      → Accounted false (
          let d = capture_all env.meanwhile c in
          if env.due then attach_and_ship final env.export 0 0 ss xs d else d)
  drain_empty-Accounted e =
      let d = capture_all env.meanwhile c in
      let empty = both_true (is_empty ss) (is_empty xs) e in
      let no_items : length ss + length xs ≡ 0 =
        omega (arith, is_empty-length ss empty.0, is_empty-length xs empty.1) in
      let same =
        known_if env.due (attach_and_ship final env.export 0 0 ss xs d) d
          (attach_and_ship-empty final env.export ss xs d no_items) refl in
      omega (
        arith,
        same,
        no_items,
        if_same (leaves env.hook env.export) (length ss + length xs) no_items,
        known-capture_all env.meanwhile c,
      )

  known-drain_batch : Accounted (is_batch ss xs) (drain_batch final env ss xs c)
  unfolding drain_batch
  known-drain_batch = elim (Bool-cases (is_empty ss && is_empty xs)) [
    | inl e ↦ rw e (drain_empty-Accounted e)
    | inr e ↦ rw e (
        omega (
          arith,
          known-capture_all env.meanwhile c,
          known-send final ss xs (capture_all env.meanwhile c) env.hook env.export,
        ))
  ]

-- A drain with the slot, and one without.
known_slot :
    (slot left batch : Bool) (a b : Client) (n k m loss : ℕ)
    → known a + (if left then n else 0) ≡ k + m + (if batch then loss else 0)
    → known b ≡ k
    → known (if slot then a else b) + (if slot && left then n else 0)
      ≡ k + (if slot then m else 0) + (if slot && batch then loss else 0)
known_slot true left batch a b n k m loss p q = p
known_slot false left batch a b n k m loss p q = omega (arith, q)

-- What is known after a drain, with the whole of a batch that left.
drain_lem :
    (final : Bool) (env : Meets) (c : Client)
    → known (drain final env c)
        + (if env.slot && leaves env.hook env.export
            then length c.spans + length c.snapshots
            else 0)
      ≡ known c
        + (if env.slot then length env.meanwhile else 0)
        + (if env.slot && is_batch c.spans c.snapshots
            then charged env.hook env.export (length c.spans) (length c.snapshots)
            else 0)
unfolding drain
drain_lem final env c =
    known_slot env.slot (leaves env.hook env.export) (is_batch c.spans c.snapshots)
      (drain_batch final env c.spans c.snapshots (swap_out c)) (if final then abandon c else c)
      (length c.spans + length c.snapshots) (known c) (length env.meanwhile)
      (charged env.hook env.export (length c.spans) (length c.snapshots))
      (omega
        (arith, known-drain_batch final env c.spans c.snapshots (swap_out c), known-swap_out c))
      (known_if final (abandon c) c (known-abandon c) refl)

-- The client as the last drain of a close finds it.
abbrev pub closing : List Span → Client → Client
closing deferred c = record (admit_all deferred (record c { closed = true })) {
  finalize_drained = true;
}

known-closing :
    (deferred : List Span) (c : Client) → known (closing deferred c) ≡ known c + length deferred
known-closing deferred c =
    known_drained (admit_all deferred (record c { closed = true }))
    ∙ known-admit_all deferred (record c { closed = true })
    ∙ ap (λ n. n + length deferred) (known_closed c)
  where
    known_drained : (c : Client) → known (record c { finalize_drained = true }) ≡ known c
    known_drained c = unfold known in refl

    known_closed : (c : Client) → known (record c { closed = true }) ≡ known c
    known_closed c = unfold known in refl

known_unless :
    (b : Bool) (c d : Client) (n : ℕ) {m : ℕ}
    → b ≡ false
    → known d + n ≡ m
    → known (if b then c else d) + n ≡ m
known_unless true c d n e p = cc
known_unless false c d n e p = p

-- And after a close of an open client.
close_lem :
    (deferred : List Span) (env : Meets) (c : Client)
    → c.closed ≡ false
    → (let last = closing deferred c in
        known (close deferred env c)
          + (if env.slot && leaves env.hook env.export
              then length last.spans + length last.snapshots
              else 0)
        ≡ known c
          + length deferred
          + (if env.slot then length env.meanwhile else 0)
          + (if env.slot && is_batch last.spans last.snapshots
              then charged env.hook env.export (length last.spans) (length last.snapshots)
              else 0))
unfolding close
close_lem deferred env c was_open =
    let last = closing deferred c in
    known_unless c.closed c (drain true env last)
      (if env.slot && leaves env.hook env.export
        then length last.spans + length last.snapshots
        else 0)
      was_open (omega (arith, drain_lem true env last, known-closing deferred c))

-- The items of a batch of spans and snapshots that left: with the transport or filtered out by the hook.
unfoldable pub departed : Meets → List Span → List ℕ → ℕ
unfolding went filtered_out
departed env ss xs =
    if env.slot && is_batch ss xs
    then went env.hook env.export (length ss + length xs)
      + filtered_out env.hook env.export (length ss + length xs)
    else 0

-- What is charged to that batch, and what the hook added to it.
unfoldable pub surplus : Meets → List Span → List ℕ → ℕ
unfolding charged added_in
surplus env ss xs =
    if env.slot && is_batch ss xs
    then charged env.hook env.export (length ss) (length xs)
      + added_in env.hook env.export (length ss + length xs)
    else 0

-- The two ways to say what left agree.
departed_lem :
    (slot batch left : Bool) (n wn fn an loss known_after before : ℕ)
    → (batch ≡ false → n ≡ 0)
    → (if left then n else 0) + an ≡ wn + fn
    → known_after + (if slot && left then n else 0) ≡ before + (if slot && batch then loss else 0)
    → known_after + (if slot && batch then wn + fn else 0)
      ≡ before + (if slot && batch then loss + an else 0)
departed_lem slot batch left n wn fn an loss known_after before idle e h = ground (arith, idle)

no_batch : (ss : List Span) (xs : List ℕ) → is_batch ss xs ≡ false → length ss + length xs ≡ 0
no_batch [] [] e = refl
no_batch [] (x ∷ xs) e = absurd (cc)
no_batch (s ∷ ss) xs e = absurd (cc)

-- Every item that a drain touches is accounted for. With the export slot in hand, what is held or
-- recorded as lost afterwards, with the items of the batch that are with the transport and those that
-- the hook filtered out of an envelope that left, of which nothing is recorded, is what was before,
-- the spans captured meanwhile, what the hook added, and the loss charged to a batch whose export
-- raised. Where the slot is not to be had, nothing changes but that a final drain records all it held
-- as lost.
pub known-drain :
    (final : Bool) (env : Meets) (c : Client)
    → known (drain final env c) + departed env c.spans c.snapshots
      ≡ known c + (if env.slot then length env.meanwhile else 0) + surplus env c.spans c.snapshots
unfolding departed surplus
known-drain final env c =
    let n = length c.spans + length c.snapshots in
    departed_lem env.slot (is_batch c.spans c.snapshots) (leaves env.hook env.export) n
      (went env.hook env.export n) (filtered_out env.hook env.export n)
      (added_in env.hook env.export n)
      (charged env.hook env.export (length c.spans) (length c.snapshots))
      (known (drain final env c)) (known c + (if env.slot then length env.meanwhile else 0))
      (no_batch c.spans c.snapshots) (leaves_lem env.hook env.export n) (drain_lem final env c)

-- So it is with a close of an open client: what is held or recorded as lost afterwards, with what left
-- of the batch of its last drain, is what was before, the spans that its finalize queue hands over,
-- those captured meanwhile, and what is charged or was added to that batch.
pub known-close :
    (deferred : List Span) (env : Meets) (c : Client)
    → c.closed ≡ false
    → (let last = closing deferred c in
        known (close deferred env c) + departed env last.spans last.snapshots
        ≡ known c
          + length deferred
          + (if env.slot then length env.meanwhile else 0)
          + surplus env last.spans last.snapshots)
unfolding departed surplus
known-close deferred env c was_open =
    let last = closing deferred c in
    let n = length last.spans + length last.snapshots in
    departed_lem env.slot (is_batch last.spans last.snapshots) (leaves env.hook env.export) n
      (went env.hook env.export n) (filtered_out env.hook env.export n)
      (added_in env.hook env.export n)
      (charged env.hook env.export (length last.spans) (length last.snapshots))
      (known (close deferred env c))
      (known c + length deferred + (if env.slot then length env.meanwhile else 0))
      (no_batch last.spans last.snapshots) (leaves_lem env.hook env.export n)
      (close_lem deferred env c was_open)
