-- ===== src/Finalize/Room.antt =====
-- The queue's bounds, and the byte count, of one thread's operations.
use wardex_sdk.Prelude.{
  ℕ, ◌+◌, ◌≤◌, ◌<◌, max, ◌≡◌, ◌⊎◌, ◌∙◌, refl, ap, inl, inr, Bool, true, false, List, [], ◌∷◌, ◌++◌,
  length, length-append, ltb, arith, Bool-cases, if◌then◌else◌,
}
use wardex_sdk.Finalize.Queue.{
  FinalizeQueue, Job, pop_left, fallback_now, evict_left, is_full_for, make_room, append_entry,
  submit,
}
use wardex_sdk.Assembly.Integrity.{Limitation}

-- The bytes of the jobs of a list.
unfoldable pub total : List Job → ℕ
total [] = 0
total (j ∷ js) = j.size + total js

total-append : (js ks : List Job) → total (js ++ ks) ≡ total js + total ks
unfolding total
total-append [] ks = omega arith
total-append (j ∷ js) ks = omega (arith, total-append js ks)

-- What a queue keeps to: its byte count is its jobs' sizes, and both bounds hold. A bound of 0 jobs
-- acts as 1.
abbrev pub Fits : List Job → ℕ → ℕ → ℕ → Type 0
Fits entries bytes max_jobs max_bytes =
    (bytes ≡ total entries) × (length entries ≤ max 1 max_jobs) × (bytes ≤ max_bytes)

abbrev pub IsQueue : FinalizeQueue → Type 0
IsQueue q = Fits q.entries q.bytes q.max_jobs q.max_bytes

-- A job fits: the queue is empty, or it is not full.
abbrev Room : ℕ → FinalizeQueue → Type 0
Room size q = (q.entries ≡ []) ⊎ ((length q.entries < q.max_jobs) × (q.bytes + size ≤ q.max_bytes))

not_full :
    (size : ℕ) (q : FinalizeQueue)
    → is_full_for size q ≡ false
    → (length q.entries < q.max_jobs) × (q.bytes + size ≤ q.max_bytes)
unfolding is_full_for
not_full size q e = (ground arith, ground arith)

entries-evict :
    (j : Job) (rest : List Job) (q : FinalizeQueue) → (evict_left (j ∷ rest) q).entries ≡ rest
unfolding evict_left pop_left fallback_now
entries-evict j rest q = refl

bytes-evict :
    (j : Job) (rest : List Job) (q : FinalizeQueue)
    → q.entries ≡ j ∷ rest
    → q.bytes ≡ total q.entries
    → (evict_left (j ∷ rest) q).bytes ≡ total (evict_left (j ∷ rest) q).entries
unfolding evict_left pop_left fallback_now total
bytes-evict j rest q e same = omega (arith, same, ap total e)

jobs-evict :
    (j : Job) (rest : List Job) (q : FinalizeQueue)
    → (evict_left (j ∷ rest) q).max_jobs ≡ q.max_jobs
unfolding evict_left pop_left fallback_now
jobs-evict j rest q = refl

bound-evict :
    (j : Job) (rest : List Job) (q : FinalizeQueue)
    → (evict_left (j ∷ rest) q).max_bytes ≡ q.max_bytes
unfolding evict_left pop_left fallback_now
bound-evict j rest q = refl

-- What the loop of `submit` makes: room, a byte count that is right, and the bounds unchanged.
pub make_room-Room :
    (size : ℕ) (js : List Job) (q : FinalizeQueue)
    → q.entries ≡ js
    → q.bytes ≡ total q.entries
    → Room size (make_room size js q)
      × ((make_room size js q).bytes ≡ total (make_room size js q).entries)
      × ((make_room size js q).max_jobs ≡ q.max_jobs)
      × ((make_room size js q).max_bytes ≡ q.max_bytes)
unfolding make_room
make_room-Room size [] q e same = (inl e, same, refl, refl)
make_room-Room size (j ∷ rest) q e same = elim (Bool-cases (is_full_for size q)) [
  | inl full ↦
      let rests =
        make_room-Room size rest (evict_left (j ∷ rest) q) (entries-evict j rest q)
          (bytes-evict j rest q e same) in
      rw full (rests.0, rests.1, rests.2 ∙ jobs-evict j rest q, rests.3 ∙ bound-evict j rest q)
  | inr room ↦ rw room (inr (not_full size q room), same, refl, refl)
]

append_entry-IsQueue :
    (j : Job) (q : FinalizeQueue)
    → Room j.size q
    → q.bytes ≡ total q.entries
    → j.size ≤ q.max_bytes
    → IsQueue (append_entry j q)
unfolding append_entry total
append_entry-IsQueue j q room same small =
    let joined = length-append q.entries (j ∷ []) in
    (
      omega (arith, same, total-append q.entries (j ∷ [])),
      elim room [ inl e ↦ omega (arith, ap length e, joined) | inr h ↦ omega (arith, h.0, joined) ],
      elim room [ inl e ↦ omega (arith, ap total e, same, small) | inr h ↦ omega (arith, h.1) ],
    )

pub IsQueue-if :
    (b : Bool) (q r : FinalizeQueue)
    → (b ≡ true → IsQueue q)
    → (b ≡ false → IsQueue r)
    → IsQueue (if b then q else r)
IsQueue-if true q r h k = h refl
IsQueue-if false q r h k = k refl

pub submit-IsQueue : (j : Job) (q : FinalizeQueue) → IsQueue q → IsQueue (submit j q)
unfolding submit fallback_now
submit-IsQueue j q h =
    let made = make_room-Room j.size q.entries q refl h.0 in
    IsQueue-if (ltb q.max_bytes j.size)
      (fallback_now Limitation.parse_backlog_full j (record q { evicted = q.evicted + 1 }))
      (append_entry j (make_room j.size q.entries q)) (λ big. h)
      (λ small.
        append_entry-IsQueue j (make_room j.size q.entries q) made.0 made.1
          (omega (arith, made.3, fits_bound j.size q.max_bytes small)))
  where
    fits_bound : (size bound : ℕ) → ltb bound size ≡ false → size ≤ bound
    fits_bound size bound e = ground arith

pop_left-IsQueue :
    (js : List Job) (q : FinalizeQueue) → q.entries ≡ js → IsQueue q → IsQueue (pop_left js q)
unfolding pop_left total
pop_left-IsQueue [] q e h = h
pop_left-IsQueue (j ∷ rest) q e h =
    (omega (arith, h.0, ap total e), omega (arith, h.1, ap length e), omega (arith, h.2))

pub in_flight_if :
    (b : Bool) (q r : FinalizeQueue) {n : ℕ}
    → q.in_flight ≡ n
    → r.in_flight ≡ n
    → (if b then q else r).in_flight ≡ n
in_flight_if true q r h k = h
in_flight_if false q r h k = k

in_flight-make_room :
    (size : ℕ) (js : List Job) (q : FinalizeQueue) → (make_room size js q).in_flight ≡ q.in_flight
unfolding make_room evict_left pop_left fallback_now
in_flight-make_room size [] q = refl
in_flight-make_room size (j ∷ rest) q =
    in_flight_if (is_full_for size q) (make_room size rest (evict_left (j ∷ rest) q)) q
      (in_flight-make_room size rest (evict_left (j ∷ rest) q)) refl

pub in_flight-submit : (j : Job) (q : FinalizeQueue) → (submit j q).in_flight ≡ q.in_flight
unfolding submit fallback_now append_entry
in_flight-submit j q =
    in_flight_if (ltb q.max_bytes j.size)
      (fallback_now Limitation.parse_backlog_full j (record q { evicted = q.evicted + 1 }))
      (append_entry j (make_room j.size q.entries q)) refl (in_flight-make_room j.size q.entries q)
