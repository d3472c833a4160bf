-- ===== src/Finalize/Queue.antt =====
-- The queue's state and `submit`.
use wardex_sdk.Prelude.{
  ℕ, ◌+◌, ◌-◌, Bool, ◌||◌, Option, List, [], ◌∷◌, ◌++◌, length, ltb, leb, if◌then◌else◌,
}
use wardex_sdk.Assembly.Integrity.{Limitation}

-- What a job's `run` or `fallback` does inside the guard.
pub data JobResult : Type 0 where
  raises refuses : JobResult
  gives : ℕ → JobResult

-- A sealed job, named by a number, with the tags of its scope, what its parse gives and what it
-- gives without.
pub record Job : Type 0 where
  pub jid : ℕ
  pub size : ℕ
  pub scope : ℕ
  pub run : JobResult
  pub fallback : JobResult

-- A job that is finished: by `_run_one`, or by `_fallback_now` with its marker.
pub data Finish : Type 0 where
  ran : Job → Finish
  fell_back : Limitation → Job → Finish

-- `finished` has what the queue has done with its jobs, the latest first.
pub record FinalizeQueue : Type 0 where
  pub max_jobs : ℕ
  pub max_bytes : ℕ
  pub entries : List Job
  pub bytes : ℕ
  pub stopping : Bool
  pub in_flight : ℕ
  pub in_flight_pid : Option ℕ
  pub evicted : ℕ
  pub shut_down : ℕ
  pub finished : List Finish

unfoldable pub admitted_result : ℕ → JobResult → List (ℕ × ℕ)
admitted_result scope raises = []
admitted_result scope refuses = []
admitted_result scope (gives span) = (span, scope) ∷ []

-- The spans handed to the client, with the scope of their job.
unfoldable pub admitted : List Finish → List (ℕ × ℕ)
unfolding admitted_result
admitted [] = []
admitted (ran j ∷ fs) = admitted_result j.scope j.run ++ admitted fs
admitted (fell_back l j ∷ fs) = admitted_result j.scope j.fallback ++ admitted fs

unfoldable pub fallback_now : Limitation → Job → FinalizeQueue → FinalizeQueue
fallback_now marker j q = record q { finished = fell_back marker j ∷ q.finished }

-- `entries.popleft()` and the bytes of what it gives.
unfoldable pub pop_left : List Job → FinalizeQueue → FinalizeQueue
pop_left [] q = q
pop_left (j ∷ rest) q = record q { entries = rest; bytes = q.bytes - j.size }

-- One eviction of `submit`, counted, and finished without its parse.
unfoldable pub evict_left : List Job → FinalizeQueue → FinalizeQueue
unfolding pop_left fallback_now
evict_left [] q = q
evict_left (j ∷ rest) q =
    fallback_now Limitation.parse_backlog_full j
      (pop_left (j ∷ rest) (record q { evicted = q.evicted + 1 }))

-- The condition of the loop of `submit`, beside that the queue is not empty.
unfoldable pub is_full_for : ℕ → FinalizeQueue → Bool
is_full_for size q = leb q.max_jobs (length q.entries) || ltb q.max_bytes (q.bytes + size)

-- The loop. The list is the queue's.
unfoldable pub make_room : ℕ → List Job → FinalizeQueue → FinalizeQueue
unfolding evict_left is_full_for
make_room size [] q = q
make_room size (j ∷ rest) q =
    let next = make_room size rest (evict_left (j ∷ rest) q) in
    if is_full_for size q then next else q

unfoldable pub append_entry : Job → FinalizeQueue → FinalizeQueue
append_entry j q = record q { entries = q.entries ++ (j ∷ []); bytes = q.bytes + j.size }

unfoldable pub submit : Job → FinalizeQueue → FinalizeQueue
unfolding make_room append_entry fallback_now
submit j q =
    if ltb q.max_bytes j.size
    then fallback_now Limitation.parse_backlog_full j (record q { evicted = q.evicted + 1 })
    else append_entry j (make_room j.size q.entries q)
