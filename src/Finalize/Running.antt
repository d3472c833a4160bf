-- ===== src/Finalize/Running.antt =====
-- The queue's bounds and its in-flight count, between any threads.
use wardex_sdk.Prelude.{
  holds_if, ℕ, ◌-◌, ◌≡◌, ◌∙◌, refl, ap, inl, inr, true, false, none, List, [], ◌∷◌, length,
  length-append, ltb, nat_eq, arith, Bool-cases,
}
use wardex_sdk.Finalize.Queue.{FinalizeQueue, Job, pop_left, fallback_now, append_entry, submit}
use wardex_sdk.Finalize.Drain.{run_one, stop, at_fork_reinit}
use wardex_sdk.Finalize.Threads.{
  Threads, fork, worker_take, worker_finish, settle_pid, drain_take, drain_finish, Step, submitted,
  worker_took, worker_finished, drain_took, drain_finished, stopped, forked, fresh_queue, fresh,
  Reach, start, later,
}
use wardex_sdk.Finalize.Room.{
  total, IsQueue, IsQueue-if, submit-IsQueue, in_flight_if, in_flight-submit, make_room-Room,
}

-- The bounds hold, and the in-flight count is the number of jobs with the worker.
abbrev pub IsRunning : Threads → Type 0
IsRunning t = IsQueue t.queue × (t.queue.in_flight ≡ length t.at_worker)

settle_pid-IsRunning :
    (q : FinalizeQueue)
    → IsQueue q
    → IsQueue (settle_pid q) × ((settle_pid q).in_flight ≡ q.in_flight)
unfolding settle_pid
settle_pid-IsRunning q h = (
  IsQueue-if (nat_eq q.in_flight 0) (record q { in_flight_pid = none }) q (λ _. h) (λ _. h),
  in_flight_if (nat_eq q.in_flight 0) (record q { in_flight_pid = none }) q refl refl,
)

worker_take-IsRunning :
    (pid : ℕ) (js : List Job) (t : Threads)
    → t.queue.entries ≡ js
    → IsRunning t
    → IsRunning (worker_take pid js t)
unfolding worker_take pop_left total
worker_take-IsRunning pid [] t e h = h
worker_take-IsRunning pid (j ∷ rest) t e h = elim (Bool-cases t.queue.stopping) [
  | inl s ↦ rw s h
  | inr s ↦ rw s (
    (omega (arith, h.0.0, ap total e), omega (arith, h.0.1, ap length e), omega (arith, h.0.2)),
    omega (arith, h.1),
  )
]

drain_take-IsRunning :
    (js : List Job) (t : Threads) → t.queue.entries ≡ js → IsRunning t → IsRunning (drain_take js t)
unfolding drain_take pop_left total
drain_take-IsRunning [] t e h = h
drain_take-IsRunning (j ∷ rest) t e h = (
  (omega (arith, h.0.0, ap total e), omega (arith, h.0.1, ap length e), omega (arith, h.0.2)),
  h.1,
)

Step-IsRunning : (ks : List Job) (t u : Threads) → IsRunning t → Step t ks u → IsRunning u
unfolding worker_finish run_one drain_take drain_finish fallback_now stop at_fork_reinit fork total
Step-IsRunning _ t _ h (submitted j) =
    (submit-IsQueue j t.queue h.0, in_flight-submit j t.queue ∙ h.1)
Step-IsRunning _ t _ h (worker_took pid) = worker_take-IsRunning pid t.queue.entries t refl h
Step-IsRunning _ t _ h (worker_finished j front back e) =
    let q = record (run_one j t.queue) { in_flight = t.queue.in_flight - 1 } in
    let settled = settle_pid-IsRunning q h.0 in
    (
      settled.0,
      omega (
        arith,
        settled.1,
        h.1,
        ap length e,
        length-append front (j ∷ back),
        length-append front back,
      ),
    )
Step-IsRunning _ t _ h drain_took = drain_take-IsRunning t.queue.entries t refl h
Step-IsRunning _ t _ h (drain_finished true j front back e) = h
Step-IsRunning _ t _ h (drain_finished false j front back e) = h
Step-IsRunning _ t _ h stopped = h
Step-IsRunning _ t _ h forked = ((refl, omega arith, omega arith), refl)

-- The bounds are those of another queue.
abbrev SameBounds : FinalizeQueue → FinalizeQueue → Type 0
SameBounds r q = (r.max_jobs ≡ q.max_jobs) × (r.max_bytes ≡ q.max_bytes)

submit-SameBounds : (j : Job) (q : FinalizeQueue) → IsQueue q → SameBounds (submit j q) q
unfolding submit fallback_now append_entry
submit-SameBounds j q h =
    let made = make_room-Room j.size q.entries q refl h.0 in
    holds_if (λ r. SameBounds r q) (ltb q.max_bytes j.size) _ _ (λ _. (refl, refl))
      (λ _. (made.2, made.3))

worker_take-SameBounds :
    (pid : ℕ) (js : List Job) (t : Threads) → SameBounds (worker_take pid js t).queue t.queue
unfolding worker_take pop_left
worker_take-SameBounds pid [] t = (refl, refl)
worker_take-SameBounds pid (j ∷ rest) t =
    holds_if (λ (u : Threads). SameBounds u.queue t.queue) t.queue.stopping _ _ (λ _. (refl, refl))
      (λ _. (refl, refl))

drain_take-SameBounds : (js : List Job) (t : Threads) → SameBounds (drain_take js t).queue t.queue
unfolding drain_take pop_left
drain_take-SameBounds [] t = (refl, refl)
drain_take-SameBounds (j ∷ rest) t = (refl, refl)

Step-SameBounds :
    (ks : List Job) (t u : Threads) → IsRunning t → Step t ks u → SameBounds u.queue t.queue
unfolding worker_finish settle_pid run_one drain_finish fallback_now stop at_fork_reinit fork
Step-SameBounds _ t _ h (submitted j) = submit-SameBounds j t.queue h.0
Step-SameBounds _ t _ h (worker_took pid) = worker_take-SameBounds pid t.queue.entries t
Step-SameBounds _ t _ h (worker_finished j front back e) =
    let q = record (run_one j t.queue) { in_flight = t.queue.in_flight - 1 } in
    holds_if (λ r. SameBounds r t.queue) (nat_eq q.in_flight 0) (record q { in_flight_pid = none })
      q (λ _. (refl, refl)) (λ _. (refl, refl))
Step-SameBounds _ t _ h drain_took = drain_take-SameBounds t.queue.entries t
Step-SameBounds _ t _ h (drain_finished true j front back e) = (refl, refl)
Step-SameBounds _ t _ h (drain_finished false j front back e) = (refl, refl)
Step-SameBounds _ t _ h stopped = (refl, refl)
Step-SameBounds _ t _ h forked = (refl, refl)

-- Whatever threads do, and in whatever order: the byte count is the sizes of the queued jobs, no more
-- jobs and no more bytes are queued than the two bounds that the queue was made with (with a bound of
-- 0 jobs, one), and the in-flight count is the number of jobs that the worker has taken and not
-- finished.
pub Reach-IsRunning :
    (max_jobs max_bytes : ℕ) (js : List Job) (t : Threads)
    → Reach max_jobs max_bytes js t
    → IsRunning t × (t.queue.max_jobs ≡ max_jobs) × (t.queue.max_bytes ≡ max_bytes)
unfolding fresh fresh_queue total
Reach-IsRunning max_jobs max_bytes _ _ start =
    (((refl, omega arith, omega arith), refl), refl, refl)
Reach-IsRunning max_jobs max_bytes _ _ (later js ks t u r s) =
    let before = Reach-IsRunning max_jobs max_bytes js t r in
    let same = Step-SameBounds ks t u before.0 s in
    (Step-IsRunning ks t u before.0 s, same.0 ∙ before.1, same.1 ∙ before.2)
