-- ===== src/Finalize/Drain.antt =====
-- `drain_all` on a queue that no other thread touches meanwhile, and the fork and stop.
use wardex_sdk.Prelude.{
  ℕ, zero, suc, ◌+◌, Bool, true, false, not, Option, none, some, List, [], ◌∷◌, nat_eq,
  if◌then◌else◌,
}
use wardex_sdk.Finalize.Queue.{FinalizeQueue, Job, ran, pop_left, fallback_now}
use wardex_sdk.Assembly.Integrity.{Limitation}

pub data Leftover : Type 0 where
  keep fallback : Leftover

-- An in-flight count of another process.
unfoldable pub is_foreign : ℕ → Option ℕ → Bool
is_foreign pid none = false
is_foreign pid (some owner) = not (nat_eq owner pid)

-- The reset at the head of `ensure_alive` and `drain_all`.
unfoldable pub reset_in_flight : ℕ → FinalizeQueue → FinalizeQueue
unfolding is_foreign
reset_in_flight pid q =
    if is_foreign pid q.in_flight_pid then record q { in_flight = 0; in_flight_pid = none } else q

unfoldable pub run_one : Job → FinalizeQueue → FinalizeQueue
run_one j q = record q { finished = ran j ∷ q.finished }

-- The first loop: `budget` is the number of jobs that it begins before its deadline, none where
-- there is no deadline.
unfoldable pub run_until : Option ℕ → List Job → FinalizeQueue → FinalizeQueue × ℕ
unfolding pop_left run_one
run_until budget [] q = (q, 0)
run_until (some zero) (j ∷ rest) q = (q, 0)
run_until (some (suc n)) (j ∷ rest) q =
    let later = run_until (some n) rest (run_one j (pop_left (j ∷ rest) q)) in
    (later.0, later.1 + 1)
run_until none (j ∷ rest) q =
    let later = run_until none rest (run_one j (pop_left (j ∷ rest) q)) in (later.0, later.1 + 1)

-- The second loop, where the process is ending.
unfoldable pub fall_back_all : List Job → FinalizeQueue → FinalizeQueue × ℕ
unfolding pop_left fallback_now
fall_back_all [] q = (q, 0)
fall_back_all (j ∷ rest) q =
    let popped = record (pop_left (j ∷ rest) q) { shut_down = q.shut_down + 1 } in
    let later = fall_back_all rest (fallback_now Limitation.parse_skipped_at_shutdown j popped) in
    (later.0, later.1 + 1)

unfoldable pub finish_leftover : Leftover → FinalizeQueue × ℕ → FinalizeQueue × ℕ
unfolding fall_back_all
finish_leftover keep (q, n) = (q, n)
finish_leftover fallback (q, n) = let later = fall_back_all q.entries q in (later.0, n + later.1)

-- The queue afterwards, and how many jobs were finished.
unfoldable pub drain_all : ℕ → Option ℕ → Leftover → FinalizeQueue → FinalizeQueue × ℕ
unfolding reset_in_flight run_until finish_leftover
drain_all pid budget leftover q =
    let reset = reset_in_flight pid q in
    finish_leftover leftover (run_until budget reset.entries reset)

unfoldable pub stop : FinalizeQueue → FinalizeQueue
stop q = record q { stopping = true }

-- `_at_fork_reinit`, in the child.
unfoldable pub at_fork_reinit : FinalizeQueue → FinalizeQueue
at_fork_reinit q = record q { entries = []; bytes = 0; in_flight = 0; in_flight_pid = none }
