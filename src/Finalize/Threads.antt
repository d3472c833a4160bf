-- ===== src/Finalize/Threads.antt =====
-- The queue between threads: the callers that submit, the worker, and those that drain. A step is
-- what one of them does under the lock, or the finish of a job outside of it.
use wardex_sdk.Prelude.{
  ℕ, ◌+◌, ◌-◌, ◌≡◌, Bool, true, false, none, some, List, [], ◌∷◌, ◌++◌, nat_eq, if◌then◌else◌,
}
use wardex_sdk.Finalize.Queue.{FinalizeQueue, Job, pop_left, fallback_now, submit}
use wardex_sdk.Finalize.Drain.{run_one, stop, at_fork_reinit}
use wardex_sdk.Assembly.Integrity.{Limitation}

-- The queue with the jobs that threads have taken and not finished: the worker's, and those of the
-- threads that drain. `to_parent` has what forks left to the process that forked.
pub record Threads : Type 0 where
  pub queue : FinalizeQueue
  pub at_worker : List Job
  pub at_drains : List Job
  pub to_parent : List Job

-- The first block of `_run_pending`, which the worker of process `pid` enters.
unfoldable pub worker_take : ℕ → List Job → Threads → Threads
unfolding pop_left
worker_take pid [] t = t
worker_take pid (j ∷ rest) t =
    let q = pop_left (j ∷ rest) t.queue in
    if t.queue.stopping then t else record t {
      queue = record q { in_flight = q.in_flight + 1; in_flight_pid = some pid };
      at_worker = j ∷ t.at_worker;
    }

-- The pid after a decrement.
unfoldable pub settle_pid : FinalizeQueue → FinalizeQueue
settle_pid q = if nat_eq q.in_flight 0 then record q { in_flight_pid = none } else q

-- `_run_one` and the block that follows it, for a job of the worker, with those it is left with.
unfoldable pub worker_finish : Job → List Job → Threads → Threads
unfolding run_one settle_pid
worker_finish j rest t =
    let q = run_one j t.queue in
    record t { queue = settle_pid (record q { in_flight = q.in_flight - 1 }); at_worker = rest }

-- The pop of either loop of `drain_all`.
unfoldable pub drain_take : List Job → Threads → Threads
unfolding pop_left
drain_take [] t = t
drain_take (j ∷ rest) t = record t {
  queue = pop_left (j ∷ rest) t.queue;
  at_drains = t.at_drains ++ (j ∷ []);
}

-- A drain finishes a job by its parse, or without it where the process is ending.
unfoldable pub drain_finish : Bool → Job → List Job → Threads → Threads
unfolding run_one fallback_now
drain_finish true j rest t = record t { queue = run_one j t.queue; at_drains = rest }
drain_finish false j rest t =
    let q = record t.queue { shut_down = t.queue.shut_down + 1 } in
    record t { queue = fallback_now Limitation.parse_skipped_at_shutdown j q; at_drains = rest }

-- A fork, in the child: no thread crosses it.
unfoldable pub fork : Threads → Threads
unfolding at_fork_reinit
fork t = record {
  queue = at_fork_reinit t.queue;
  at_worker = [];
  at_drains = [];
  to_parent = t.queue.entries ++ (t.at_worker ++ (t.at_drains ++ t.to_parent));
}

-- What a thread may do next, with the jobs that it submits.
pub data Step (t : Threads) : List Job → Threads → Type 0 where
  submitted : (j : Job) → Step t (j ∷ []) (record t { queue = submit j t.queue })
  worker_took : (pid : ℕ) → Step t [] (worker_take pid t.queue.entries t)
  worker_finished :
      (j : Job) (front back : List Job)
      → t.at_worker ≡ front ++ (j ∷ back)
      → Step t [] (worker_finish j (front ++ back) t)
  drain_took : Step t [] (drain_take t.queue.entries t)
  drain_finished :
      (parse : Bool) (j : Job) (front back : List Job)
      → t.at_drains ≡ front ++ (j ∷ back)
      → Step t [] (drain_finish parse j (front ++ back) t)
  stopped : Step t [] (record t { queue = stop t.queue })
  forked : Step t [] (fork t)

-- The queue as `__init__` makes it.
unfoldable pub fresh_queue : ℕ → ℕ → FinalizeQueue
fresh_queue max_jobs max_bytes = record {
  max_jobs = max_jobs;
  max_bytes = max_bytes;
  entries = [];
  bytes = 0;
  stopping = false;
  in_flight = 0;
  in_flight_pid = none;
  evicted = 0;
  shut_down = 0;
  finished = [];
}

unfoldable pub fresh : ℕ → ℕ → Threads
unfolding fresh_queue
fresh max_jobs max_bytes = record {
  queue = fresh_queue max_jobs max_bytes;
  at_worker = [];
  at_drains = [];
  to_parent = [];
}

-- The states that the queue gets to, with all jobs submitted so far.
pub data Reach (max_jobs max_bytes : ℕ) : List Job → Threads → Type 0 where
  start : Reach max_jobs max_bytes [] (fresh max_jobs max_bytes)
  later :
      (js ks : List Job) (t u : Threads)
      → Reach max_jobs max_bytes js t
      → Step t ks u
      → Reach max_jobs max_bytes (ks ++ js) u
