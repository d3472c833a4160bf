-- ===== src/Finalize/Tests.antt =====
-- Witnesses of the theorems on the finalize queue.
use wardex_sdk.Prelude.{◌≡◌, refl, some, [], ◌∷◌, ◌++◌, map}
use wardex_sdk.Finalize.Queue.{Job, FinalizeQueue, ran, gives, refuses, submit}
use wardex_sdk.Finalize.Drain.{fallback, drain_all}
use wardex_sdk.Finalize.Threads.{
  Threads, worker_take, worker_finish, submitted, worker_took, worker_finished, fresh_queue, fresh,
  Reach, start, later,
}
use wardex_sdk.Finalize.Running.{IsRunning, Reach-IsRunning}
use wardex_sdk.Finalize.Places.{count, places, places-Reach}
use wardex_sdk.Finalize.Leftovers.{
  IsDrained, queued_after, done_after, begun, left, drain_all-IsDrained,
}

abbrev first : Job
first = record { jid = 1; size = 30; scope = 0; run = gives 5; fallback = gives 6 }

abbrev second : Job
second = record { jid = 2; size = 20; scope = 1; run = refuses; fallback = gives 7 }

abbrev one_submitted : Threads
one_submitted = record (fresh 4 40) { queue = submit first (fresh 4 40).queue }

abbrev one_taken : Threads
one_taken = worker_take 9 one_submitted.queue.entries one_submitted

abbrev one_more : Threads
one_more = record one_taken { queue = submit second one_taken.queue }

abbrev one_done : Threads
one_done = worker_finish first [] one_more

one_done-Reach : Reach 4 40 (second ∷ first ∷ []) one_done
unfolding worker_take fresh fresh_queue submit
one_done-Reach =
    later (second ∷ first ∷ []) [] one_more one_done
      (later (first ∷ []) (second ∷ []) one_taken one_more
        (later (first ∷ []) [] one_submitted one_taken
          (later [] (first ∷ []) (fresh 4 40) one_submitted start (submitted first))
          (worker_took 9))
        (submitted second))
      (worker_finished first [] [] refl)

Reach-IsRunning_example :
    IsRunning one_done × (one_done.queue.max_jobs ≡ 4) × (one_done.queue.max_bytes ≡ 40)
Reach-IsRunning_example = Reach-IsRunning 4 40 (second ∷ first ∷ []) one_done one_done-Reach

places-Reach_example : places 1 one_done ≡ count 1 (second ∷ first ∷ [])
places-Reach_example = places-Reach 1 4 40 (second ∷ first ∷ []) one_done one_done-Reach

abbrev two_queued : FinalizeQueue
two_queued = record (fresh_queue 4 60) { entries = first ∷ second ∷ []; bytes = 50 }

drain_all-IsDrained_example :
    IsDrained two_queued.finished
      (queued_after fallback (left (some 1) two_queued.entries))
      (map ran (begun (some 1) two_queued.entries)
        ++ done_after fallback (left (some 1) two_queued.entries))
      (drain_all 3 (some 1) fallback two_queued)
drain_all-IsDrained_example = drain_all-IsDrained 3 (some 1) fallback two_queued
