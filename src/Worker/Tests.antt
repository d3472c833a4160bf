-- ===== src/Worker/Tests.antt =====
-- Witnesses of the theorems on the batch worker.
use wardex_sdk.Prelude.{◌+◌, ◌≤◌, ◌≡◌, refl, true, false, length}
use wardex_sdk.Worker.Spawn.{
  BatchWorker, ensuring, is_alive, start, enter, advance, stop, run_test, run_drain, fork,
  at_fork_reinit,
}
use wardex_sdk.Worker.Life.{
  started, ensured, advanced, drained, fresh_worker, Reach, begin, further, Steps, done, more,
}
use wardex_sdk.Worker.Standing.{Alone}
use wardex_sdk.Worker.Single.{live-length}
use wardex_sdk.Worker.Stopped.{IsStopped, starts_left, stop-IsStopped}
use wardex_sdk.Worker.Forked.{ensured_by, is_free, is_alive-fork}

-- A worker in the middle of its first spawn, by thread 1.
abbrev asked : BatchWorker
asked = start 1 (fresh_worker 5)

abbrev spawning : BatchWorker
spawning = advance asked.frames asked

-- Thread 2 asks as well, and waits.
abbrev waiting : BatchWorker
waiting = enter 2 ensuring spawning

waiting-Reach : Reach 5 waiting
waiting-Reach =
    further spawning waiting
      (further asked spawning (further (fresh_worker 5) asked begin (started 1)) advanced)
      (ensured 2)

live-length_example :
    (length waiting.live ≤ 1) × Alone waiting.live waiting.thread waiting.thread_for_pid waiting.pid
live-length_example = live-length 5 waiting waiting-Reach

-- A worker whose thread is past the test of a round.
abbrev draining : BatchWorker
draining = run_test 0 (ensured_by 1 (fresh_worker 5))

-- The round goes on after the stop, and a thread asks for the worker.
abbrev drained_once : BatchWorker
drained_once = run_drain 0 (stop draining)

abbrev after_stop : BatchWorker
after_stop = advance (enter 2 ensuring drained_once).frames (enter 2 ensuring drained_once)

after_stop-Steps : Steps (stop draining) after_stop
after_stop-Steps =
    let asking = enter 2 ensuring drained_once in
    more asking after_stop
      (more drained_once asking (more (stop draining) drained_once done (drained 0)) (ensured 2))
      advanced

stop-IsStopped_example :
    IsStopped
      (draining.drains + length draining.passing)
      (length draining.live + starts_left draining.frames)
      after_stop
stop-IsStopped_example = stop-IsStopped draining after_stop after_stop-Steps

-- The fork comes in the middle of the spawn, with the lock held.
is_alive-fork_example :
    (is_alive (ensured_by 3 (at_fork_reinit (fork 6 waiting))) ≡ true)
    × (is_alive (ensured_by 3 (fork 6 waiting)) ≡ false)
unfolding is_free enter advance start fresh_worker
is_alive-fork_example = is_alive-fork 3 6 waiting refl refl refl
