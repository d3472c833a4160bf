-- ===== src/Worker/Life.antt =====
-- The steps of a worker's life.
use wardex_sdk.Prelude.{ℕ, ◌≡◌, false, none, []}
use wardex_sdk.Worker.Spawn.{
  BatchWorker, ensuring, has_pid, start, enter, advance, stop, run_test, run_drain, die, fork,
  at_fork_reinit,
}

-- What may happen next. A call of `ensure_alive` gets the lock at any time after its first test. The
-- child of a fork has a process id that is not one the worker remembers; its hook runs or does not.
pub data Step (w : BatchWorker) : BatchWorker → Type 0 where
  started : (t : ℕ) → Step w (start t w)
  ensured : (t : ℕ) → Step w (enter t ensuring w)
  advanced : Step w (advance w.frames w)
  stopped_now : Step w (stop w)
  tested : (t : ℕ) → Step w (run_test t w)
  drained : (t : ℕ) → Step w (run_drain t w)
  died : (t : ℕ) → Step w (die t w)
  forked :
      (pid : ℕ)
      → has_pid pid w.thread_for_pid ≡ false
      → has_pid pid w.spawning_pid ≡ false
      → Step w (fork pid w)
  forked_with_hook : (pid : ℕ) → Step w (at_fork_reinit (fork pid w))

-- A worker as `__init__` makes it.
unfoldable pub fresh_worker : ℕ → BatchWorker
fresh_worker pid = record {
  stopped = false;
  thread = none;
  thread_for_pid = none;
  spawning_pid = none;
  pid = pid;
  holder = none;
  frames = [];
  live = [];
  passing = [];
  next_thread = 0;
  drains = 0;
}

pub data Reach (pid : ℕ) : BatchWorker → Type 0 where
  begin : Reach pid (fresh_worker pid)
  further : (w v : BatchWorker) → Reach pid w → Step w v → Reach pid v

-- A run from any state.
pub data Steps (w : BatchWorker) : BatchWorker → Type 0 where
  done : Steps w w
  more : (v u : BatchWorker) → Steps w v → Step v u → Steps w u
