-- ===== src/Worker/Spawn.antt =====
-- The worker's state and what its methods do to it, cut where another thread, a finalizer or a fork
-- may come between.
use wardex_sdk.Prelude.{
  ℕ, ◌+◌, Bool, true, false, ◌&&◌, ◌||◌, Option, none, some, List, [], ◌∷◌, nat_eq, includes,
  remove, not, if◌then◌else◌,
}

-- Where a call stands inside the spawn lock: before the test of `start` or of `ensure_alive`; in
-- `_spawn_locked` before its first test, before it stores the process id, before and after it makes the
-- thread, before each of its two assignments, before the thread starts, and before its `finally`.
pub data Frame : Type 0 where
  starting ensuring entering marking making : Frame
  made publishing stamping published : ℕ → Frame
  leaving : Frame

-- `holder` is the thread that has the spawn lock, and `frames` are its calls inside, the innermost
-- first. `live` are the threads that run `_run` in this process, `passing` those of them that are past
-- the test of a round, and `drains` counts the calls of the drain function that have returned. Threads
-- and processes are numbers.
pub record BatchWorker : Type 0 where
  pub stopped : Bool
  pub thread : Option ℕ
  pub thread_for_pid : Option ℕ
  pub spawning_pid : Option ℕ
  pub pid : ℕ
  pub holder : Option ℕ
  pub frames : List Frame
  pub live : List ℕ
  pub passing : List ℕ
  pub next_thread : ℕ
  pub drains : ℕ

unfoldable pub has_pid : ℕ → Option ℕ → Bool
has_pid pid none = false
has_pid pid (some p) = nat_eq p pid

-- `thread is not None and thread.is_alive()`.
unfoldable pub runs : Option ℕ → List ℕ → Bool
unfolding includes
runs none live = false
runs (some t) live = includes t live

unfoldable pub is_alive : BatchWorker → Bool
unfolding has_pid runs
is_alive w = has_pid w.pid w.thread_for_pid && runs w.thread w.live

unfoldable pub spawn_in_flight : BatchWorker → Bool
unfolding has_pid
spawn_in_flight w = has_pid w.pid w.spawning_pid

-- Where a finalizer may run on the holder's own thread: from the making of the thread, which
-- allocates, to the `finally`. Before it, between a test and the stored process id, none is assumed.
unfoldable pub can_reenter : Frame → Bool
can_reenter starting = false
can_reenter ensuring = false
can_reenter entering = false
can_reenter marking = false
can_reenter making = true
can_reenter (made t) = true
can_reenter (publishing t) = true
can_reenter (stamping t) = true
can_reenter (published t) = true
can_reenter leaving = true

-- The lock is re-entrant: a thread gets it where it is free, and its holder from within. A lock whose
-- holder did not cross a fork is never free.
unfoldable pub may_enter : ℕ → Option ℕ → List Frame → Bool
unfolding can_reenter
may_enter t none frames = true
may_enter t (some h) [] = false
may_enter t (some h) (f ∷ frames) = nat_eq h t && can_reenter f

-- `with self._spawn_lock`, by a thread; where it has to wait, nothing happens yet.
unfoldable pub enter : ℕ → Frame → BatchWorker → BatchWorker
unfolding may_enter
enter t f w =
    if may_enter t w.holder w.frames then record w { holder = some t; frames = f ∷ w.frames } else w

unfoldable pub start : ℕ → BatchWorker → BatchWorker
unfolding enter
start t w = enter t starting w

-- The test without the lock, and the lock.
unfoldable pub ensure_alive : ℕ → BatchWorker → BatchWorker
unfolding is_alive enter
ensure_alive t w = if w.stopped || is_alive w then w else enter t ensuring w

-- The end of the innermost call; the outermost one gives up the lock.
unfoldable pub leave : List Frame → BatchWorker → BatchWorker
leave [] w = record w { holder = none; frames = [] }
leave (f ∷ frames) w = record w { frames = f ∷ frames }

-- The next part of a call inside the lock, with the calls around it.
unfoldable pub resume : Frame → List Frame → BatchWorker → BatchWorker
unfolding is_alive spawn_in_flight leave
resume starting rest w =
    if is_alive w || spawn_in_flight w then leave rest w else record w { frames = entering ∷ rest }
resume ensuring rest w =
    if w.stopped || (is_alive w || spawn_in_flight w)
    then leave rest w
    else record w { frames = entering ∷ rest }
resume entering rest w = if w.stopped then leave rest w else record w { frames = marking ∷ rest }
resume marking rest w = record w { spawning_pid = some w.pid; frames = making ∷ rest }
resume making rest w = record w {
  frames = made w.next_thread ∷ rest;
  next_thread = w.next_thread + 1;
}
resume (made t) rest w =
    if w.stopped
    then record w { frames = leaving ∷ rest }
    else record w { frames = publishing t ∷ rest }
resume (publishing t) rest w = record w { thread = some t; frames = stamping t ∷ rest }
resume (stamping t) rest w = record w { thread_for_pid = some w.pid; frames = published t ∷ rest }
resume (published t) rest w = record w { live = t ∷ w.live; frames = leaving ∷ rest }
resume leaving rest w = leave rest (record w { spawning_pid = none })

-- The innermost call goes on.
unfoldable pub advance : List Frame → BatchWorker → BatchWorker
unfolding resume
advance [] w = w
advance (f ∷ rest) w = resume f rest w

unfoldable pub stop : BatchWorker → BatchWorker
stop w = record w { stopped = true }

-- The test of a round of `_run`, in a live thread that is in no round: it ends where the worker is
-- stopped, and goes on to the drain function else.
unfoldable pub run_test : ℕ → BatchWorker → BatchWorker
unfolding includes remove
run_test t w =
    if includes t w.live && not (includes t w.passing)
    then (if w.stopped
        then record w { live = remove t w.live }
        else record w { passing = t ∷ w.passing })
    else w

-- The rest of that round, the drain function.
unfoldable pub run_drain : ℕ → BatchWorker → BatchWorker
unfolding includes remove
run_drain t w =
    if includes t w.passing
    then record w { passing = remove t w.passing; drains = w.drains + 1 }
    else w

-- A thread that dies.
unfoldable pub die : ℕ → BatchWorker → BatchWorker
unfolding remove
die t w = record w { live = remove t w.live; passing = remove t w.passing }

-- A fork by a thread outside the lock, in the child: no other thread crosses it, and the lock stays
-- with its holder.
unfoldable pub fork : ℕ → BatchWorker → BatchWorker
fork pid w = record w { pid = pid; live = []; passing = []; frames = [] }

unfoldable pub at_fork_reinit : BatchWorker → BatchWorker
at_fork_reinit w = record w {
  holder = none;
  thread = none;
  thread_for_pid = none;
  spawning_pid = none;
}
