-- ===== src/Worker/Forked.antt =====
-- What a call of `ensure_alive` does to its end, and whether a fork's child gets its worker back by one.
use wardex_sdk.Prelude.{
  ℕ, zero, suc, ◌+◌, ◌≡◌, ◌∙◌, refl, ap, Bool, true, false, ◌&&◌, ◌||◌, Option, none, some, [], ◌∷◌,
  nat_eq, nat_eq_iff, and_true, if◌then◌else◌, if_false, includes,
}
use wardex_sdk.Worker.Spawn.{
  ensuring, entering, marking, making, made, publishing, stamping, published, leaving, BatchWorker,
  has_pid, runs, is_alive, spawn_in_flight, may_enter, enter, ensure_alive, leave, resume, advance,
  fork, at_fork_reinit,
}

-- A call inside the lock to its end, where nothing comes between.
unfoldable pub finish_call : ℕ → BatchWorker → BatchWorker
unfolding advance
finish_call zero w = w
finish_call (suc parts) w = finish_call parts (advance w.frames w)

-- A whole call of `ensure_alive`: its spawn has nine parts.
unfoldable pub ensured_by : ℕ → BatchWorker → BatchWorker
unfolding ensure_alive finish_call
ensured_by t w = finish_call 9 (ensure_alive t w)

-- The worker after the spawn.
spawned : BatchWorker → BatchWorker
spawned w = record w {
  thread = some w.next_thread;
  thread_for_pid = some w.pid;
  spawning_pid = none;
  holder = none;
  frames = [];
  live = w.next_thread ∷ w.live;
  next_thread = w.next_thread + 1;
}

spawned-alive : (w : BatchWorker) → is_alive (spawned w) ≡ true
unfolding spawned is_alive has_pid runs includes
spawned-alive w =
    and_true (nat_eq w.pid w.pid)
      (nat_eq w.next_thread w.next_thread || includes w.next_thread w.live)
      ((nat_eq_iff w.pid w.pid).1 refl)
      (ap (λ b. b || includes w.next_thread w.live)
        ((nat_eq_iff w.next_thread w.next_thread).1 refl))

-- One part of a call.
finish_call-zero : (w : BatchWorker) → finish_call 0 w ≡ w
unfolding finish_call
finish_call-zero w = refl

module _ (parts : ℕ) where
  finish_call-advance :
      (w v : BatchWorker) → advance w.frames w ≡ v → finish_call (suc parts) w ≡ finish_call parts v
  unfolding finish_call
  finish_call-advance w v e = ap (finish_call parts) e

module _ (w : BatchWorker) (running : w.stopped ≡ false) where
  advance-ensuring :
      is_alive w ≡ false
      → spawn_in_flight w ≡ false
      → advance (ensuring ∷ []) w ≡ record w { frames = entering ∷ [] }
  unfolding advance resume
  advance-ensuring dead idle =
      if_false (w.stopped || (is_alive w || spawn_in_flight w)) (leave [] w)
        (record w { frames = entering ∷ [] }) (rw (running, dead, idle) refl)

  advance-entering : advance (entering ∷ []) w ≡ record w { frames = marking ∷ [] }
  unfolding advance resume
  advance-entering = if_false w.stopped (leave [] w) (record w { frames = marking ∷ [] }) running

  advance-made : (u : ℕ) → advance (made u ∷ []) w ≡ record w { frames = publishing u ∷ [] }
  unfolding advance resume
  advance-made u =
      if_false w.stopped (record w { frames = leaving ∷ [] })
        (record w { frames = publishing u ∷ [] }) running

-- The parts of a spawn before the thread is made, and the thread.
making_of : BatchWorker → BatchWorker
making_of w = record w { spawning_pid = some w.pid; frames = making ∷ [] }

made_of : BatchWorker → BatchWorker
made_of w = record w {
  spawning_pid = some w.pid;
  next_thread = w.next_thread + 1;
  frames = made w.next_thread ∷ [];
}

finish_call-entering :
    (w : BatchWorker)
    → w.stopped ≡ false
    → w.frames ≡ entering ∷ []
    → finish_call 8 w ≡ finish_call 5 (made_of w)
unfolding making_of made_of advance resume
finish_call-entering w running at =
    finish_call-advance 7 w (record w { frames = marking ∷ [] })
      (ap (λ frames. advance frames w) at ∙ advance-entering w running)
    ∙ finish_call-advance 6 (record w { frames = marking ∷ [] }) (making_of w) refl
    ∙ finish_call-advance 5 (making_of w) (made_of w) refl

-- The parts after it.
publishing_of : BatchWorker → BatchWorker
publishing_of w = record w {
  spawning_pid = some w.pid;
  next_thread = w.next_thread + 1;
  frames = publishing w.next_thread ∷ [];
}

stamping_of : BatchWorker → BatchWorker
stamping_of w = record w {
  thread = some w.next_thread;
  spawning_pid = some w.pid;
  next_thread = w.next_thread + 1;
  frames = stamping w.next_thread ∷ [];
}

published_of : BatchWorker → BatchWorker
published_of w = record w {
  thread = some w.next_thread;
  thread_for_pid = some w.pid;
  spawning_pid = some w.pid;
  next_thread = w.next_thread + 1;
  frames = published w.next_thread ∷ [];
}

leaving_of : BatchWorker → BatchWorker
leaving_of w = record w {
  thread = some w.next_thread;
  thread_for_pid = some w.pid;
  spawning_pid = some w.pid;
  live = w.next_thread ∷ w.live;
  next_thread = w.next_thread + 1;
  frames = leaving ∷ [];
}

finish_call-made : (w : BatchWorker) → w.stopped ≡ false → finish_call 5 (made_of w) ≡ spawned w
unfolding made_of publishing_of stamping_of published_of leaving_of spawned advance resume leave
finish_call-made w running =
    finish_call-advance 4 (made_of w) (publishing_of w)
      (advance-made (made_of w) running w.next_thread)
    ∙ finish_call-advance 3 (publishing_of w) (stamping_of w) refl
    ∙ finish_call-advance 2 (stamping_of w) (published_of w) refl
    ∙ finish_call-advance 1 (published_of w) (leaving_of w) refl
    ∙ finish_call-advance 0 (leaving_of w) (spawned w) refl
    ∙ finish_call-zero (spawned w)

-- A worker that runs no thread and whose lock is free gets one.
module _ (t : ℕ) (w : BatchWorker) (running : w.stopped ≡ false) (dead : is_alive w ≡ false) where
  ensure_alive-enter : ensure_alive t w ≡ enter t ensuring w
  unfolding ensure_alive
  ensure_alive-enter =
      if_false (w.stopped || is_alive w) w (enter t ensuring w) (rw (running, dead) refl)

  enter_free :
      w.holder ≡ none
      → w.frames ≡ []
      → enter t ensuring w ≡ record w { holder = some t; frames = ensuring ∷ [] }
  unfolding enter may_enter
  enter_free free outside =
      ap
        (λ holder.
          if may_enter t holder w.frames
          then record w { holder = some t; frames = ensuring ∷ w.frames }
          else w)
        free
      ∙ ap (λ frames. record w { holder = some t; frames = ensuring ∷ frames }) outside

  ensured_by_free :
      spawn_in_flight w ≡ false → w.holder ≡ none → w.frames ≡ [] → ensured_by t w ≡ spawned w
  unfolding ensured_by spawned is_alive spawn_in_flight
  ensured_by_free idle free outside =
      let entered = record w { holder = some t; frames = ensuring ∷ [] } in
      ap (finish_call 9) (ensure_alive-enter ∙ enter_free free outside)
      ∙ finish_call-advance 8 entered (record entered { frames = entering ∷ [] })
          (advance-ensuring entered running dead idle)
      ∙ finish_call-entering (record entered { frames = entering ∷ [] }) running refl
      ∙ finish_call-made (record entered { frames = entering ∷ [] }) running

-- A worker whose lock is with a thread that is not there gets none.
finish_call-outside : (parts : ℕ) (w : BatchWorker) → w.frames ≡ [] → finish_call parts w ≡ w
unfolding finish_call advance
finish_call-outside zero w outside = refl
finish_call-outside (suc parts) w outside =
    ap (λ frames. finish_call parts (advance frames w)) outside
    ∙ finish_call-outside parts w outside

enter_held :
    (t h : ℕ) (w : BatchWorker) → w.holder ≡ some h → w.frames ≡ [] → enter t ensuring w ≡ w
unfolding enter may_enter
enter_held t h w held outside =
    if_false (may_enter t w.holder w.frames)
      (record w { holder = some t; frames = ensuring ∷ w.frames }) w (rw (held, outside) refl)

ensured_by_held :
    (t h : ℕ) (w : BatchWorker)
    → w.stopped ≡ false
    → is_alive w ≡ false
    → w.holder ≡ some h
    → w.frames ≡ []
    → ensured_by t w ≡ w
unfolding ensured_by
ensured_by_held t h w running dead held outside =
    ap (finish_call 9) (ensure_alive-enter t w running dead ∙ enter_held t h w held outside)
    ∙ finish_call-outside 9 w outside

unfoldable pub is_free : Option ℕ → Bool
is_free none = true
is_free (some h) = false

fork-dead :
    (pid : ℕ) (w : BatchWorker)
    → has_pid pid w.thread_for_pid ≡ false
    → is_alive (fork pid w) ≡ false
unfolding is_alive fork
fork-dead pid w other_thread = ap (λ b. b && runs w.thread []) other_thread

fork-ensured_by :
    (t pid : ℕ) (w : BatchWorker) (holder : Option ℕ)
    → w.stopped ≡ false
    → has_pid pid w.thread_for_pid ≡ false
    → has_pid pid w.spawning_pid ≡ false
    → w.holder ≡ holder
    → is_alive (ensured_by t (fork pid w)) ≡ is_free holder
unfolding is_free fork spawn_in_flight
fork-ensured_by t pid w none running other_thread other_spawn free =
    ap is_alive
      (ensured_by_free t (fork pid w) running (fork-dead pid w other_thread) other_spawn free refl)
    ∙ spawned-alive (fork pid w)
fork-ensured_by t pid w (some h) running other_thread other_spawn held =
    let dead = fork-dead pid w other_thread in
    ap is_alive (ensured_by_held t h (fork pid w) running dead held refl) ∙ dead

hook-ensured_by :
    (t : ℕ) (w : BatchWorker)
    → w.stopped ≡ false
    → w.frames ≡ []
    → is_alive (ensured_by t (at_fork_reinit w)) ≡ true
unfolding at_fork_reinit is_alive spawn_in_flight has_pid
hook-ensured_by t w running outside =
    ap is_alive (ensured_by_free t (at_fork_reinit w) running refl refl refl outside)
    ∙ spawned-alive (at_fork_reinit w)

-- In the child of a fork of a worker that was not asked to stop, whatever the worker was doing, and
-- where nothing comes between: after the hook ran, one call of `ensure_alive` by any thread brings the
-- worker back. Where it did not run, and the worker remembers no thread and no spawn under the child's
-- process id, that call brings it back exactly where the lock was free at the fork.
pub is_alive-fork :
    (t pid : ℕ) (w : BatchWorker)
    → w.stopped ≡ false
    → has_pid pid w.thread_for_pid ≡ false
    → has_pid pid w.spawning_pid ≡ false
    → (is_alive (ensured_by t (at_fork_reinit (fork pid w))) ≡ true)
      × (is_alive (ensured_by t (fork pid w)) ≡ is_free w.holder)
unfolding fork
is_alive-fork t pid w running other_thread other_spawn = (
  hook-ensured_by t (fork pid w) running refl,
  fork-ensured_by t pid w w.holder running other_thread other_spawn refl,
)
