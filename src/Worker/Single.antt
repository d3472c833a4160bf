-- ===== src/Worker/Single.antt =====
-- There is one live worker thread at most.
use wardex_sdk.Prelude.{
  ℕ, ◌+◌, ◌≤◌, not, ◌&&◌, Option, none, some, List, [], ◌∷◌, length, arith, holds_if, includes,
  remove,
}
use wardex_sdk.Worker.Spawn.{
  Frame, starting, ensuring, entering, marking, making, made, publishing, stamping, published,
  leaving, BatchWorker, start, stop, run_test, run_drain, die, fork, at_fork_reinit,
}
use wardex_sdk.Worker.Life.{
  Step, started, ensured, advanced, stopped_now, tested, drained, died, forked, forked_with_hook,
  fresh_worker, Reach, begin, further,
}
use wardex_sdk.Worker.Standing.{
  Alone, Standing, Framed, Locked, IsSingle, Alone-remove, remove-none,
}
use wardex_sdk.Worker.Inside.{start-IsSingle, ensure-IsSingle, advance-IsSingle}

Standing-remove :
    (t : ℕ) (f : Frame) (spawning : Option ℕ) (pid : ℕ) (live : List ℕ) (thread for_pid : Option ℕ)
    → Standing f spawning pid live thread for_pid
    → Standing f spawning pid (remove t live) thread for_pid
Standing-remove t starting spawning pid live thread for_pid h = tt
Standing-remove t ensuring spawning pid live thread for_pid h = tt
Standing-remove t entering spawning pid live thread for_pid h = remove-none t live h
Standing-remove t marking spawning pid live thread for_pid h = remove-none t live h
Standing-remove t making spawning pid live thread for_pid h = (h.0, remove-none t live h.1)
Standing-remove t (made u) spawning pid live thread for_pid h = (h.0, remove-none t live h.1)
Standing-remove t (publishing u) spawning pid live thread for_pid h = (h.0, remove-none t live h.1)
Standing-remove t (stamping u) spawning pid live thread for_pid h =
    (h.0, remove-none t live h.1, h.2)
Standing-remove t (published u) spawning pid live thread for_pid h =
    (h.0, remove-none t live h.1, h.2, h.3)
Standing-remove t leaving spawning pid live thread for_pid h = h

Framed-remove :
    (t : ℕ) (frames : List Frame) (spawning : Option ℕ) (pid : ℕ) (live : List ℕ)
    (thread for_pid : Option ℕ)
    → Framed frames spawning pid live thread for_pid
    → Framed frames spawning pid (remove t live) thread for_pid
Framed-remove t [] spawning pid live thread for_pid h = tt
Framed-remove t (f ∷ []) spawning pid live thread for_pid h =
    Standing-remove t f spawning pid live thread for_pid h
Framed-remove t (g ∷ f ∷ []) spawning pid live thread for_pid h =
    (h.0, h.1, Standing-remove t f spawning pid live thread for_pid h.2)
Framed-remove t (g ∷ f ∷ e ∷ frames) spawning pid live thread for_pid h = elim h [ ]

remove-IsSingle :
    (t : ℕ) (w : BatchWorker) → IsSingle w → IsSingle (record w { live = remove t w.live })
remove-IsSingle t w h = (
  Alone-remove t w.live w.thread w.thread_for_pid w.pid h.0,
  h.1,
  Framed-remove t w.frames w.spawning_pid w.pid w.live w.thread w.thread_for_pid h.2,
)

Locked-none : (holder : Option ℕ) → Locked holder []
Locked-none none = tt
Locked-none (some h) = tt

Step-IsSingle : (w v : BatchWorker) → IsSingle w → Step w v → IsSingle v
unfolding start stop run_test run_drain die fork at_fork_reinit
Step-IsSingle w _ h (started t) = start-IsSingle t w h
Step-IsSingle w _ h (ensured t) = ensure-IsSingle t w h
Step-IsSingle w _ h advanced = advance-IsSingle w.frames w h h.1 h.2
Step-IsSingle w _ h stopped_now = h
Step-IsSingle w _ h (tested t) =
    holds_if IsSingle (includes t w.live && not (includes t w.passing)) _ w
      (λ _.
        holds_if IsSingle w.stopped (record w { live = remove t w.live })
          (record w { passing = t ∷ w.passing }) (λ _. remove-IsSingle t w h) (λ _. h))
      (λ _. h)
Step-IsSingle w _ h (drained t) =
    holds_if IsSingle (includes t w.passing)
      (record w { passing = remove t w.passing; drains = w.drains + 1 }) w (λ _. h) (λ _. h)
Step-IsSingle w _ h (died t) = remove-IsSingle t w h
Step-IsSingle w _ h (forked pid other_thread other_spawn) = (tt, Locked-none w.holder, tt)
Step-IsSingle w _ h (forked_with_hook pid) = (tt, tt, tt)

Alone-length : (live : List ℕ) (th tp : Option ℕ) (pid : ℕ) → Alone live th tp pid → length live ≤ 1
Alone-length [] th tp pid h = omega arith
Alone-length (t ∷ []) th tp pid h = omega arith
Alone-length (t ∷ (_ ∷ _)) th tp pid h = elim h [ ]

Reach-IsSingle : (pid : ℕ) (w : BatchWorker) → Reach pid w → IsSingle w
unfolding fresh_worker
Reach-IsSingle pid _ begin = (tt, tt, tt)
Reach-IsSingle pid _ (further w v r s) = Step-IsSingle w v (Reach-IsSingle pid w r) s

-- However starts, respawns, deaths, rounds, stops and forks interleave, and wherever from the making of
-- the thread to the end of a spawn a finalizer calls `start` or `ensure_alive` on the spawning thread, a
-- process has one live worker thread at most, and a thread that lives is the published one, of this
-- process.
pub live-length :
    (pid : ℕ) (w : BatchWorker)
    → Reach pid w
    → (length w.live ≤ 1) × Alone w.live w.thread w.thread_for_pid w.pid
live-length pid w r =
    let single = Reach-IsSingle pid w r in
    (Alone-length w.live w.thread w.thread_for_pid w.pid single.0, single.0)
