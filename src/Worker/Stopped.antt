-- ===== src/Worker/Stopped.antt =====
-- After a stop no round begins, and no thread that is not past the spawn's second test.
use wardex_sdk.Prelude.{
  ℕ, ◌+◌, ◌≤◌, ◌≡◌, refl, true, not, ◌&&◌, ◌||◌, none, some, List, [], ◌∷◌, length, arith, holds_if,
  includes, remove, length-remove-le, length-remove-lt,
}
use wardex_sdk.Worker.Spawn.{
  Frame, starting, ensuring, entering, marking, making, made, publishing, stamping, published,
  leaving, BatchWorker, is_alive, spawn_in_flight, may_enter, enter, start, leave, resume, advance,
  stop, run_test, run_drain, die, fork, at_fork_reinit,
}
use wardex_sdk.Worker.Life.{
  Step, started, ensured, advanced, stopped_now, tested, drained, died, forked, forked_with_hook,
  Steps, done, more,
}

-- A call that will start its thread: it is past the second test of `_stopped`.
unfoldable pub will_start : Frame → ℕ
will_start starting = 0
will_start ensuring = 0
will_start entering = 0
will_start marking = 0
will_start making = 0
will_start (made t) = 0
will_start (publishing t) = 1
will_start (stamping t) = 1
will_start (published t) = 1
will_start leaving = 0

unfoldable pub starts_left : List Frame → ℕ
unfolding will_start
starts_left [] = 0
starts_left (f ∷ frames) = will_start f + starts_left frames

-- Stopped, with at most `n` calls of the drain function made or under way, and at most `m` threads
-- live or about to start.
pub record IsStopped (n m : ℕ) (w : BatchWorker) : Type 0 where
  pub stopped : w.stopped ≡ true
  pub drains : w.drains + length w.passing ≤ n
  pub threads : length w.live + starts_left w.frames ≤ m

module _ (n m : ℕ) where
  leave-IsStopped :
      (rest : List Frame) (w : BatchWorker)
      → w.stopped ≡ true
      → w.drains + length w.passing ≤ n
      → length w.live + starts_left rest ≤ m
      → IsStopped n m (leave rest w)
  unfolding leave
  leave-IsStopped [] w e d t = record { stopped = e; drains = d; threads = t }
  leave-IsStopped (f ∷ rest) w e d t = record { stopped = e; drains = d; threads = t }

  resume-IsStopped :
      (f : Frame) (rest : List Frame) (w : BatchWorker)
      → w.stopped ≡ true
      → w.drains + length w.passing ≤ n
      → length w.live + (will_start f + starts_left rest) ≤ m
      → IsStopped n m (resume f rest w)
  unfolding resume will_start starts_left
  resume-IsStopped starting rest w e d t =
      holds_if (IsStopped n m) (is_alive w || spawn_in_flight w) (leave rest w)
        (record w { frames = entering ∷ rest }) (λ _. leave-IsStopped rest w e d (omega (arith, t)))
        (λ _. record { stopped = e; drains = d; threads = omega (arith, t) })
  resume-IsStopped ensuring rest w e d t =
      holds_if (IsStopped n m) (w.stopped || (is_alive w || spawn_in_flight w)) (leave rest w)
        (record w { frames = entering ∷ rest }) (λ _. leave-IsStopped rest w e d (omega (arith, t)))
        (λ _. record { stopped = e; drains = d; threads = omega (arith, t) })
  resume-IsStopped entering rest w e d t =
      holds_if (IsStopped n m) w.stopped (leave rest w) (record w { frames = marking ∷ rest })
        (λ _. leave-IsStopped rest w e d (omega (arith, t)))
        (λ _. record { stopped = e; drains = d; threads = omega (arith, t) })
  resume-IsStopped marking rest w e d t = record {
    stopped = e;
    drains = d;
    threads = omega (arith, t);
  }
  resume-IsStopped making rest w e d t = record {
    stopped = e;
    drains = d;
    threads = omega (arith, t);
  }
  resume-IsStopped (made u) rest w e d t =
      holds_if (IsStopped n m) w.stopped (record w { frames = leaving ∷ rest })
        (record w { frames = publishing u ∷ rest })
        (λ _. record { stopped = e; drains = d; threads = omega (arith, t) }) (λ runs. absurd (cc))
  resume-IsStopped (publishing u) rest w e d t = record {
    stopped = e;
    drains = d;
    threads = omega (arith, t);
  }
  resume-IsStopped (stamping u) rest w e d t = record {
    stopped = e;
    drains = d;
    threads = omega (arith, t);
  }
  resume-IsStopped (published u) rest w e d t = record {
    stopped = e;
    drains = d;
    threads = omega (arith, t);
  }
  resume-IsStopped leaving rest w e d t =
      leave-IsStopped rest (record w { spawning_pid = none }) e d (omega (arith, t))

  advance-IsStopped :
      (frames : List Frame) (w : BatchWorker)
      → IsStopped n m w
      → length w.live + starts_left frames ≤ m
      → IsStopped n m (advance frames w)
  unfolding advance starts_left
  advance-IsStopped [] w h t = h
  advance-IsStopped (f ∷ rest) w h t = resume-IsStopped f rest w h.stopped h.drains t

  enter-IsStopped :
      (t : ℕ) (f : Frame) (w : BatchWorker)
      → will_start f ≡ 0
      → IsStopped n m w
      → IsStopped n m (enter t f w)
  unfolding enter starts_left
  enter-IsStopped t f w e h =
      holds_if (IsStopped n m) (may_enter t w.holder w.frames)
        (record w { holder = some t; frames = f ∷ w.frames }) w
        (λ _. record {
          stopped = h.stopped;
          drains = h.drains;
          threads = omega (arith, h.threads, e);
        })
        (λ _. h)

  Step-IsStopped : (w v : BatchWorker) → IsStopped n m w → Step w v → IsStopped n m v
  unfolding start stop run_test run_drain die fork at_fork_reinit will_start starts_left
  Step-IsStopped w _ h (started t) = enter-IsStopped t starting w refl h
  Step-IsStopped w _ h (ensured t) = enter-IsStopped t ensuring w refl h
  Step-IsStopped w _ h advanced = advance-IsStopped w.frames w h h.threads
  Step-IsStopped w _ h stopped_now = record {
    stopped = refl;
    drains = h.drains;
    threads = h.threads;
  }
  Step-IsStopped w _ h (tested t) =
      holds_if (IsStopped n m) (includes t w.live && not (includes t w.passing)) _ w
        (λ _.
          holds_if (IsStopped n m) w.stopped (record w { live = remove t w.live })
            (record w { passing = t ∷ w.passing })
            (λ _. record {
              stopped = h.stopped;
              drains = h.drains;
              threads = omega (arith, h.threads, length-remove-le t w.live);
            })
            (λ runs. let ends = h.stopped in absurd (cc)))
        (λ _. h)
  Step-IsStopped w _ h (drained t) =
      holds_if (IsStopped n m) (includes t w.passing)
        (record w { passing = remove t w.passing; drains = w.drains + 1 }) w
        (λ passes. record {
          stopped = h.stopped;
          drains = omega (arith, h.drains, length-remove-lt t w.passing passes);
          threads = h.threads;
        })
        (λ _. h)
  Step-IsStopped w _ h (died t) = record {
    stopped = h.stopped;
    drains = omega (arith, h.drains, length-remove-le t w.passing);
    threads = omega (arith, h.threads, length-remove-le t w.live);
  }
  Step-IsStopped w _ h (forked pid other_thread other_spawn) = record {
    stopped = h.stopped;
    drains = omega (arith, h.drains);
    threads = omega arith;
  }
  Step-IsStopped w _ h (forked_with_hook pid) = record {
    stopped = h.stopped;
    drains = omega (arith, h.drains);
    threads = omega arith;
  }

  Steps-IsStopped : (w v : BatchWorker) → IsStopped n m w → Steps w v → IsStopped n m v
  Steps-IsStopped w _ h done = h
  Steps-IsStopped w _ h (more v u s k) = Step-IsStopped v u (Steps-IsStopped w v h s) k

-- Once a worker was asked to stop, it stays stopped, in this process and in a fork's child: the drain
-- function is called again only by a thread that was past the test of its round, once by each, and no
-- more threads ever live than lived then or were past the second test of their spawn.
pub stop-IsStopped :
    (w v : BatchWorker)
    → Steps (stop w) v
    → IsStopped (w.drains + length w.passing) (length w.live + starts_left w.frames) v
unfolding stop
stop-IsStopped w v s =
    Steps-IsStopped (w.drains + length w.passing) (length w.live + starts_left w.frames) (stop w) v
      (record { stopped = refl; drains = omega arith; threads = omega arith }) s
