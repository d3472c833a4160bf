-- ===== src/Worker/Inside.antt =====
-- Calls that get the spawn lock, and the parts of a spawn.
use wardex_sdk.Prelude.{
  ℕ, ◌≡◌, refl, true, ◌||◌, Option, none, some, List, [], ◌∷◌, nat_eq, both_true, holds_if,
}
use wardex_sdk.Worker.Spawn.{
  Frame, starting, ensuring, entering, marking, making, made, publishing, stamping, published,
  leaving, BatchWorker, is_alive, spawn_in_flight, can_reenter, may_enter, enter, leave, resume,
  advance,
}
use wardex_sdk.Worker.Standing.{
  Alone, Standing, IsTesting, Framed, Locked, IsSingle, Alone-none, Alone-one, both_ways, dead-none,
  or_false, locked, outer, in_flight,
}

reenter-Standing :
    (f : Frame) (spawning : Option ℕ) (pid : ℕ) (live : List ℕ) (thread for_pid : Option ℕ)
    → can_reenter f ≡ true
    → Standing f spawning pid live thread for_pid
    → spawning ≡ some pid
unfolding can_reenter
reenter-Standing starting spawning pid live thread for_pid e h = absurd (cc)
reenter-Standing ensuring spawning pid live thread for_pid e h = absurd (cc)
reenter-Standing entering spawning pid live thread for_pid e h = absurd (cc)
reenter-Standing marking spawning pid live thread for_pid e h = absurd (cc)
reenter-Standing making spawning pid live thread for_pid e h = h.0
reenter-Standing (made t) spawning pid live thread for_pid e h = h.0
reenter-Standing (publishing t) spawning pid live thread for_pid e h = h.0
reenter-Standing (stamping t) spawning pid live thread for_pid e h = h.0
reenter-Standing (published t) spawning pid live thread for_pid e h = h.0
reenter-Standing leaving spawning pid live thread for_pid e h = h

-- A call that enters.
enter-Framed :
    (t : ℕ) (g : Frame) (holder : Option ℕ) (frames : List Frame) (spawning : Option ℕ) (pid : ℕ)
    (live : List ℕ) (thread for_pid : Option ℕ)
    → IsTesting g
    → Standing g spawning pid live thread for_pid
    → may_enter t holder frames ≡ true
    → Locked holder frames
    → Framed frames spawning pid live thread for_pid
    → Framed (g ∷ frames) spawning pid live thread for_pid
unfolding may_enter can_reenter
enter-Framed t g none [] spawning pid live thread for_pid tests k e l h = k
enter-Framed t g none (f ∷ frames) spawning pid live thread for_pid tests k e l h = elim l [ ]
enter-Framed t g (some o) [] spawning pid live thread for_pid tests k e l h = k
enter-Framed t g (some o) (f ∷ []) spawning pid live thread for_pid tests k e l h =
    (tests, (both_true (nat_eq o t) (can_reenter f) e).1, h)
enter-Framed t g (some o) (starting ∷ f ∷ []) spawning pid live thread for_pid tests k e l h =
    absurd
      (both_ways (can_reenter starting) ((both_true (nat_eq o t) (can_reenter starting) e).1) refl)
enter-Framed t g (some o) (ensuring ∷ f ∷ []) spawning pid live thread for_pid tests k e l h =
    absurd
      (both_ways (can_reenter ensuring) ((both_true (nat_eq o t) (can_reenter ensuring) e).1) refl)
enter-Framed t g (some o) (entering ∷ f ∷ []) spawning pid live thread for_pid tests k e l h =
    elim h.0 [ ]
enter-Framed t g (some o) (marking ∷ f ∷ []) spawning pid live thread for_pid tests k e l h =
    elim h.0 [ ]
enter-Framed t g (some o) (making ∷ f ∷ []) spawning pid live thread for_pid tests k e l h =
    elim h.0 [ ]
enter-Framed t g (some o) (made u ∷ f ∷ []) spawning pid live thread for_pid tests k e l h =
    elim h.0 [ ]
enter-Framed t g (some o) (publishing u ∷ f ∷ []) spawning pid live thread for_pid tests k e l h =
    elim h.0 [ ]
enter-Framed t g (some o) (stamping u ∷ f ∷ []) spawning pid live thread for_pid tests k e l h =
    elim h.0 [ ]
enter-Framed t g (some o) (published u ∷ f ∷ []) spawning pid live thread for_pid tests k e l h =
    elim h.0 [ ]
enter-Framed t g (some o) (leaving ∷ f ∷ []) spawning pid live thread for_pid tests k e l h =
    elim h.0 [ ]
enter-Framed t g (some o) (a ∷ f ∷ b ∷ frames) spawning pid live thread for_pid tests k e l h =
    elim h [ ]

pub start-IsSingle : (t : ℕ) (w : BatchWorker) → IsSingle w → IsSingle (enter t starting w)
unfolding enter
start-IsSingle t w h =
    holds_if IsSingle (may_enter t w.holder w.frames)
      (record w { holder = some t; frames = starting ∷ w.frames }) w
      (λ e. (
        h.0,
        tt,
        enter-Framed t starting w.holder w.frames w.spawning_pid w.pid w.live w.thread
            w.thread_for_pid tt tt e h.1 h.2,
      ))
      (λ _. h)

pub ensure-IsSingle : (t : ℕ) (w : BatchWorker) → IsSingle w → IsSingle (enter t ensuring w)
unfolding enter
ensure-IsSingle t w h =
    holds_if IsSingle (may_enter t w.holder w.frames)
      (record w { holder = some t; frames = ensuring ∷ w.frames }) w
      (λ e. (
        h.0,
        tt,
        enter-Framed t ensuring w.holder w.frames w.spawning_pid w.pid w.live w.thread
            w.thread_for_pid tt tt e h.1 h.2,
      ))
      (λ _. h)

-- A call that is alone inside the lock goes on.
resume-IsSingle :
    (f : Frame) (w : BatchWorker)
    → Alone w.live w.thread w.thread_for_pid w.pid
    → Locked w.holder (f ∷ [])
    → Standing f w.spawning_pid w.pid w.live w.thread w.thread_for_pid
    → IsSingle (resume f [] w)
unfolding resume leave is_alive
resume-IsSingle starting w a l h =
    holds_if IsSingle (is_alive w || spawn_in_flight w) _ (record w { frames = entering ∷ [] })
      (λ _. (a, tt, tt))
      (λ e. (
        a,
        locked w.holder starting entering l,
        dead-none w.live w.thread w.thread_for_pid w.pid a
            (or_false (is_alive w) (spawn_in_flight w) e).0,
      ))
resume-IsSingle ensuring w a l h =
    holds_if IsSingle (w.stopped || (is_alive w || spawn_in_flight w)) _
      (record w { frames = entering ∷ [] }) (λ _. (a, tt, tt))
      (λ e. (
        a,
        locked w.holder ensuring entering l,
        dead-none w.live w.thread w.thread_for_pid w.pid a
            (or_false (is_alive w) (spawn_in_flight w)
              (or_false w.stopped (is_alive w || spawn_in_flight w) e).1).0,
      ))
resume-IsSingle entering w a l h =
    holds_if IsSingle w.stopped _ (record w { frames = marking ∷ [] }) (λ _. (a, tt, tt))
      (λ _. (a, locked w.holder entering marking l, h))
resume-IsSingle marking w a l h = (a, locked w.holder marking making l, (refl, h))
resume-IsSingle making w a l h = (a, locked w.holder making (made w.next_thread) l, h)
resume-IsSingle (made t) w a l h =
    holds_if IsSingle w.stopped (record w { frames = leaving ∷ [] })
      (record w { frames = publishing t ∷ [] }) (λ _. (a, locked w.holder (made t) leaving l, h.0))
      (λ _. (a, locked w.holder (made t) (publishing t) l, h))
resume-IsSingle (publishing t) w a l h = (
  Alone-none w.live (some t) w.thread_for_pid w.pid h.1,
  locked w.holder (publishing t) (stamping t) l,
  (h.0, h.1, refl),
)
resume-IsSingle (stamping t) w a l h = (
  Alone-none w.live w.thread (some w.pid) w.pid h.1,
  locked w.holder (stamping t) (published t) l,
  (h.0, h.1, h.2, refl),
)
resume-IsSingle (published t) w a l h = (
  Alone-one t w.live w.thread w.thread_for_pid w.pid h.1 h.2 h.3,
  locked w.holder (published t) leaving l,
  h.0,
)
resume-IsSingle leaving w a l h = (a, tt, tt)

-- A finalizer's call inside a spawn finds the spawn in flight, and leaves.
return-IsSingle :
    (g f : Frame) (w : BatchWorker)
    → IsTesting g
    → Alone w.live w.thread w.thread_for_pid w.pid
    → Locked w.holder (g ∷ f ∷ [])
    → can_reenter f ≡ true
    → Standing f w.spawning_pid w.pid w.live w.thread w.thread_for_pid
    → IsSingle (resume g (f ∷ []) w)
unfolding resume leave spawn_in_flight
return-IsSingle starting f w tests a l e h =
    let seen =
      in_flight w.pid w.spawning_pid
        (reenter-Standing f w.spawning_pid w.pid w.live w.thread w.thread_for_pid e h) in
    holds_if IsSingle (is_alive w || spawn_in_flight w) (record w { frames = f ∷ [] })
      (record w { frames = entering ∷ f ∷ [] }) (λ _. (a, outer w.holder starting f l, h))
      (λ out.
        absurd
          (both_ways (spawn_in_flight w) seen (or_false (is_alive w) (spawn_in_flight w) out).1))
return-IsSingle ensuring f w tests a l e h =
    let seen =
      in_flight w.pid w.spawning_pid
        (reenter-Standing f w.spawning_pid w.pid w.live w.thread w.thread_for_pid e h) in
    holds_if IsSingle (w.stopped || (is_alive w || spawn_in_flight w))
      (record w { frames = f ∷ [] }) (record w { frames = entering ∷ f ∷ [] })
      (λ _. (a, outer w.holder ensuring f l, h))
      (λ out. absurd (
        both_ways (spawn_in_flight w) seen
          (or_false (is_alive w) (spawn_in_flight w)
            (or_false w.stopped (is_alive w || spawn_in_flight w) out).1).1))
return-IsSingle entering f w tests a l e h = elim tests [ ]
return-IsSingle marking f w tests a l e h = elim tests [ ]
return-IsSingle making f w tests a l e h = elim tests [ ]
return-IsSingle (made t) f w tests a l e h = elim tests [ ]
return-IsSingle (publishing t) f w tests a l e h = elim tests [ ]
return-IsSingle (stamping t) f w tests a l e h = elim tests [ ]
return-IsSingle (published t) f w tests a l e h = elim tests [ ]
return-IsSingle leaving f w tests a l e h = elim tests [ ]

pub advance-IsSingle :
    (frames : List Frame) (w : BatchWorker)
    → IsSingle w
    → Locked w.holder frames
    → Framed frames w.spawning_pid w.pid w.live w.thread w.thread_for_pid
    → IsSingle (advance frames w)
unfolding advance
advance-IsSingle [] w h l k = h
advance-IsSingle (f ∷ []) w h l k = resume-IsSingle f w h.0 l k
advance-IsSingle (g ∷ f ∷ []) w h l k = return-IsSingle g f w k.0 h.0 l k.1 k.2
advance-IsSingle (g ∷ f ∷ e ∷ frames) w h l k = elim k [ ]
