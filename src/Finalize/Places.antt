-- ===== src/Finalize/Places.antt =====
-- Where the submitted jobs are, between any threads.
use wardex_sdk.Prelude.{
  ℕ, ◌+◌, ◌-◌, ◌≡◌, ◌∙◌, refl, ap, inl, inr, Bool, true, false, none, List, [], ◌∷◌, ◌++◌, ltb,
  nat_eq, arith, Bool-cases, if◌then◌else◌,
}
use wardex_sdk.Finalize.Queue.{
  FinalizeQueue, Job, Finish, ran, fell_back, pop_left, fallback_now, evict_left, is_full_for,
  make_room, append_entry, submit,
}
use wardex_sdk.Finalize.Drain.{run_one, stop, at_fork_reinit}
use wardex_sdk.Finalize.Threads.{
  Threads, fork, worker_take, worker_finish, settle_pid, drain_take, drain_finish, Step, submitted,
  worker_took, worker_finished, drain_took, drain_finished, stopped, forked, fresh_queue, fresh,
  Reach, start, later,
}
use wardex_sdk.Assembly.Integrity.{Limitation}

module _ (k : ℕ) where
  -- How often the job is in a list.
  unfoldable pub count : List Job → ℕ
  count [] = 0
  count (j ∷ js) = (if nat_eq j.jid k then 1 else 0) + count js

  -- How often it was finished.
  unfoldable pub times : List Finish → ℕ
  times [] = 0
  times (ran j ∷ fs) = (if nat_eq j.jid k then 1 else 0) + times fs
  times (fell_back l j ∷ fs) = (if nat_eq j.jid k then 1 else 0) + times fs

  -- How often the queue has it or has finished it.
  unfoldable pub kept : FinalizeQueue → ℕ
  unfolding count times
  kept q = count q.entries + times q.finished

  -- How often it is anywhere: queued, finished, taken, or left to the parent by a fork.
  unfoldable pub places : Threads → ℕ
  unfolding kept
  places t = kept t.queue + count t.at_worker + count t.at_drains + count t.to_parent

  count-append : (js ls : List Job) → count (js ++ ls) ≡ count js + count ls
  unfolding count
  count-append [] ls = omega arith
  count-append (j ∷ js) ls = omega (arith, count-append js ls)

  kept_if :
      (b : Bool) (q r : FinalizeQueue) {n : ℕ}
      → kept q ≡ n
      → kept r ≡ n
      → kept (if b then q else r) ≡ n
  kept_if true q r h i = h
  kept_if false q r h i = i

  entries-evicted :
      (j : Job) (rest : List Job) (q : FinalizeQueue) → (evict_left (j ∷ rest) q).entries ≡ rest
  unfolding evict_left pop_left fallback_now
  entries-evicted j rest q = refl

  kept-evict :
      (j : Job) (rest : List Job) (q : FinalizeQueue)
      → q.entries ≡ j ∷ rest
      → kept (evict_left (j ∷ rest) q) ≡ kept q
  unfolding kept evict_left pop_left fallback_now times count
  kept-evict j rest q e = omega (arith, ap count e)

  kept-append_entry :
      (j : Job) (q : FinalizeQueue) → kept (append_entry j q) ≡ kept q + count (j ∷ [])
  unfolding kept append_entry
  kept-append_entry j q = omega (arith, count-append q.entries (j ∷ []))

  kept-oversize :
      (j : Job) (q : FinalizeQueue)
      → kept (fallback_now Limitation.parse_backlog_full j (record q { evicted = q.evicted + 1 }))
        ≡ kept q + count (j ∷ [])
  unfolding kept fallback_now times count
  kept-oversize j q = omega arith

  kept-make_room :
      (size : ℕ) (js : List Job) (q : FinalizeQueue)
      → q.entries ≡ js
      → kept (make_room size js q) ≡ kept q
  unfolding make_room
  kept-make_room size [] q e = refl
  kept-make_room size (j ∷ rest) q e =
      kept_if (is_full_for size q) (make_room size rest (evict_left (j ∷ rest) q)) q
        (kept-make_room size rest (evict_left (j ∷ rest) q) (entries-evicted j rest q)
          ∙ kept-evict j rest q e)
        refl

  kept-submit : (j : Job) (q : FinalizeQueue) → kept (submit j q) ≡ kept q + count (j ∷ [])
  unfolding submit
  kept-submit j q =
      kept_if (ltb q.max_bytes j.size)
        (fallback_now Limitation.parse_backlog_full j (record q { evicted = q.evicted + 1 }))
        (append_entry j (make_room j.size q.entries q)) (kept-oversize j q)
        (omega (
          arith,
          kept-append_entry j (make_room j.size q.entries q),
          kept-make_room j.size q.entries q refl,
        ))

  kept-settle_pid : (q : FinalizeQueue) → kept (settle_pid q) ≡ kept q
  unfolding settle_pid
  kept-settle_pid q =
      kept_if (nat_eq q.in_flight 0) (record q { in_flight_pid = none }) q (kept_pid q) refl
    where
      kept_pid : (q : FinalizeQueue) → kept (record q { in_flight_pid = none }) ≡ kept q
      kept_pid q = unfold kept in refl

  kept-run_one :
      (j : Job) (n : ℕ) (q : FinalizeQueue)
      → kept (record (run_one j q) { in_flight = n }) ≡ kept q + count (j ∷ [])
  unfolding kept run_one times count
  kept-run_one j n q = omega arith

  places_if :
      (b : Bool) (t u : Threads) {n : ℕ}
      → places t ≡ n
      → places u ≡ n
      → places (if b then t else u) ≡ n
  places_if true t u h i = h
  places_if false t u h i = i

  places-worker_take :
      (pid : ℕ) (js : List Job) (t : Threads)
      → t.queue.entries ≡ js
      → places (worker_take pid js t) ≡ places t
  unfolding places worker_take pop_left kept count
  places-worker_take pid [] t e = refl
  places-worker_take pid (j ∷ rest) t e = elim (Bool-cases t.queue.stopping) [
    | inl s ↦ rw s refl
    | inr s ↦ rw s (omega (arith, ap count e))
  ]

  places-drain_take :
      (js : List Job) (t : Threads) → t.queue.entries ≡ js → places (drain_take js t) ≡ places t
  unfolding places drain_take pop_left kept count
  places-drain_take [] t e = refl
  places-drain_take (j ∷ rest) t e = omega (arith, ap count e, count-append t.at_drains (j ∷ []))

  places-worker_finish :
      (j : Job) (front back : List Job) (t : Threads)
      → t.at_worker ≡ front ++ (j ∷ back)
      → places (worker_finish j (front ++ back) t) ≡ places t
  unfolding places worker_finish
  places-worker_finish j front back t e = omega (
    arith,
    kept-settle_pid (record (run_one j t.queue) { in_flight = t.queue.in_flight - 1 }),
    kept-run_one j (t.queue.in_flight - 1) t.queue,
    ap count e,
    count-append front (j ∷ back),
    count-append front back,
    count-append (j ∷ []) back,
  )

  places-drain_finish :
      (parse : Bool) (j : Job) (front back : List Job) (t : Threads)
      → t.at_drains ≡ front ++ (j ∷ back)
      → places (drain_finish parse j (front ++ back) t) ≡ places t
  unfolding places drain_finish kept run_one fallback_now times count
  places-drain_finish true j front back t e =
      omega (arith, ap count e, count-append front (j ∷ back), count-append front back)
  places-drain_finish false j front back t e =
      omega (arith, ap count e, count-append front (j ∷ back), count-append front back)

  count-fork :
      (t : Threads)
      → count (fork t).to_parent
        ≡ count t.queue.entries + (count t.at_worker + (count t.at_drains + count t.to_parent))
  unfolding fork
  count-fork t =
      count-append t.queue.entries (t.at_worker ++ (t.at_drains ++ t.to_parent))
      ∙ ap (λ n. count t.queue.entries + n)
          (count-append t.at_worker (t.at_drains ++ t.to_parent)
            ∙ ap (λ n. count t.at_worker + n) (count-append t.at_drains t.to_parent))

  places-fork : (t : Threads) → places (fork t) ≡ places t
  unfolding places fork at_fork_reinit kept count
  places-fork t = omega (arith, count-fork t)

  no_more : {m n : ℕ} → m ≡ n → m ≡ n + count []
  unfolding count
  no_more h = omega (arith, h)

  places-Step : (ks : List Job) (t u : Threads) → Step t ks u → places u ≡ places t + count ks
  unfolding places
  places-Step _ t _ (submitted j) = omega (arith, kept-submit j t.queue)
  places-Step _ t _ (worker_took pid) = no_more (places-worker_take pid t.queue.entries t refl)
  places-Step _ t _ (worker_finished j front back e) =
      no_more (places-worker_finish j front back t e)
  places-Step _ t _ drain_took = no_more (places-drain_take t.queue.entries t refl)
  places-Step _ t _ (drain_finished parse j front back e) =
      no_more (places-drain_finish parse j front back t e)
  places-Step _ t _ stopped = no_more (unfold stop kept in refl)
  places-Step _ t _ forked = no_more (places-fork t)

-- Whatever threads do, and in whatever order, a job is as often queued, taken, finished or left to
-- the parent by a fork as it was submitted: none is lost, and none is finished twice.
pub places-Reach :
    (k max_jobs max_bytes : ℕ) (js : List Job) (t : Threads)
    → Reach max_jobs max_bytes js t
    → places k t ≡ count k js
unfolding fresh fresh_queue places kept count times
places-Reach k max_jobs max_bytes _ _ start = refl
places-Reach k max_jobs max_bytes _ _ (later js ks t u r s) =
    omega (
      arith,
      count-append k ks js,
      places-Step k ks t u s,
      places-Reach k max_jobs max_bytes js t r,
    )
