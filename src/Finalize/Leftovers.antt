-- ===== src/Finalize/Leftovers.antt =====
-- What `drain_all` does with the queued jobs, within its deadline and after it.
use mathlib.Core.List.{reverse_aux, reverse_aux-append}
use mathlib.Core.Path.{subst}
use wardex_sdk.Prelude.{
  ℕ, zero, suc, ◌+◌, ◌≡◌, ◌∙◌, refl, sym, ap, Bool, true, false, Option, none, some, List, [], ◌∷◌,
  ◌++◌, map, length, length-append, take, drop, arith, if◌then◌else◌,
}
use wardex_sdk.Finalize.Queue.{FinalizeQueue, Job, Finish, ran, fell_back, pop_left, fallback_now}
use wardex_sdk.Finalize.Drain.{
  Leftover, keep, fallback, is_foreign, reset_in_flight, run_one, run_until, fall_back_all,
  finish_leftover, drain_all,
}
use wardex_sdk.Assembly.Integrity.{Limitation}

-- The jobs begun within the budget, and those it leaves.
abbrev pub begun : Option ℕ → List Job → List Job
begun none js = js
begun (some n) js = take n js

abbrev pub left : Option ℕ → List Job → List Job
left none js = []
left (some n) js = drop n js

-- What a drain is: what is queued afterwards, what has been finished, in which order, and how many.
pub record IsDrained (before : List Finish) (queued : List Job) (done : List Finish)
    (result : FinalizeQueue × ℕ) : Type 0 where
  pub entries_are : result.0.entries ≡ queued
  pub finished_are : result.0.finished ≡ reverse_aux done before
  pub number_is : result.1 ≡ length done

IsDrained-first :
    (q r : FinalizeQueue) (f : Finish) (queued : List Job) (done : List Finish)
    (result : FinalizeQueue × ℕ)
    → r.finished ≡ f ∷ q.finished
    → IsDrained r.finished queued done result
    → IsDrained q.finished queued (f ∷ done) (result.0, result.1 + 1)
IsDrained-first q r f queued done result e h = record {
  entries_are = h.entries_are;
  finished_are = h.finished_are ∙ ap (reverse_aux done) e;
  number_is = omega (arith, h.number_is);
}

-- The queue after one job is run.
run_first : (j : Job) (rest : List Job) (q : FinalizeQueue) → FinalizeQueue
unfolding run_one pop_left
run_first j rest q = run_one j (pop_left (j ∷ rest) q)

run_until-IsDrained :
    (budget : Option ℕ) (js : List Job) (q : FinalizeQueue)
    → q.entries ≡ js
    → IsDrained q.finished (left budget js) (map ran (begun budget js)) (run_until budget js q)
unfolding run_until run_one pop_left
run_until-IsDrained none [] q e = record { entries_are = e; finished_are = refl; number_is = refl }
run_until-IsDrained (some zero) [] q e = record {
  entries_are = e;
  finished_are = refl;
  number_is = refl;
}
run_until-IsDrained (some (suc n)) [] q e = record {
  entries_are = e;
  finished_are = refl;
  number_is = refl;
}
run_until-IsDrained (some zero) (j ∷ rest) q e = record {
  entries_are = e;
  finished_are = refl;
  number_is = refl;
}
run_until-IsDrained (some (suc n)) (j ∷ rest) q e =
    let r = run_one j (pop_left (j ∷ rest) q) in
    IsDrained-first q r (ran j) (drop n rest) (map ran (take n rest)) (run_until (some n) rest r)
      refl (run_until-IsDrained (some n) rest r refl)
run_until-IsDrained none (j ∷ rest) q e =
    let r = run_one j (pop_left (j ∷ rest) q) in
    IsDrained-first q r (ran j) [] (map ran rest) (run_until none rest r) refl
      (run_until-IsDrained none rest r refl)

fall_back_all-IsDrained :
    (js : List Job) (q : FinalizeQueue)
    → q.entries ≡ js
    → IsDrained q.finished []
        (map (fell_back Limitation.parse_skipped_at_shutdown) js)
        (fall_back_all js q)
unfolding fall_back_all fallback_now pop_left
fall_back_all-IsDrained [] q e = record { entries_are = e; finished_are = refl; number_is = refl }
fall_back_all-IsDrained (j ∷ rest) q e =
    let popped = record (pop_left (j ∷ rest) q) { shut_down = q.shut_down + 1 } in
    let r = fallback_now Limitation.parse_skipped_at_shutdown j popped in
    IsDrained-first q r (fell_back Limitation.parse_skipped_at_shutdown j) []
      (map (fell_back Limitation.parse_skipped_at_shutdown) rest) (fall_back_all rest r) refl
      (fall_back_all-IsDrained rest r refl)

-- A reset leaves the jobs as they are.
same_if :
    (b : Bool) (q r : FinalizeQueue)
    → ◌≡◌ {A = List Job × List Finish} (r.entries, r.finished) (q.entries, q.finished)
    → ◌≡◌ {A = List Job × List Finish}
        ((if b then r else q).entries, (if b then r else q).finished)
        (q.entries, q.finished)
same_if true q r e = e
same_if false q r e = refl

reset-same :
    (pid : ℕ) (q : FinalizeQueue)
    → ◌≡◌ {A = List Job × List Finish}
        ((reset_in_flight pid q).entries, (reset_in_flight pid q).finished)
        (q.entries, q.finished)
unfolding reset_in_flight
reset-same pid q =
    same_if (is_foreign pid q.in_flight_pid) q (record q { in_flight = 0; in_flight_pid = none })
      refl

-- What is left queued, and what is done with the jobs that the deadline left.
abbrev pub queued_after : Leftover → List Job → List Job
queued_after keep js = js
queued_after fallback js = []

abbrev pub done_after : Leftover → List Job → List Finish
done_after keep js = []
done_after fallback js = map (fell_back Limitation.parse_skipped_at_shutdown) js

append_none : (fs : List Finish) → fs ++ [] ≡ fs
append_none [] = refl
append_none (f ∷ fs) = ap (λ gs. f ∷ gs) (append_none fs)

finish_leftover-IsDrained :
    (leftover : Leftover) (q r : FinalizeQueue) (n : ℕ) (queued : List Job) (done : List Finish)
    → IsDrained q.finished queued done (r, n)
    → IsDrained q.finished
        (queued_after leftover queued)
        (done ++ done_after leftover queued)
        (finish_leftover leftover (r, n))
unfolding finish_leftover
finish_leftover-IsDrained keep q r n queued done h = record {
  entries_are = h.entries_are;
  finished_are = h.finished_are ∙ ap (λ fs. reverse_aux fs q.finished) (sym (append_none done));
  number_is = h.number_is ∙ ap length (sym (append_none done));
}
finish_leftover-IsDrained fallback q r n queued done h =
    let fell = λ (js : List Job). map (fell_back Limitation.parse_skipped_at_shutdown) js in
    let ended = fall_back_all-IsDrained r.entries r refl in
    let same : done ++ fell r.entries ≡ done ++ fell queued =
      ap (λ js. done ++ fell js) h.entries_are in
    record {
      entries_are = ended.entries_are;
      finished_are =
          ended.finished_are
          ∙ ap (reverse_aux (fell r.entries)) h.finished_are
          ∙ sym (reverse_aux-append done (fell r.entries) q.finished)
          ∙ ap (λ fs. reverse_aux fs q.finished) same;
      number_is = omega (
        arith,
        h.number_is,
        ended.number_is,
        length-append done (fell r.entries),
        ap length same,
      );
    }

-- Within its budget a drain runs the queued jobs from the oldest on. Those left then stay queued,
-- or are finished without their parse, marked as skipped at shutdown, so that none is queued. Each is
-- finished once, and the number returned is that of all finished jobs.
pub drain_all-IsDrained :
    (pid : ℕ) (budget : Option ℕ) (leftover : Leftover) (q : FinalizeQueue)
    → IsDrained q.finished
        (queued_after leftover (left budget q.entries))
        (map ran (begun budget q.entries) ++ done_after leftover (left budget q.entries))
        (drain_all pid budget leftover q)
unfolding drain_all
drain_all-IsDrained pid budget leftover q =
    let reset = reset_in_flight pid q in
    let first = run_until-IsDrained budget reset.entries reset refl in
    let ended =
      finish_leftover-IsDrained leftover reset (run_until budget reset.entries reset).0
        (run_until budget reset.entries reset).1 (left budget reset.entries)
        (map ran (begun budget reset.entries)) first in
    subst
      (λ p.
        IsDrained p.1 (queued_after leftover (left budget p.0))
          (map ran (begun budget p.0) ++ done_after leftover (left budget p.0))
          (drain_all pid budget leftover q))
      (reset-same pid q) ended
