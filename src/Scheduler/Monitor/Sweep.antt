-- ===== src/Scheduler/Monitor/Sweep.antt =====
-- What a sweep of the heartbeat monitor leaves behind.
use mathlib.Core.Option
use distributed_job_schedule.Prelude.{
  ℕ, ◌+◌, ◌≡◌, ◌∙◌, refl, ap, sym, Bool, true, false, not, ◌&&◌, ◌||◌, Option, none, some, List, [],
  ◌∷◌, ltb, ◌==◌, if◌then◌else◌, arith, any, count, count_congr, update,
}
use distributed_job_schedule.Models.{
  Uuid, Time, Job, Worker, queued, running, unhealthy, offline, same_job_status, same_worker_status,
}
use distributed_job_schedule.Errors.{ok}
use distributed_job_schedule.Repository.Database.{reachable}
use distributed_job_schedule.Repository.Jobs.{job_at, is_stale, on_stale, touch, release}
use distributed_job_schedule.Repository.Jobs.Requeue.{is_stuck, requeue_stale_lem}
use distributed_job_schedule.Repository.Workers.{
  mark_unhealthy, update_workers, is_lapsed, lapse, is_healthy,
}
use distributed_job_schedule.Broker.World.{World, Env}
use distributed_job_schedule.Scheduler.Monitor.{tick}

-- Last heard of more than 15 seconds before; of a worker never heard of, it is `never`.
abbrev pub silent : Bool → Time → Option Time → Bool
silent never now none = never
silent never now (some t) = ltb (t + 15_000_000) now

-- Neither UNHEALTHY nor OFFLINE, and silent or never heard of.
abbrev pub is_due : Time → Worker → Bool
is_due now k =
    not (same_worker_status k.status unhealthy || same_worker_status k.status offline)
    && silent true now k.last_heartbeat

-- UNHEALTHY or silent.
abbrev pub is_gone : Time → Worker → Bool
is_gone now k = same_worker_status k.status unhealthy || silent false now k.last_heartbeat

abbrev pub has_lost : Time → List Worker → Option Uuid → Bool
has_lost now workers none = false
has_lost now workers (some id) = any (λ k. (k.id == id) && is_gone now k) workers

-- RUNNING on a worker that is gone.
abbrev pub is_stranded : Time → List Worker → Job → Bool
is_stranded now workers j = same_job_status j.status running && has_lost now workers j.worker_id

is_lapsed_lem : (now : Time) (k : Worker) → is_lapsed now 15 k ≡ is_due now k
is_lapsed_lem now k = ground arith

is_stale_lem : (now : Time) (k : Worker) → is_stale now 15 k ≡ is_gone now k
is_stale_lem now k = ground arith

update-is_due :
    (now : Time) (workers : List Worker)
    → update (is_lapsed now 15) lapse workers
      ≡ update (is_due now) (λ k. record k { status = unhealthy }) workers
update-is_due now [] = refl
update-is_due now (k ∷ workers) = rw (is_lapsed_lem now k, update-is_due now workers) refl

any-is_gone :
    (now : Time) (id : Uuid) (workers : List Worker)
    → any (λ k. (k.id == id) && is_stale now 15 k) workers
      ≡ any (λ k. (k.id == id) && is_gone now k) workers
any-is_gone now id [] = refl
any-is_gone now id (k ∷ workers) = rw (is_stale_lem now k, any-is_gone now id workers) refl

on_stale_lem :
    (now : Time) (workers : List Worker) (o : Option Uuid)
    → on_stale now 15 workers o ≡ has_lost now workers o
on_stale_lem now workers none = refl
on_stale_lem now workers (some id) = any-is_gone now id workers

is_stuck_lem :
    (now : Time) (workers : List Worker) (j : Job)
    → is_stuck now 15 workers j ≡ is_stranded now workers j
is_stuck_lem now workers j = rw (on_stale_lem now workers j.worker_id) refl

none_due :
    (now : Time) (workers : List Worker)
    → count (is_due now) (update (is_due now) (λ k. record k { status = unhealthy }) workers) ≡ 0
none_due now [] = refl
none_due now (w ∷ workers) = ground (arith, none_due now workers)

none_stranded :
    (now : Time) (workers marked : List Worker) (jobs : List Job)
    → workers ≡ marked
    → count (is_stuck now 15 workers) jobs ≡ 0
    → count (is_stranded now marked) jobs ≡ 0
none_stranded now workers marked jobs e h = rw (← e) (
    sym (
      count_congr (is_stuck now 15 workers) (is_stranded now workers) jobs
        (is_stuck_lem now workers))
    ∙ h)

map_requeued :
    (now : Time) (workers : List Worker) (o : Option Job)
    → Option.map (λ j. if is_stuck now 15 workers j then touch now (release j) else j) o
      ≡ Option.map
          (λ j.
            if is_stranded now workers j
            then record j { status = queued; worker_id = none; updated_at = now }
            else j)
          o
map_requeued now workers none = refl
map_requeued now workers (some j) = rw (is_stuck_lem now workers j) refl

-- A worker that `FetchHealthy` would return is neither marked UNHEALTHY nor robbed of its jobs by a
-- sweep of the same moment.
pub is_healthy-not_stale :
    (now : Time) (stale : ℕ) (k : Worker)
    → is_healthy now stale k ≡ true
    → (is_stale now stale k ≡ false) × (is_lapsed now stale k ≡ false)
is_healthy-not_stale now stale k h = ground arith

-- A sweep over a database that answers succeeds. It marks UNHEALTHY exactly the workers that are
-- neither that nor OFFLINE and have been silent for more than 15 seconds or never heard of; then
-- exactly the jobs that are RUNNING on a worker which is UNHEALTHY, or silent by then, are QUEUED
-- again with no worker, and are else as they were but for the time of the update; and afterwards no
-- worker is left to mark and no job is left on such a worker.
pub tick-sweeps :
    (env : Env) (w : World)
    → ((n : ℕ) → (env.call n).link ≡ reachable)
    → let marks = (env.call w.calls).now in
      let moves = (env.call (w.calls + 1)).now in
      let marked = update (is_due marks) (λ k. record k { status = unhealthy }) w.db.workers in
      let (w', r) = tick env w in
      (r ≡ ok tt)
      × (w'.db.workers ≡ marked)
      × (count (is_due marks) w'.db.workers ≡ 0)
      × ((i : Uuid)
          → job_at i w'.db
            ≡ Option.map
                (λ j.
                  if is_stranded moves marked j
                  then record j { status = queued; worker_id = none; updated_at = moves }
                  else j)
                (job_at i w.db))
      × (count (is_stranded moves marked) w'.db.jobs ≡ 0)
unfolding tick mark_unhealthy
tick-sweeps env w up =
    let marks = (env.call w.calls).now in
    let moves = (env.call (w.calls + 1)).now in
    let workers = update-is_due marks w.db.workers in
    rw (up w.calls) (
      let swept =
        requeue_stale_lem (env.call (w.calls + 1)) 15
          (update_workers (is_lapsed marks 15) lapse w.db) (up (w.calls + 1)) in
      let marked = swept.1 ∙ workers in
      (
        ground (arith, swept.2),
        marked,
        rw marked (none_due marks w.db.workers),
        λ i.
            swept.0 i
            ∙ map_requeued moves (update (is_lapsed marks 15) lapse w.db.workers) (job_at i w.db)
            ∙ ap
                (λ ks.
                  Option.map
                    (λ j.
                      if is_stranded moves ks j
                      then record j { status = queued; worker_id = none; updated_at = moves }
                      else j)
                    (job_at i w.db))
                workers,
        none_stranded moves _ _ _ marked swept.3,
      ))
