-- ===== src/System/Moments/Ticks.antt =====
-- A tick of the dispatcher on its own is a run of the steps.
use distributed_job_schedule.Prelude.{◌+◌, inl, inr, List, [], ◌∷◌, Bool-cases}
use distributed_job_schedule.Prelude.Int.{pos, leb_ℤ}
use distributed_job_schedule.Models.{Uuid, Job, Worker}
use distributed_job_schedule.Errors.{Result, ok, err}
use distributed_job_schedule.Repository.Jobs
use distributed_job_schedule.Repository.Workers.{fetch_healthy}
use distributed_job_schedule.Broker.World.{World, Env, query}
use distributed_job_schedule.Broker.Producer.{publish_job}
use distributed_job_schedule.Scheduler.Dispatcher.{
  message_of, capacity, after_publish, after_fetch, after_healthy, dispatch_job, dispatch_jobs,
  dispatch_worker, dispatch_workers, tick,
}
use distributed_job_schedule.Scheduler.Dispatcher.Kept.{fetch_healthy-db}
use distributed_job_schedule.System.Moments.{
  Phase, idle, publishing, failing, fetched, published, fetches, publishes, rolls_back, goes_on,
  counts, Reaches, here, step,
}

module _ (env : Env) (x : World × Phase) where
  published-Reaches :
      (k : Uuid) (j : Job) (jobs : List Job) (w : World) (r : Result (Unit {0}))
      → Reaches env x (published k j jobs (w, r))
      → Reaches env x (after_publish env j (w, r), publishing k jobs)
  published-Reaches k j jobs w (ok u) run = run
  published-Reaches k j jobs w (err e) run =
      step (w, failing k j jobs) _ run (rolls_back w k j jobs)

  dispatch_jobs-Reaches :
      (k : Uuid) (jobs : List Job) (w : World)
      → Reaches env x (w, publishing k jobs)
      → Reaches env x (dispatch_jobs env k jobs w, idle)
  unfolding dispatch_jobs dispatch_job
  dispatch_jobs-Reaches k [] w run = step (w, publishing k []) (w, idle) run (goes_on w k)
  dispatch_jobs-Reaches k (j ∷ jobs) w run =
      let sent = publish_job env (message_of k j) w in
      dispatch_jobs-Reaches k jobs (dispatch_job env k j w) (
        published-Reaches k j jobs sent.0 sent.1
          (step (w, publishing k (j ∷ jobs)) (published k j jobs sent) run (publishes w k j jobs)))

  after_fetch-Reaches :
      (k : Uuid) (w : World) (r : Result (List Job))
      → Reaches env x (fetched k (w, r))
      → Reaches env x (after_fetch env k (w, r), idle)
  after_fetch-Reaches k w (ok jobs) run = dispatch_jobs-Reaches k jobs w run
  after_fetch-Reaches k w (err e) run = run

  dispatch_worker-Reaches :
      (k : Worker) (w : World)
      → Reaches env x (w, idle)
      → Reaches env x (dispatch_worker env k w, idle)
  unfolding dispatch_worker
  dispatch_worker-Reaches k w run = elim (Bool-cases (leb_ℤ (capacity k) (pos 0))) [
    | inl full ↦ rw full run
    | inr free ↦
        let r = query env (λ c. Jobs.fetch_pending env.engine c k.id (capacity k)) w in
        rw free (
          after_fetch-Reaches k.id r.0 r.1
            (step (w, idle) (fetched k.id r) run (fetches w k.id (capacity k))))
  ]

  dispatch_workers-Reaches :
      (workers : List Worker) (w : World)
      → Reaches env x (w, idle)
      → Reaches env x (dispatch_workers env workers w, idle)
  unfolding dispatch_workers
  dispatch_workers-Reaches [] w run = run
  dispatch_workers-Reaches (k ∷ workers) w run =
      dispatch_workers-Reaches workers (dispatch_worker env k w) (dispatch_worker-Reaches k w run)

  after_healthy-Reaches :
      (w : World) (r : Result (List Worker))
      → Reaches env x (w, idle)
      → Reaches env x ((after_healthy env (w, r)).0, idle)
  after_healthy-Reaches w (ok workers) run = dispatch_workers-Reaches workers w run
  after_healthy-Reaches w (err e) run = run

-- A tick that nothing comes between is a run of these steps, from and to the dispatcher at no worker.
pub tick-Reaches : (env : Env) (w : World) → Reaches env (w, idle) ((tick env w).0, idle)
unfolding tick
tick-Reaches env w =
    let r = query env (λ c. fetch_healthy env.engine c 15) w in
    after_healthy-Reaches env (w, idle) r.0 r.1
      (rw (fetch_healthy-db env.engine (env.call w.calls) 15 w.db) (
        step (w, idle) (record w { calls = w.calls + 1 }, idle) here (counts w idle (w.calls + 1))))
