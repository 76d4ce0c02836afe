-- ===== src/Scheduler/Dispatcher/Kept.antt =====
-- A dispatch tick keeps of the tables what every call of a repository keeps, whatever fails in it.
use distributed_job_schedule.Prelude.{ℕ, ◌≡◌, inl, inr, List, [], ◌∷◌, arith, Bool-cases}
use distributed_job_schedule.Prelude.Int.{ℤ, pos, leb_ℤ}
use distributed_job_schedule.Models.{Uuid, Job, Worker}
use distributed_job_schedule.Errors.{Result, ok, err}
use distributed_job_schedule.Repository.Database.{Database, Engine, Call}
use distributed_job_schedule.Repository.Jobs
use distributed_job_schedule.Repository.Workers.{fetch_healthy}
use distributed_job_schedule.Repository.Operations.{fetch_pending, rollback_to_queued, perform}
use distributed_job_schedule.Repository.Operations.Kept.{IsKept}
use distributed_job_schedule.Broker.World.{World, Env, query}
use distributed_job_schedule.Broker.Producer.{publish_job}
use distributed_job_schedule.Broker.Messages.{JobMessage}
use distributed_job_schedule.Scheduler.Dispatcher.{
  capacity, message_of, after_publish, after_fetch, after_healthy, dispatch_job, dispatch_jobs,
  dispatch_worker, dispatch_workers, tick,
}

pub publish_job-db : (env : Env) (m : JobMessage) (w : World) → (publish_job env m w).0.db ≡ w.db
unfolding publish_job
publish_job-db env m w = ground arith

pub fetch_healthy-db :
    (e : Engine) (c : Call) (stale : ℕ) (db : Database) → (fetch_healthy e c stale db).0 ≡ db
unfolding fetch_healthy
fetch_healthy-db e c stale db = ground arith

module _ (env : Env) (P : Database → Type 0) (kept : IsKept env.engine P) where
  pub fetch_kept :
      (worker : Uuid) (limit : ℤ) (w : World)
      → P w.db
      → P (query env (λ c. Jobs.fetch_pending env.engine c worker limit) w).0.db
  unfolding perform
  fetch_kept worker limit w v = kept (env.call w.calls) (fetch_pending worker limit) w.db tt v

  pub rollback_kept :
      (id : Uuid) (w : World) → P w.db → P (query env (λ c. Jobs.rollback_to_queued c id) w).0.db
  unfolding perform
  rollback_kept id w v = kept (env.call w.calls) (rollback_to_queued id) w.db tt v

  after_publish_kept :
      (j : Job) (w : World) (r : Result (Unit {0})) → P w.db → P (after_publish env j (w, r)).db
  after_publish_kept j w (ok u) v = v
  after_publish_kept j w (err x) v = rollback_kept j.id w v

  pub dispatch_job_kept :
      (worker : Uuid) (j : Job) (w : World) → P w.db → P (dispatch_job env worker j w).db
  unfolding dispatch_job
  dispatch_job_kept worker j w v =
      let sent = publish_job env (message_of worker j) w in
      after_publish_kept j sent.0 sent.1 (rw (publish_job-db env (message_of worker j) w) v)

  dispatch_jobs_kept :
      (worker : Uuid) (jobs : List Job) (w : World)
      → P w.db
      → P (dispatch_jobs env worker jobs w).db
  unfolding dispatch_jobs
  dispatch_jobs_kept worker [] w v = v
  dispatch_jobs_kept worker (j ∷ jobs) w v =
      dispatch_jobs_kept worker jobs (dispatch_job env worker j w) (dispatch_job_kept worker j w v)

  after_fetch_kept :
      (worker : Uuid) (w : World) (r : Result (List Job))
      → P w.db
      → P (after_fetch env worker (w, r)).db
  after_fetch_kept worker w (ok jobs) v = dispatch_jobs_kept worker jobs w v
  after_fetch_kept worker w (err x) v = v

  pub dispatch_worker_kept : (k : Worker) (w : World) → P w.db → P (dispatch_worker env k w).db
  unfolding dispatch_worker
  dispatch_worker_kept k w v = elim (Bool-cases (leb_ℤ (capacity k) (pos 0))) [
    | inl full ↦ rw full v
    | inr free ↦
        let r = query env (λ c. Jobs.fetch_pending env.engine c k.id (capacity k)) w in
        rw free (after_fetch_kept k.id r.0 r.1 (fetch_kept k.id (capacity k) w v))
  ]

  dispatch_workers_kept :
      (workers : List Worker) (w : World) → P w.db → P (dispatch_workers env workers w).db
  unfolding dispatch_workers
  dispatch_workers_kept [] w v = v
  dispatch_workers_kept (k ∷ workers) w v =
      dispatch_workers_kept workers (dispatch_worker env k w) (dispatch_worker_kept k w v)

  after_healthy_kept :
      (w : World) (r : Result (List Worker)) → P w.db → P (after_healthy env (w, r)).0.db
  after_healthy_kept w (ok workers) v = dispatch_workers_kept workers w v
  after_healthy_kept w (err x) v = v

  pub tick_kept : (w : World) → P w.db → P (tick env w).0.db
  unfolding tick
  tick_kept w v =
      let r = query env (λ c. fetch_healthy env.engine c 15) w in
      after_healthy_kept r.0 r.1 (rw (fetch_healthy-db env.engine (env.call w.calls) 15 w.db) v)
