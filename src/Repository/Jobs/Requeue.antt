-- ===== src/Repository/Jobs/Requeue.antt =====
-- What `RequeueStale` and `MarkCompleted` do.
use mathlib.Core.Option
use distributed_job_schedule.Prelude.{
  ℕ, ◌≡◌, refl, Bool, ◌&&◌, List, [], ◌∷◌, if◌then◌else◌, arith, count, update,
}
use distributed_job_schedule.Models.{Uuid, Time, Job, Worker, running, same_job_status}
use distributed_job_schedule.Errors.{ok}
use distributed_job_schedule.Repository.Database.{Database, Call, reachable}
use distributed_job_schedule.Repository.Jobs.{job_at, touch, release, on_stale, requeue_stale}
use distributed_job_schedule.Repository.Jobs.Rows.{update_jobs-at}

-- RUNNING on a stale worker.
abbrev pub is_stuck : Time → ℕ → List Worker → Job → Bool
is_stuck now stale workers j =
    same_job_status j.status running && on_stale now stale workers j.worker_id

none_left :
    (now : Time) (stale : ℕ) (workers : List Worker) (jobs : List Job)
    → count
        (is_stuck now stale workers)
        (update (is_stuck now stale workers) (λ j. touch now (release j)) jobs)
      ≡ 0
none_left now stale workers [] = refl
none_left now stale workers (j ∷ jobs) = ground (arith, none_left now stale workers jobs)

-- `RequeueStale` over a connection that holds: exactly the jobs that are RUNNING on a worker which is
-- UNHEALTHY, or silent for longer than the limit, become QUEUED with no worker; every other row and
-- all the workers stay as they were; the answer is how many those jobs are; and no job is left
-- RUNNING on such a worker.
pub requeue_stale_lem :
    (c : Call) (stale : ℕ) (db : Database)
    → c.link ≡ reachable
    → let (db', r) = requeue_stale c stale db in
      ((i : Uuid)
        → job_at i db'
          ≡ Option.map
              (λ j. if is_stuck c.now stale db.workers j then touch c.now (release j) else j)
              (job_at i db))
      × (db'.workers ≡ db.workers)
      × (r ≡ ok (count (is_stuck c.now stale db.workers) db.jobs))
      × (count (is_stuck c.now stale db'.workers) db'.jobs ≡ 0)
unfolding requeue_stale
requeue_stale_lem c stale db up = rw up (
  λ i. update_jobs-at i c.now (is_stuck c.now stale db.workers) release db (λ j. refl),
  refl,
  refl,
  none_left c.now stale db.workers db.jobs,
)
