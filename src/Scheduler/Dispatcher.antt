-- ===== src/Scheduler/Dispatcher.antt =====
-- internal/scheduler/dispatcher.go. Logging is left out, and with it `totalAssigned`.
pub mod Validity
pub mod Kept
pub mod Delivery
pub mod Single
use distributed_job_schedule.Prelude.{ℕ, Bool, List, [], ◌∷◌, if◌then◌else◌}
use distributed_job_schedule.Prelude.Int.{ℤ, pos, negsuc, ◌-ℤ◌, leb_ℤ}
use distributed_job_schedule.Models.{Uuid, Job, Worker}
use distributed_job_schedule.Errors.{Result, ok, err, Error}
use distributed_job_schedule.Repository.Database.{Database, Call}
use distributed_job_schedule.Repository.Jobs.{fetch_pending, rollback_to_queued}
use distributed_job_schedule.Repository.Workers.{fetch_healthy}
use distributed_job_schedule.Broker.Messages.{JobMessage}
use distributed_job_schedule.Broker.World.{World, Env, query}
use distributed_job_schedule.Broker.Producer.{publish_job}

abbrev pub max_jobs_per_worker : ℤ
max_jobs_per_worker = pos 5

abbrev pub message_of : Uuid → Job → JobMessage
message_of worker j = record {
  job_id = j.id;
  worker_id = worker;
  type = j.type;
  payload = j.payload;
  priority = j.priority;
  attempts = j.attempts;
}

-- A job that could not be published is rolled back; whether that succeeds is only logged.
abbrev pub after_publish : Env → Job → World × Result (Unit {0}) → World
after_publish env j (w, ok _) = w
after_publish env j (w, err _) = (query env (λ c. rollback_to_queued c j.id) w).0

unfoldable pub dispatch_job : Env → Uuid → Job → World → World
dispatch_job env worker j w = after_publish env j (publish_job env (message_of worker j) w)

-- The loop over the jobs that were fetched for a worker.
unfoldable pub dispatch_jobs : Env → Uuid → List Job → World → World
dispatch_jobs env worker [] w = w
dispatch_jobs env worker (j ∷ jobs) w = dispatch_jobs env worker jobs (dispatch_job env worker j w)

abbrev pub after_fetch : Env → Uuid → World × Result (List Job) → World
after_fetch env worker (w, err _) = w
after_fetch env worker (w, ok jobs) = dispatch_jobs env worker jobs w

abbrev pub capacity : Worker → ℤ
capacity k = max_jobs_per_worker -ℤ k.running_jobs

unfoldable pub dispatch_worker : Env → Worker → World → World
dispatch_worker env k w =
    if leb_ℤ (capacity k) (pos 0)
    then w
    else after_fetch env k.id (query env (λ c. fetch_pending env.engine c k.id (capacity k)) w)

-- The loop over the healthy workers.
unfoldable pub dispatch_workers : Env → List Worker → World → World
dispatch_workers env [] w = w
dispatch_workers env (k ∷ workers) w = dispatch_workers env workers (dispatch_worker env k w)

abbrev pub after_healthy : Env → World × Result (List Worker) → World × Result (Unit {0})
after_healthy env (w, err x) = (w, err x)
after_healthy env (w, ok workers) = (dispatch_workers env workers w, ok tt)

unfoldable pub tick : Env → World → World × Result (Unit {0})
tick env w = after_healthy env (query env (λ c. fetch_healthy env.engine c 15) w)
