-- ===== src/System/Moments.antt =====
-- The dispatcher of internal/scheduler/dispatcher.go between its single calls. `FetchPending`, each
-- `PublishJob` and each `RollbackToQueued` is a step of its own, and between any two of them the other
-- programs make single calls of the repositories and publish records.
pub mod Held
pub mod Ticks
use distributed_job_schedule.Prelude.{
  ℕ, ◌+◌, ◌≡◌, ◌⊎◌, refl, inl, inr, Bool, true, false, Option, none, some, List, [], ◌∷◌, arith,
  any,
}
use distributed_job_schedule.Prelude.Int.{ℤ, pos, negsuc}
use distributed_job_schedule.Models.{Uuid, Job, running}
use distributed_job_schedule.Errors.{Result, ok, err}
use distributed_job_schedule.Repository.Database.{Database, Call, reachable, no_rows}
use distributed_job_schedule.Repository.Jobs
use distributed_job_schedule.Repository.Jobs.{has_id, job_at, is_worker}
use distributed_job_schedule.Repository.Jobs.Rows.{passes_at}
use distributed_job_schedule.Repository.Operations.{Operation, perform}
use distributed_job_schedule.Repository.Operations.Kept.{IsOther}
use distributed_job_schedule.Broker.World.{World, Env, KafkaRecord, query, append}
use distributed_job_schedule.Broker.Producer.{publish_job}
use distributed_job_schedule.Scheduler.Dispatcher.{message_of}

-- Where the dispatcher is: at no worker, with jobs of a worker before it that it has to publish, or
-- before the roll back of a job that it could not publish.
pub data Phase : Type 0 where
  idle : Phase
  publishing : Uuid → List Job → Phase
  failing : Uuid → Job → List Job → Phase

-- The jobs that are fetched and neither published nor rolled back.
abbrev pub in_hand : Phase → List Job
in_hand idle = []
in_hand (publishing k jobs) = jobs
in_hand (failing k j jobs) = j ∷ jobs

abbrev pub worker_of : Phase → Uuid
worker_of idle = 0
worker_of (publishing k jobs) = k
worker_of (failing k j jobs) = k

abbrev pub fetched : Uuid → World × Result (List Job) → World × Phase
fetched k (w, err x) = (w, idle)
fetched k (w, ok jobs) = (w, publishing k jobs)

abbrev pub published : Uuid → Job → List Job → World × Result (Unit {0}) → World × Phase
published k j jobs (w, ok _) = (w, publishing k jobs)
published k j jobs (w, err x) = (w, failing k j jobs)

-- The steps of the dispatcher, and then those of the others: a call, over whatever connection, a record,
-- and calls of theirs by which the environment counts on.
pub data Step (env : Env) : World × Phase → World × Phase → Type 0 where
  fetches :
      (w : World) (k : Uuid) (limit : ℤ)
      → Step env (w, idle) (fetched k (query env (λ c. Jobs.fetch_pending env.engine c k limit) w))
  publishes :
      (w : World) (k : Uuid) (j : Job) (jobs : List Job)
      → Step env
          (w, publishing k (j ∷ jobs))
          (published k j jobs (publish_job env (message_of k j) w))
  rolls_back :
      (w : World) (k : Uuid) (j : Job) (jobs : List Job)
      → Step env
          (w, failing k j jobs)
          ((query env (λ c. Jobs.rollback_to_queued c j.id) w).0, publishing k jobs)
  goes_on : (w : World) (k : Uuid) → Step env (w, publishing k []) (w, idle)
  calls :
      (w : World) (p : Phase) (c : Call) (o : Operation)
      → IsOther o
      → Step env (w, p) (record w { db = perform env.engine c o w.db }, p)
  sends : (w : World) (p : Phase) (r : KafkaRecord) → Step env (w, p) (append r w, p)
  counts : (w : World) (p : Phase) (n : ℕ) → Step env (w, p) (record w { calls = n }, p)

pub data Reaches (env : Env) (x : World × Phase) : World × Phase → Type 0 where
  here : Reaches env x x
  step : (y z : World × Phase) → Reaches env x y → Step env y z → Reaches env x z
