-- ===== src/Scheduler/Dispatcher/Validity.antt =====
-- A dispatch tick leaves the tables valid, whatever fails in it.
use distributed_job_schedule.Prelude.Int.{ℤ}
use distributed_job_schedule.Models.{Uuid, Job, Worker}
use distributed_job_schedule.Repository.Jobs
use distributed_job_schedule.Repository.Operations.Kept.{IsKept}
use distributed_job_schedule.Repository.Operations.Validity.{IsValid, perform-IsValid}
use distributed_job_schedule.Broker.World.{World, Env, query}
use distributed_job_schedule.Scheduler.Dispatcher.{dispatch_job, dispatch_worker, tick}
use distributed_job_schedule.Scheduler.Dispatcher.Kept.{
  fetch_kept, dispatch_job_kept, dispatch_worker_kept, tick_kept,
}

pub IsValid-kept : (env : Env) → IsKept env.engine IsValid
IsValid-kept env c o db used = perform-IsValid env.engine c o db

pub fetch-IsValid :
    (env : Env) (worker : Uuid) (limit : ℤ) (w : World)
    → IsValid w.db
    → IsValid (query env (λ c. Jobs.fetch_pending env.engine c worker limit) w).0.db
fetch-IsValid env = fetch_kept env IsValid (IsValid-kept env)

pub dispatch_job-IsValid :
    (env : Env) (worker : Uuid) (j : Job) (w : World)
    → IsValid w.db
    → IsValid (dispatch_job env worker j w).db
dispatch_job-IsValid env = dispatch_job_kept env IsValid (IsValid-kept env)

pub dispatch_worker-IsValid :
    (env : Env) (k : Worker) (w : World) → IsValid w.db → IsValid (dispatch_worker env k w).db
dispatch_worker-IsValid env = dispatch_worker_kept env IsValid (IsValid-kept env)

-- A tick of the dispatcher keeps the tables valid, whichever of its calls fail.
pub tick-IsValid : (env : Env) (w : World) → IsValid w.db → IsValid (tick env w).0.db
tick-IsValid env = tick_kept env IsValid (IsValid-kept env)
