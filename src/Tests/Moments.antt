-- ===== src/Tests/Moments.antt =====
-- A moment within a tick, between the fetch of a job and its publication.
use distributed_job_schedule.Prelude.{◌+◌, ◌≡◌, ◌⊎◌, refl, true, some, [], ◌∷◌, any}
use distributed_job_schedule.Prelude.Int.{pos}
use distributed_job_schedule.Prelude.Sorting.{insertion_sort}
use distributed_job_schedule.Models.{Job, new_job, running}
use distributed_job_schedule.Repository.Database.{no_rows}
use distributed_job_schedule.Repository.Jobs
use distributed_job_schedule.Repository.Jobs.{has_id, job_at, fetch_pending}
use distributed_job_schedule.Repository.Workers
use distributed_job_schedule.Repository.Operations.{create, register, perform}
use distributed_job_schedule.Broker.World.{World}
use distributed_job_schedule.Scheduler.Dispatcher.Delivery.{is_sent}
use distributed_job_schedule.System.Moments.{
  idle, publishing, in_hand, worker_of, Reaches, here, step, calls, fetches,
}
use distributed_job_schedule.System.Moments.Held.{Reaches-in_hand}
use distributed_job_schedule.Tests.Instances.{env, call, world}

abbrev empty : World
empty = record world { db = no_rows; log = [] }

abbrev job : Job
job = new_job 800 "echo" (b'1' ∷ []) (pos 0)

abbrev hired : World
hired = record empty { db = perform env.engine (call 0) (register "node") empty.db }

abbrev submitted : World
submitted = record hired { db = perform env.engine (call 0) (create job) hired.db }

abbrev row : Job
row = record {
  id = 800;
  status = running;
  type = "echo";
  payload = b'1' ∷ [];
  priority = pos 0;
  attempts = 1;
  worker_id = some 900;
  created_at = 100_000_000;
  updated_at = 100_000_000;
}

abbrev within : World
within = record submitted {
  db = (fetch_pending env.engine (env.call submitted.calls) 900 (pos 1) submitted.db).0;
  calls = submitted.calls + 1;
}

row_there : job_at 800 within.db ≡ some row
unfolding perform Jobs.create Jobs.insert_job new_job Workers.register Workers.insert_worker
    fetch_pending Jobs.fetch_rows Jobs.picked Jobs.before insertion_sort
row_there = refl

within_reached : Reaches env (empty, idle) (within, publishing 900 (row ∷ []))
unfolding perform Jobs.create Jobs.insert_job new_job Workers.register Workers.insert_worker
    fetch_pending Jobs.fetch_rows Jobs.picked Jobs.before insertion_sort
within_reached =
    step (submitted, idle) _
      (step (hired, idle) (submitted, idle)
        (step (empty, idle) (hired, idle) here (calls empty idle (call 0) (register "node") tt))
        (calls hired idle (call 0) (create job) tt))
      (fetches submitted 900 (pos 1))

Reaches-in_hand_example :
    (is_sent env.json within.log row ≡ true)
    ⊎ ((any (has_id 800) (in_hand (publishing 900 (row ∷ []))) ≡ true)
        × (row.worker_id ≡ some (worker_of (publishing 900 (row ∷ [])))))
Reaches-in_hand_example =
    Reaches-in_hand env empty within (publishing 900 (row ∷ [])) 800 row (λ n. refl) refl
      within_reached row_there refl
