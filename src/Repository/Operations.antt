-- ===== src/Repository/Operations.antt =====
-- The calls of the three repositories that write, as one type: what any of the programs may do to
-- the database next, with whatever the environment decides for the statement.
pub mod Transitions
pub mod Lifecycle
pub mod Validity
pub mod Kept
use distributed_job_schedule.Prelude.{ℕ, String, List, [], ◌∷◌}
use distributed_job_schedule.Prelude.Int.{ℤ}
use distributed_job_schedule.Models.{Uuid, Job}
use distributed_job_schedule.Repository.Database.{Database, Engine, Call}
use distributed_job_schedule.Repository.Jobs
use distributed_job_schedule.Repository.Workers
use distributed_job_schedule.Repository.Workers.{Beat}
use distributed_job_schedule.Repository.DeadLetters
use distributed_job_schedule.Repository.DeadLetters.{NewLetter}

pub data Operation : Type 0 where
  create : Job → Operation
  cancel : Uuid → Operation
  fetch_pending : Uuid → ℤ → Operation
  requeue_stale : ℕ → Operation
  mark_completed : Uuid → Operation
  mark_failed : Uuid → ℕ → Operation
  rollback_to_queued : Uuid → Operation
  register : String → Operation
  upsert_heartbeat : Uuid → Beat → Operation
  mark_unhealthy : ℕ → Operation
  insert_letter : NewLetter → Operation
  mark_replayed : Uuid → Uuid → Operation
  delete_letter : Uuid → Operation

-- The tables after the call, whatever it answers.
unfoldable pub perform : Engine → Call → Operation → Database → Database
perform e c (create j) db = (Jobs.create e c j db).0
perform e c (cancel id) db = (Jobs.cancel c id db).0
perform e c (fetch_pending worker limit) db = (Jobs.fetch_pending e c worker limit db).0
perform e c (requeue_stale stale) db = (Jobs.requeue_stale c stale db).0
perform e c (mark_completed id) db = (Jobs.mark_completed c id db).0
perform e c (mark_failed id limit) db = (Jobs.mark_failed c id limit db).0
perform e c (rollback_to_queued id) db = (Jobs.rollback_to_queued c id db).0
perform e c (register host) db = (Workers.register c host db).0
perform e c (upsert_heartbeat id b) db = (Workers.upsert_heartbeat c id b db).0
perform e c (mark_unhealthy stale) db = (Workers.mark_unhealthy c stale db).0
perform e c (insert_letter n) db = (DeadLetters.insert e c n db).0
perform e c (mark_replayed id job_id) db = (DeadLetters.mark_replayed c id job_id db).0
perform e c (delete_letter id) db = (DeadLetters.delete c id db).0

-- A history: the calls of all the programs, in the order in which the database serves them.
unfoldable pub history : Engine → List (Call × Operation) → Database → Database
history e [] db = db
history e ((c, o) ∷ rest) db = history e rest (perform e c o db)
