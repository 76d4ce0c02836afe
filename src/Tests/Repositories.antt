-- ===== src/Tests/Repositories.antt =====
-- The theorems on the repositories at the small tables.
use distributed_job_schedule.Prelude.{
  ◌≡◌, ◌⊎◌, inl, ◌≤◌, ◌+◌, ◌==◌, refl, true, false, some, [], ◌∷◌, any,
}
use distributed_job_schedule.Prelude.Int.{pos, leb_ℤ, ltb_ℤ}
use distributed_job_schedule.Prelude.Sorting.{insertion_sort}
use distributed_job_schedule.Models.{Job, queued, running, retrying}
use distributed_job_schedule.Errors.{ok}
use distributed_job_schedule.Repository.Database.{Database}
use distributed_job_schedule.Repository.Jobs
use distributed_job_schedule.Repository.Jobs.{
  has_id, job_at, touch, assign, release, before, picked, fetch_pending, is_candidate,
}
use distributed_job_schedule.Repository.Jobs.Fetch.{fetch_pending_lem}
use distributed_job_schedule.Repository.Jobs.Priority.{fetch_pending-priority}
use distributed_job_schedule.Repository.Workers.{Beat}
use distributed_job_schedule.Repository.DeadLetters.{NewLetter}
use distributed_job_schedule.Repository.Operations.{Operation, perform, mark_failed}
use distributed_job_schedule.Repository.Operations.Validity.{IsValid, perform-IsValid}
use distributed_job_schedule.Repository.Operations.Lifecycle.{Moves, perform-Moves}
use distributed_job_schedule.Tests.Instances.{engine, call, tables, job_low, job_high, job_running}
use distributed_job_schedule.Tests.Tables.{tables-IsKeyed, tables-IsValid}

abbrev taken : Job
taken = touch 100_000_000 (assign 50 job_high)

abbrev after_fetch : Database
after_fetch = record tables { jobs = job_low ∷ taken ∷ job_running ∷ [] }

fetched : fetch_pending engine (call 0) 50 (pos 1) tables ≡ (after_fetch, ok (taken ∷ []))
unfolding Jobs.fetch_pending Jobs.fetch_rows Jobs.picked Jobs.before insertion_sort
fetched = refl

fetch_pending_example :
    (j : Job) × (job_at 2 tables ≡ some j)
    × ((j.status ≡ queued) ⊎ (j.status ≡ retrying))
    × (any (λ l. l == 2) (call 0).locked ≡ false)
    × (job_at 2 after_fetch
        ≡ some (record j {
          status = running;
          worker_id = some 50;
          attempts = j.attempts + 1;
          updated_at = 100_000_000;
        }))
fetch_pending_example =
    (fetch_pending_lem engine (call 0) 50 1 tables after_fetch (taken ∷ []) tables-IsKeyed
        fetched).0
      2 refl

fetch_pending-priority_example :
    (ltb_ℤ job_low.priority job_high.priority ≡ true)
    ⊎ ((leb_ℤ job_low.priority job_high.priority ≡ true)
        × (job_high.created_at ≤ job_low.created_at))
fetch_pending-priority_example =
    fetch_pending-priority engine (call 0) 50 1 tables after_fetch (taken ∷ []) 1 2 job_low job_high
      tables-IsKeyed fetched refl (inl refl) refl refl refl refl

abbrev beat : Beat
beat = record { host = "node"; cpu = pos 10; memory = pos 100_000; running_jobs = pos 0 }

abbrev new : NewLetter
new = record {
  job_id = 3;
  worker_id = some 50;
  job_type = "echo";
  payload = b'{' ∷ b'}' ∷ [];
  attempts = 3;
  error = "boom";
}

perform-IsValid_example : IsValid (perform engine (call 0) (mark_failed 3 3) tables)
perform-IsValid_example = perform-IsValid engine (call 0) (mark_failed 3 3) tables tables-IsValid

perform-Moves_example :
    Moves
      (Operation.fetch_pending 50 (pos 1))
      tables
      (some job_high)
      (job_at 2 (perform engine (call 0) (Operation.fetch_pending 50 (pos 1)) tables))
perform-Moves_example =
    perform-Moves engine (call 0) (Operation.fetch_pending 50 (pos 1)) tables 2 tables-IsKeyed
