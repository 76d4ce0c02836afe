-- ===== src/System/Sent.antt =====
-- The orders for the jobs that are RUNNING, over all programs together.
use distributed_job_schedule.Prelude.{ℕ, ◌≡◌, refl, true, false, some, List, [], arith}
use distributed_job_schedule.Models.{Uuid, Job, running}
use distributed_job_schedule.Repository.Database.{Database, reachable, no_rows}
use distributed_job_schedule.Repository.Jobs.{job_at}
use distributed_job_schedule.Repository.Jobs.Rows.{passes_at}
use distributed_job_schedule.Repository.Operations.{perform}
use distributed_job_schedule.Repository.Operations.Kept.{IsKeptElsewhere}
use distributed_job_schedule.Repository.Operations.Lifecycle.{perform-Moves}
use distributed_job_schedule.Repository.Operations.Validity.{
  IsValid, no_rows-IsValid, perform-IsValid,
}
use distributed_job_schedule.Repository.Workers.{fetch_healthy}
use distributed_job_schedule.Broker.World.{World, Env, KafkaRecord, query}
use distributed_job_schedule.Scheduler.Dispatcher.{tick}
use distributed_job_schedule.Scheduler.Dispatcher.Kept.{fetch_healthy-db, tick_kept}
use distributed_job_schedule.Scheduler.Dispatcher.Validity.{IsValid-kept}
use distributed_job_schedule.Scheduler.Dispatcher.Delivery.{
  is_running, is_sent, covers_row, IsUp, after_healthy-Covers, Covers-refl,
}
use distributed_job_schedule.System.{
  Step, dispatches, monitors, hears, collects, keeps_letter, executes, beats, answers, Reaches,
  here, step,
}
use distributed_job_schedule.System.Covered.{Moves-covered, covered-grown}
use distributed_job_schedule.System.Handlers.{
  monitor_kept, heartbeat_kept, result_kept, letter_kept, execute-db, beat-db,
}
use distributed_job_schedule.System.Requests.{handle_request_kept}
use distributed_job_schedule.System.Logs.{
  Grows, monitor-log, heartbeat-log, letter-log, execute-Grows, beat-Grows, result-Grows,
}
use distributed_job_schedule.System.RequestLogs.{handle_request-log}

-- With the log as it is.
IsCovered : Env → Database → List KafkaRecord → Database → Type 0
IsCovered env start log db =
    IsValid db × ((i : Uuid) → covers_row env.json log start 0 [] i (job_at i db) ≡ true)

IsCovered-kept :
    (env : Env) (start : Database) (log : List KafkaRecord)
    → IsKeptElsewhere env.engine (IsCovered env start log)
unfolding IsCovered
IsCovered-kept env start log c o db other (v, h) = (
  perform-IsValid env.engine c o db v,
  λ i.
      Moves-covered env.json log start 0 [] i o db (job_at i db)
        (job_at i (perform env.engine c o db)) other
        (perform-Moves env.engine c o db i v.jobs_keyed) (h i),
)

module _ (env : Env) (start : Database) (log log' : List KafkaRecord) (grows : Grows log log') where
  IsCovered-grown : (db : Database) → IsCovered env start log db → IsCovered env start log' db
  unfolding IsCovered
  IsCovered-grown db (v, h) =
      (v, λ i. covered-grown env start log log' grows 0 [] i (job_at i db) (h i))

module _ (env : Env) (up : IsUp env) (start : Database) where
  tick-IsCovered :
      (w : World)
      → IsCovered env start w.log w.db
      → IsCovered env start (tick env w).0.log (tick env w).0.db
  unfolding IsCovered tick
  tick-IsCovered w (v, h) =
      let r = query env (λ c. fetch_healthy env.engine c 15) w in
      let same = fetch_healthy-db env.engine (env.call w.calls) 15 w.db in
      (
        tick_kept env IsValid (IsValid-kept env) w v,
        after_healthy-Covers env up start r.0 r.1 (rw same v) (rw same h),
      )

  step-IsCovered :
      (w w' : World)
      → Step env w w'
      → IsCovered env start w.log w.db
      → IsCovered env start w'.log w'.db
  step-IsCovered w w' dispatches h = tick-IsCovered w h
  step-IsCovered w w' monitors h =
      rw (monitor-log env w)
        (monitor_kept env (IsCovered env start w.log) (IsCovered-kept env start w.log) w h)
  step-IsCovered w w' (hears r) h =
      rw (heartbeat-log env r w)
        (heartbeat_kept env (IsCovered env start w.log) (IsCovered-kept env start w.log) r w h)
  step-IsCovered w w' (collects cached r) h =
      IsCovered-grown env start w.log w'.log (result-Grows env cached r w) w'.db
        (result_kept env (IsCovered env start w.log) (IsCovered-kept env start w.log) cached r w h)
  step-IsCovered w w' (keeps_letter r) h =
      rw (letter-log env r w)
        (letter_kept env (IsCovered env start w.log) (IsCovered-kept env start w.log) r w h)
  step-IsCovered w w' (executes me runners o) h =
      IsCovered-grown env start w.log w'.log (execute-Grows env me runners o w) w'.db
        (rw (execute-db env me runners o w) h)
  step-IsCovered w w' (beats me hostname x) h =
      IsCovered-grown env start w.log w'.log (beat-Grows env me hostname x w) w'.db
        (rw (beat-db env me hostname x w) h)
  step-IsCovered w w' (answers s q) h =
      rw (handle_request-log env s q w) (
        handle_request_kept env (IsCovered env start w.log) (IsCovered-kept env start w.log) s q w
          h)

  run-IsCovered :
      (w w' : World)
      → Reaches env w w'
      → IsCovered env start w.log w.db
      → IsCovered env start w'.log w'.db
  run-IsCovered w w' here h = h
  run-IsCovered w w' (step u _ before next) h =
      step-IsCovered u w' next (run-IsCovered w u before h)

-- Between the handlers, where each tick, message, job, heartbeat and request is handled to its end before
-- the next one is: from empty tables, over a database that answers, whatever Kafka, Redis and the workers
-- do, and whatever messages and requests the programs get in whatever order, of a job that is RUNNING the
-- row names a worker, and the log of Kafka has an order to run this job under the key of that worker.
-- Nothing is said of the time within a tick, between `FetchPending` and `PublishJob`, nor of a scheduler
-- that ends there.
pub Reaches-is_sent :
    (env : Env) (w w' : World) (i : Uuid) (j : Job)
    → ((n : ℕ) → (env.call n).link ≡ reachable)
    → w.db ≡ no_rows
    → Reaches env w w'
    → job_at i w'.db ≡ some j
    → j.status ≡ running
    → is_sent env.json w'.log j ≡ true
unfolding IsCovered
Reaches-is_sent env w w' i j up empty reached there runs =
    let (v, covers) =
      run-IsCovered env up w.db w w' reached (rw empty no_rows-IsValid, Covers-refl env w) in
    let nothing : passes_at is_running (job_at i w.db) ≡ false = rw empty refl in
    ground (arith, covers i)
