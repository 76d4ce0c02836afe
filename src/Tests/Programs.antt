-- ===== src/Tests/Programs.antt =====
-- The theorems on the consumers and the loops of the programs at the small tables.
use distributed_job_schedule.Prelude.{◌≡◌, refl, true, some, List, [], ◌∷◌, arith}
use distributed_job_schedule.Prelude.Int.{pos, ◌-ℤ◌}
use distributed_job_schedule.Prelude.Sorting.{insertion_sort}
use distributed_job_schedule.Models.{Job, retrying}
use distributed_job_schedule.Errors.{ok}
use distributed_job_schedule.Repository.Jobs
use distributed_job_schedule.Repository.Jobs.{job_at, touch, assign, release, is_stale}
use distributed_job_schedule.Repository.Workers.{fetch_healthy, less_loaded}
use distributed_job_schedule.Broker.Messages.{HeartbeatMessage, topic_heartbeats}
use distributed_job_schedule.Broker.Producer.{publish, publish_job}
use distributed_job_schedule.Broker.World.{KafkaRecord}
use distributed_job_schedule.Broker.Consumer.{Round, fetched, accepted, canceled}
use distributed_job_schedule.Scheduler.Dispatcher
use distributed_job_schedule.Scheduler.Dispatcher.{
  dispatch_job, dispatch_jobs, dispatch_worker, dispatch_workers,
}
use distributed_job_schedule.Scheduler.Monitor
use distributed_job_schedule.Scheduler.Monitor.Sweep.{tick-sweeps}
use distributed_job_schedule.Collector.Results.{handle_result}
use distributed_job_schedule.Collector.Results.Outcome.{handle_result_lem}
use distributed_job_schedule.Collector.Results.Late.{is_pending_row, cancel-handle_result}
use distributed_job_schedule.Tests.Instances.{
  env, call, world, tables, job_high, job_running, result_of, result_record,
}
use distributed_job_schedule.Tests.Tables.{tables-IsKeyed}

abbrev sent : Job
sent = touch 100_000_000 (assign 50 job_high)

sent_there : job_at 2 (Dispatcher.tick env world).0.db ≡ some sent
unfolding Dispatcher.tick dispatch_workers dispatch_worker dispatch_jobs dispatch_job publish_job
    publish fetch_healthy less_loaded Jobs.fetch_pending Jobs.fetch_rows Jobs.picked Jobs.before
    Jobs.rollback_to_queued insertion_sort ◌-ℤ◌
sent_there = refl

tick-sweeps_example : (Monitor.tick env world).1 ≡ ok tt
tick-sweeps_example = (tick-sweeps env world (λ n. refl)).0

handle_result_example :
    job_at 3 (handle_result env true result_record world).0.db
    ≡ some (touch 100_000_000 (record job_running { status = retrying }))
handle_result_example =
    (handle_result_lem env true result_record (result_of 1) world job_running (3 ∷ 50 ∷ 1 ∷ [])
      (λ n. refl) (λ n. refl) refl refl refl).1

cancel-handle_result_example :
    is_pending_row (
      job_at 3
        (handle_result env true result_record
          (record world { db = (Jobs.cancel (call 0) 3 tables).0 })).0.db)
    ≡ true
cancel-handle_result_example =
    (cancel-handle_result env (call 0) true result_record (result_of 1) world job_running
      (3 ∷ 50 ∷ 1 ∷ []) (λ n. refl) (λ n. refl) refl tables-IsKeyed refl refl refl refl refl
      (ground arith)).2

abbrev rounds : List Round
rounds =
    record { fetch = fetched result_record; commit = accepted }
    ∷ record { fetch = canceled; commit = accepted }
    ∷ []

abbrev heavy : HeartbeatMessage
heavy = record {
  worker_id = 50;
  hostname = "node";
  cpu = pos 10;
  memory = pos 100_000;
  running_jobs = pos 0;
  timestamp = 7;
}

abbrev heavy_record : KafkaRecord
heavy_record = record { topic = topic_heartbeats; key = 50; value = 50 ∷ 10 ∷ 100_000 ∷ 0 ∷ 7 ∷ [] }

abbrev heavy_round : Round
heavy_round = record { fetch = fetched heavy_record; commit = accepted }
