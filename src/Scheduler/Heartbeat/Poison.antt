-- ===== src/Scheduler/Heartbeat/Poison.antt =====
-- A heartbeat that the table cannot hold ends the scheduler's consumer.
use distributed_job_schedule.Prelude.{ℕ, ◌≡◌, ◌<◌, refl, false, some, List, [], ◌∷◌, arith}
use distributed_job_schedule.Prelude.Int.{pos}
use distributed_job_schedule.Errors.{err, db_failure}
use distributed_job_schedule.Repository.Workers.{fits_row}
use distributed_job_schedule.Repository.Workers.Health.{upsert_heartbeat_misfit}
use distributed_job_schedule.Broker.Messages.{HeartbeatMessage}
use distributed_job_schedule.Broker.World.{World, Env, KafkaRecord, tick_call}
use distributed_job_schedule.Broker.Consumer.{Round, fetched, failed, refused, run}
use distributed_job_schedule.Scheduler.Heartbeat.{beat_of, handle}

handle_misfit :
    (env : Env) (r : KafkaRecord) (m : HeartbeatMessage) (w : World)
    → env.json.decode_heartbeat r.value ≡ some m
    → fits_row (beat_of m) ≡ false
    → handle env r w ≡ (tick_call w, err db_failure)
unfolding handle
handle_misfit env r m w e misfit =
    rw (e, upsert_heartbeat_misfit (env.call w.calls) m.worker_id (beat_of m) w.db misfit) refl

-- A heartbeat that reports 1000 MB of memory or more, on whatever state of the tables and whatever
-- the connections do: when the consumer fetches it, the consumer's loop ends with an error, the
-- record is refused and not committed, and the tables stay as they were.
pub run_large_memory :
    (env : Env) (x : Round) (rounds : List Round) (r : KafkaRecord) (m : HeartbeatMessage) (n : ℕ)
    (w : World)
    → x.fetch ≡ fetched r
    → env.json.decode_heartbeat r.value ≡ some m
    → m.memory ≡ pos n
    → 99_999 < n
    → run (handle env) (x ∷ rounds) w ≡ (tick_call w, refused r ∷ [], failed)
unfolding run
run_large_memory env x rounds r m n w e decoded large over =
    rw e (rw (handle_misfit env r m w decoded (ground arith)) refl)
