-- ===== src/Scheduler/Heartbeat.antt =====
-- internal/scheduler/heartbeat_consumer.go.
pub mod Poison
use distributed_job_schedule.Prelude.{ℕ, Option, none, some}
use distributed_job_schedule.Errors.{Result, ok, err, decode_failure}
use distributed_job_schedule.Repository.Workers.{Beat, upsert_heartbeat}
use distributed_job_schedule.Broker.Messages.{HeartbeatMessage, Json}
use distributed_job_schedule.Broker.World.{World, Env, KafkaRecord, query}

abbrev pub beat_of : HeartbeatMessage → Beat
beat_of m = record {
  host = m.hostname;
  cpu = m.cpu;
  memory = m.memory;
  running_jobs = m.running_jobs;
}

abbrev pub upsert_message : Env → Option HeartbeatMessage → World → World × Result (Unit {0})
upsert_message env none w = (w, err decode_failure)
upsert_message env (some m) w = query env (λ c. upsert_heartbeat c m.worker_id (beat_of m)) w

-- `Handle`
unfoldable pub handle : Env → KafkaRecord → World → World × Result (Unit {0})
handle env r w = upsert_message env (env.json.decode_heartbeat r.value) w
