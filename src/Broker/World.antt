-- ===== src/Broker/World.antt =====
-- What the programs share: the database, the Kafka log and the cache of job states; and what the
-- environment decides for each of their calls, which are numbered.
use distributed_job_schedule.Prelude.{ℕ, ◌+◌, String, List, [], ◌∷◌, ◌++◌}
use distributed_job_schedule.Models.{Uuid}
use distributed_job_schedule.Strings.{Text}
use distributed_job_schedule.Errors.{Result, ok, err, publish_failure}
use distributed_job_schedule.Repository.Database.{
  Database, Engine, Call, Link, reachable, refused, lost,
}
use distributed_job_schedule.Broker.Messages.{Bytes, Json}

-- A record of a topic. Keys are the texts of UUIDs.
pub record KafkaRecord : Type 0 where
  pub topic : String
  pub key : Uuid
  pub value : Bytes

-- The counters of internal/metrics/prometheus.go.
pub record Metrics : Type 0 where
  pub jobs_completed : ℕ
  pub jobs_failed : ℕ
  pub jobs_retried : ℕ
  pub jobs_dead : ℕ
  pub dead_letters_persisted : ℕ
  pub jobs_submitted : ℕ
  pub jobs_replayed : ℕ

-- An entry of the idempotency store in internal/cache/idempotency.go.
pub record IdemEntry : Type 0 where
  pub job_id : Uuid
  pub payload_hash : String

-- What the rate limiter of internal/cache/ratelimit.go counts together.
pub record Slot : Type 0 where
  pub key : Text
  pub window : ℕ

-- `cache` holds the entries `job: <id>` that StatusCache has set, and `keys` the entries
-- `idem:<key>`, the first one of a key being the one that Redis has; `rates` holds the counters
-- `rate:<key>:<window>`.
pub record World : Type 0 where
  pub db : Database
  pub log : List KafkaRecord
  pub cache : List (Uuid × Bytes)
  pub keys : List (String × IdemEntry)
  pub rates : List (Slot × ℕ)
  pub metrics : Metrics
  pub calls : ℕ

pub record Env : Type 0 where
  pub engine : Engine
  pub json : Json
  pub call : ℕ → Call
  pub kafka : ℕ → Link
  pub redis : ℕ → Link

-- A call of a repository.
abbrev pub query :
    {A : Type 0} → Env → (Call → Database → Database × Result A) → World → World × Result A
query env op w =
    let r = op (env.call w.calls) w.db in (record w { db = r.0; calls = w.calls + 1 }, r.1)

abbrev pub append : KafkaRecord → World → World
append r w = record w { log = w.log ++ r ∷ [] }

abbrev pub tick_call : World → World
tick_call w = record w { calls = w.calls + 1 }

-- `writer.WriteMessages` of one message.
abbrev pub deliver : Link → KafkaRecord → World → World × Result (Unit {0})
deliver reachable r w = (tick_call (append r w), ok tt)
deliver refused r w = (tick_call w, err publish_failure)
deliver lost r w = (tick_call (append r w), err publish_failure)
