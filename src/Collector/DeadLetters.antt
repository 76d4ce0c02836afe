-- ===== src/Collector/DeadLetters.antt =====
-- internal/collector/dead_letter_consumer.go.
pub mod Persisted
use distributed_job_schedule.Prelude.{ℕ, ◌+◌, Option, none, some, List, [], ◌∷◌}
use distributed_job_schedule.Models.{Payload}
use distributed_job_schedule.Errors.{Result, ok, err, decode_failure}
use distributed_job_schedule.Repository.DeadLetters.{NewLetter, insert}
use distributed_job_schedule.Broker.Messages.{ResultMessage, Json}
use distributed_job_schedule.Broker.World.{World, Env, KafkaRecord, Metrics, query}
use distributed_job_schedule.Collector.Results.{and_count}

-- `len(payload) == 0` becomes `{}`.
abbrev pub or_object : Payload → Payload
or_object [] = b'{' ∷ b'}' ∷ []
or_object (b ∷ bytes) = b ∷ bytes

abbrev pub letter_of : ResultMessage → NewLetter
letter_of m = record {
  job_id = m.job_id;
  worker_id = some m.worker_id;
  job_type = m.job_type;
  payload = or_object m.payload;
  attempts = m.attempts;
  error = m.error;
}

abbrev pub inc_persisted : Metrics → Metrics
inc_persisted m = record m { dead_letters_persisted = m.dead_letters_persisted + 1 }

abbrev pub persist : Env → Option ResultMessage → World → World × Result (Unit {0})
persist env none w = (w, err decode_failure)
persist env (some m) w =
    and_count inc_persisted (query env (λ c. insert env.engine c (letter_of m)) w)

-- `Handle`
unfoldable pub handle : Env → KafkaRecord → World → World × Result (Unit {0})
handle env r w = persist env (env.json.decode_result r.value) w
