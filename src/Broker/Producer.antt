-- ===== src/Broker/Producer.antt =====
-- internal/broker/producer.go and job_publisher.go.
use text.Mathlib.Text.{◌==◌ as str_eq}
use distributed_job_schedule.Prelude.{String, Option, none, some, List, [], ◌∷◌, if◌then◌else◌, any}
use distributed_job_schedule.Models.{Uuid}
use distributed_job_schedule.Errors.{Result, err, unknown_topic, encode_failure}
use distributed_job_schedule.Broker.Messages.{
  Bytes, JobMessage, topic_jobs, topic_results, topic_heartbeats, topic_dead_letter,
}
use distributed_job_schedule.Broker.World.{World, Env, KafkaRecord, deliver}

-- The keys of `Producer.writers`.
abbrev pub writers : List String
writers = topic_jobs ∷ topic_results ∷ topic_heartbeats ∷ topic_dead_letter ∷ []

abbrev send : Env → KafkaRecord → World → World × Result (Unit {0})
send env r w = deliver (env.kafka w.calls) r w

abbrev marshalled : Env → String → Uuid → Option Bytes → World → World × Result (Unit {0})
marshalled env topic key none w = (w, err encode_failure)
marshalled env topic key (some body) w =
    send env (record { topic = topic; key = key; value = body }) w

-- `Publish`; `body` is what `json.Marshal` makes of the value.
unfoldable pub publish : Env → String → Uuid → Option Bytes → World → World × Result (Unit {0})
publish env topic key body w =
    if any (str_eq topic) writers then marshalled env topic key body w else (w, err unknown_topic)

unfoldable pub publish_job : Env → JobMessage → World → World × Result (Unit {0})
unfolding publish
publish_job env m = publish env topic_jobs m.worker_id (env.json.encode_job m)
