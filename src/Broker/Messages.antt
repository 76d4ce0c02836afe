-- ===== src/Broker/Messages.antt =====
-- internal/broker/messages.go and topics.go, and what encoding/json does with the messages.
use distributed_job_schedule.Prelude.{ℕ, String, ◌≡◌, Bool, Option, some, List}
use distributed_job_schedule.Prelude.Int.{ℤ}
use distributed_job_schedule.Models.{Uuid, Time, Payload, Hundredths}

abbrev pub topic_jobs : String
topic_jobs = "jobs"

abbrev pub topic_results : String
topic_results = "results"

abbrev pub topic_heartbeats : String
topic_heartbeats = "heartbeats"

abbrev pub topic_dead_letter : String
topic_dead_letter = "dead-letters"

pub record JobMessage : Type 0 where
  pub job_id : Uuid
  pub worker_id : Uuid
  pub type : String
  pub payload : Payload
  pub priority : ℤ
  pub attempts : ℕ

pub record ResultMessage : Type 0 where
  pub job_id : Uuid
  pub worker_id : Uuid
  pub success : Bool
  pub error : String
  pub job_type : String
  pub payload : Payload
  pub attempts : ℕ

pub record HeartbeatMessage : Type 0 where
  pub worker_id : Uuid
  pub hostname : String
  pub cpu : Hundredths
  pub memory : Hundredths
  pub running_jobs : ℤ
  pub timestamp : Time

-- The bytes of a Kafka value.
abbrev pub Bytes : Type 0
Bytes = List ℕ

-- `json.Marshal` and `Decode`, which is `json.Unmarshal`. Marshalling fails if the payload is no
-- JSON; what is decoded is what was encoded, with the payload compacted.
pub record Json : Type 0 where
  pub compact : Payload → Payload
  pub encode_job : JobMessage → Option Bytes
  pub encode_result : ResultMessage → Option Bytes
  pub encode_heartbeat : HeartbeatMessage → Option Bytes
  pub decode_job : Bytes → Option JobMessage
  pub decode_result : Bytes → Option ResultMessage
  pub decode_heartbeat : Bytes → Option HeartbeatMessage
  pub decode-encode_job :
      (m : JobMessage) (b : Bytes)
      → encode_job m ≡ some b
      → decode_job b ≡ some (record m { payload = compact m.payload })
  pub decode-encode_result :
      (m : ResultMessage) (b : Bytes)
      → encode_result m ≡ some b
      → decode_result b ≡ some (record m { payload = compact m.payload })
  pub decode-encode_heartbeat :
      (m : HeartbeatMessage) (b : Bytes) → encode_heartbeat m ≡ some b → decode_heartbeat b ≡ some m
