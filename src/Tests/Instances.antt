-- ===== src/Tests/Instances.antt =====
-- Functions that fill the interfaces, which shows that their laws can hold together, and small tables.
use text.Mathlib.Text.{◌==◌ as str_eq}
use text.Mathlib.TextEquality.{eq_iff}
use distributed_job_schedule.Prelude.{
  ℕ, ◌≡◌, refl, Bool, true, false, not, ◌&&◌, Option, none, some, List, [], ◌∷◌, if◌then◌else◌,
  arith,
}
use distributed_job_schedule.Prelude.Int.{ℤ, pos, negsuc}
use distributed_job_schedule.Prelude.Sorting.{insertion}
use distributed_job_schedule.Models.{Payload, Job, Worker, queued, running, retrying, idle}
use distributed_job_schedule.Repository.Database.{
  Database, DeadLetter, Engine, Call, reachable, refused,
}
use distributed_job_schedule.Broker.Messages.{
  Bytes, Json, JobMessage, ResultMessage, HeartbeatMessage,
}
use distributed_job_schedule.Broker.World.{World, Env, KafkaRecord}

abbrev json_column : Payload → Option Payload
json_column [] = none
json_column (b ∷ bytes) = some (b ∷ bytes)

pub json_column_twice : (p q : Payload) → json_column p ≡ some q → json_column q ≡ some q
json_column_twice [] q h = ground arith
json_column_twice (b ∷ bytes) q h = ground arith

abbrev pub engine : Engine
engine = record {
  job_sorter = λ c. insertion;
  worker_sorter = λ c. insertion;
  letter_sorter = λ c. insertion;
  returning = λ rows. rows;
  returning-count = λ p rows. refl;
  jsonb = json_column;
  jsonb-jsonb = json_column_twice;
}

abbrev is_nil : List ℕ → Bool
is_nil [] = true
is_nil (b ∷ bytes) = false

abbrev pub magnitude : ℤ → ℕ
magnitude (pos n) = n
magnitude (negsuc n) = n

abbrev pub is_pos : ℤ → Bool
is_pos (pos n) = true
is_pos (negsuc n) = false

-- A marshaller of the jobs "echo" with no payload and no negative number, that refuses all others.
abbrev encode_job : JobMessage → Option Bytes
encode_job m =
    if str_eq m.type "echo" && (is_nil m.payload && is_pos m.priority)
    then some (m.job_id ∷ m.worker_id ∷ magnitude m.priority ∷ m.attempts ∷ [])
    else none

abbrev decode_job : Bytes → Option JobMessage
decode_job (i ∷ k ∷ p ∷ n ∷ []) = some (record {
  job_id = i;
  worker_id = k;
  type = "echo";
  payload = [];
  priority = pos p;
  attempts = n;
})
decode_job _ = none

pub decode-encode_job : (m : JobMessage) (b : Bytes) → encode_job m ≡ some b → decode_job b ≡ some m
decode-encode_job m b h = ground (arith, eq_iff m.type "echo")

abbrev encode_result : ResultMessage → Option Bytes
encode_result m =
    if str_eq m.job_type "echo" && (str_eq m.error "boom" && (is_nil m.payload && not m.success))
    then some (m.job_id ∷ m.worker_id ∷ m.attempts ∷ [])
    else none

abbrev decode_result : Bytes → Option ResultMessage
decode_result (i ∷ k ∷ n ∷ []) = some (record {
  job_id = i;
  worker_id = k;
  success = false;
  error = "boom";
  job_type = "echo";
  payload = [];
  attempts = n;
})
decode_result _ = none

pub decode-encode_result :
    (m : ResultMessage) (b : Bytes) → encode_result m ≡ some b → decode_result b ≡ some m
decode-encode_result m b h = ground (arith, eq_iff m.job_type "echo", eq_iff m.error "boom")

abbrev encode_heartbeat : HeartbeatMessage → Option Bytes
encode_heartbeat m =
    if str_eq m.hostname "node" && (is_pos m.cpu && (is_pos m.memory && is_pos m.running_jobs))
    then some (
        m.worker_id
        ∷ magnitude m.cpu
        ∷ magnitude m.memory
        ∷ magnitude m.running_jobs
        ∷ m.timestamp
        ∷ [])
    else none

abbrev decode_heartbeat : Bytes → Option HeartbeatMessage
decode_heartbeat (k ∷ c ∷ m ∷ n ∷ t ∷ []) = some (record {
  worker_id = k;
  hostname = "node";
  cpu = pos c;
  memory = pos m;
  running_jobs = pos n;
  timestamp = t;
})
decode_heartbeat _ = none

pub decode-encode_heartbeat :
    (m : HeartbeatMessage) (b : Bytes) → encode_heartbeat m ≡ some b → decode_heartbeat b ≡ some m
decode-encode_heartbeat m b h = ground (arith, eq_iff m.hostname "node")

abbrev pub json : Json
json = record {
  compact = λ p. p;
  encode_job = encode_job;
  encode_result = encode_result;
  encode_heartbeat = encode_heartbeat;
  decode_job = decode_job;
  decode_result = decode_result;
  decode_heartbeat = decode_heartbeat;
  decode-encode_job = decode-encode_job;
  decode-encode_result = decode-encode_result;
  decode-encode_heartbeat = decode-encode_heartbeat;
}

-- Every call is made 100 seconds after the start, over a connection that holds.
abbrev pub call : ℕ → Call
call n = record { link = reachable; now = 100_000_000; locked = []; fresh = 900 }

abbrev pub env : Env
env = record {
  engine = engine;
  json = json;
  call = call;
  kafka = λ n. reachable;
  redis = λ n. reachable;
}

-- As `env`, but Kafka refuses every record.
abbrev pub env_down : Env
env_down = record env { kafka = λ n. refused }

abbrev pub job_low : Job
job_low = record {
  id = 1;
  status = queued;
  type = "echo";
  payload = [];
  priority = pos 1;
  attempts = 0;
  worker_id = none;
  created_at = 10;
  updated_at = 10;
}

abbrev pub job_high : Job
job_high = record job_low {
  id = 2;
  status = retrying;
  priority = pos 7;
  attempts = 2;
  created_at = 20;
}

abbrev pub job_running : Job
job_running = record job_low { id = 3; status = running; attempts = 1; worker_id = some 50 }

abbrev pub worker_idle : Worker
worker_idle = record {
  id = 50;
  host = "node";
  status = idle;
  cpu = some (pos 0);
  memory = some (pos 1250);
  running_jobs = pos 4;
  last_heartbeat = some 99_000_000;
  created_at = 5;
}

abbrev pub worker_silent : Worker
worker_silent = record worker_idle { id = 51; last_heartbeat = some 1_000_000 }

abbrev pub letter : DeadLetter
letter = record {
  id = 70;
  job_id = 8;
  worker_id = some 50;
  job_type = "echo";
  payload = b'{' ∷ b'}' ∷ [];
  attempts = 3;
  error = "boom";
  status = "OPEN";
  replayed_at = none;
  replayed_job_id = none;
  created_at = 30;
}

abbrev pub tables : Database
tables = record {
  jobs = job_low ∷ job_high ∷ job_running ∷ [];
  workers = worker_idle ∷ worker_silent ∷ [];
  letters = letter ∷ [];
}

abbrev pub world : World
world = record {
  db = tables;
  log = [];
  cache = (3, 1 ∷ []) ∷ [];
  keys = [];
  rates = [];
  metrics = record {
    jobs_completed = 0;
    jobs_failed = 0;
    jobs_retried = 0;
    jobs_dead = 0;
    dead_letters_persisted = 0;
    jobs_submitted = 0;
    jobs_replayed = 0;
  };
  calls = 0;
}

abbrev pub result_of : ℕ → ResultMessage
result_of n = record {
  job_id = 3;
  worker_id = 50;
  success = false;
  error = "boom";
  job_type = "echo";
  payload = [];
  attempts = n;
}

abbrev pub result_record : KafkaRecord
result_record = record { topic = "results"; key = 3; value = 3 ∷ 50 ∷ 1 ∷ [] }
