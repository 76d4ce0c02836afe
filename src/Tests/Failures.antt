-- ===== src/Tests/Failures.antt =====
-- A job that fails three times.
use text.Mathlib.Text.{◌==◌ as str_eq}
use text.Mathlib.TextEquality.{eq_iff}
use distributed_job_schedule.Prelude.{
  ◌≡◌, false, not, ◌&&◌, Option, none, some, [], ◌∷◌, if◌then◌else◌, arith,
}
use distributed_job_schedule.Broker.Messages.{Bytes, ResultMessage}
use distributed_job_schedule.Broker.World.{World, Env}
use distributed_job_schedule.System.Rounds.{Setting}
use distributed_job_schedule.Tests.EchoJobs.{encode_job, decode_job, decode-encode_job}
use distributed_job_schedule.Tests.Instances.{
  env, json, world, tables, job_low, job_running, worker_idle,
}

-- A marshaller of their failures with the error "boom".
abbrev encode_result : ResultMessage → Option Bytes
encode_result m =
    if str_eq m.job_type "echo" && (str_eq m.error "boom" && not m.success)
    then some (m.job_id ∷ m.worker_id ∷ m.attempts ∷ m.payload)
    else none

abbrev decode_result : Bytes → Option ResultMessage
decode_result (i ∷ k ∷ n ∷ payload) = some (record {
  job_id = i;
  worker_id = k;
  success = false;
  error = "boom";
  job_type = "echo";
  payload = payload;
  attempts = n;
})
decode_result _ = none

decode-encode_result :
    (m : ResultMessage) (b : Bytes) → encode_result m ≡ some b → decode_result b ≡ some m
decode-encode_result m b h = ground (arith, eq_iff m.job_type "echo", eq_iff m.error "boom")

abbrev failing_env : Env
failing_env = record env {
  json = record json {
    encode_job = encode_job;
    decode_job = decode_job;
    decode-encode_job = decode-encode_job;
    encode_result = encode_result;
    decode_result = decode_result;
    decode-encode_result = decode-encode_result;
  };
}

abbrev setting : Setting
setting = record {
  env = failing_env;
  worker = worker_idle;
  runners = λ type. some (λ payload. some "boom");
  tables = tables;
  others = job_running ∷ [];
  job = record job_low { id = 800; payload = b'1' ∷ [] };
  error = "boom";
  order_body = λ n. 800 ∷ 50 ∷ 1 ∷ n ∷ b'1' ∷ [];
  result_body = λ n. 800 ∷ 50 ∷ n ∷ b'1' ∷ [];
  letter_body = λ n. 800 ∷ 50 ∷ n ∷ b'1' ∷ [];
}

abbrev waiting : World
waiting = record world {
  db = record tables { jobs = job_running ∷ record job_low { id = 800; payload = b'1' ∷ [] } ∷ [] };
}
