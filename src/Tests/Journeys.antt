-- ===== src/Tests/Journeys.antt =====
-- The theorems on the programs together, at the way of one job.
use text.Mathlib.Text.{◌==◌ as str_eq}
use text.Mathlib.TextEquality.{eq_iff}
use distributed_job_schedule.Prelude.{
  ◌≡◌, refl, String, true, ◌&&◌, Option, none, some, [], ◌∷◌, if◌then◌else◌, arith,
}
use distributed_job_schedule.Prelude.Int.{pos, ◌-ℤ◌}
use distributed_job_schedule.Prelude.Sorting.{insertion_sort}
use distributed_job_schedule.Models.{Job, running, completed, new_job}
use distributed_job_schedule.Errors.{ok}
use distributed_job_schedule.Repository.Database.{no_rows}
use distributed_job_schedule.Repository.Jobs.{job_at, touch, fetch_pending, picked, before, create}
use distributed_job_schedule.Repository.Workers.{fetch_healthy, less_loaded, upsert_heartbeat}
use distributed_job_schedule.Broker.Messages.{Bytes, ResultMessage}
use distributed_job_schedule.Broker.World.{World, Env, KafkaRecord}
use distributed_job_schedule.Scheduler.Dispatcher as Dispatch
use distributed_job_schedule.Scheduler.Dispatcher.Delivery.{is_sent}
use distributed_job_schedule.Scheduler.Heartbeat as Beats
use distributed_job_schedule.Collector.Results.{handle_result}
use distributed_job_schedule.Worker.{Runner, execute}
use distributed_job_schedule.Worker.Outcome.{result_record}
use distributed_job_schedule.Api.{reply}
use distributed_job_schedule.Strings.{
  split_host_port, split_last, trim_space, trim_left, trim_right, split_once,
}
use distributed_job_schedule.Broker.Producer.{publish_job}
use distributed_job_schedule.Api.Limit.{rate_limit, allow, extract_ip}
use distributed_job_schedule.Api.Auth.{refusal, extract_api_key}
use distributed_job_schedule.Api.Submit.{Hasher, Request, submit_job, check}
use distributed_job_schedule.Api.Status.{get_job_status, miss, to_job_response}
use distributed_job_schedule.Api.Router.{
  Server, HttpRequest, post_job, closed, serve, handle_request,
}
use distributed_job_schedule.System
use distributed_job_schedule.System.Pipeline.{assigned, ordered, submit_job-completes}
use distributed_job_schedule.System.Sent.{Reaches-is_sent}
use distributed_job_schedule.Tests.EchoJobs.{encode_job, decode_job, decode-encode_job}
use distributed_job_schedule.Tests.Instances.{env, json, world, tables, job_running, worker_idle}

-- A marshaller of the successes of the jobs "echo".
abbrev encode_result : ResultMessage → Option Bytes
encode_result m =
    if str_eq m.job_type "echo" && (str_eq m.error "" && m.success)
    then some (m.job_id ∷ m.worker_id ∷ m.attempts ∷ m.payload)
    else none

abbrev decode_result : Bytes → Option ResultMessage
decode_result (i ∷ k ∷ n ∷ payload) = some (record {
  job_id = i;
  worker_id = k;
  success = true;
  error = "";
  job_type = "echo";
  payload = payload;
  attempts = n;
})
decode_result _ = none

decode-encode_result :
    (m : ResultMessage) (b : Bytes) → encode_result m ≡ some b → decode_result b ≡ some m
decode-encode_result m b h = ground (arith, eq_iff m.job_type "echo", eq_iff m.error "")

abbrev full_env : Env
full_env = record env {
  json = record json {
    encode_job = encode_job;
    decode_job = decode_job;
    decode-encode_job = decode-encode_job;
    encode_result = encode_result;
    decode_result = decode_result;
    decode-encode_result = decode-encode_result;
  };
}

abbrev idle_world : World
idle_world = record world { db = record tables { jobs = job_running ∷ [] } }

abbrev hasher : Hasher
hasher = record { digest = λ bytes. "digest"; bytes_of = λ s. []; prefixed = λ s. s }

abbrev body : Request
body = record { type = "echo"; payload = b'1' ∷ []; priority = pos 0; header = "key" }

abbrev runners : String → Option Runner
runners type = some (λ payload. none)

one_healthy :
    (fetch_healthy full_env.engine (full_env.call 2) 15 idle_world.db).1 ≡ ok (worker_idle ∷ [])
unfolding fetch_healthy insertion_sort
one_healthy = refl

abbrev made : Job
made = assigned full_env 800 body (b'1' ∷ []) 50 idle_world

submit_job-completes_example :
    (get_job_status
      (λ r. none)
      full_env
      true
      (some 800)
      (handle_result full_env true (result_record 800 (800 ∷ 50 ∷ 1 ∷ b'1' ∷ [])) (
        execute full_env 50 runners
          (ordered full_env made)
          (Dispatch.tick full_env
            (submit_job full_env hasher true 800 (some body) idle_world).0).0)).0).1
    ≡ reply 200 (miss (to_job_response (touch 100_000_000 (record made { status = completed }))))
unfolding ◌-ℤ◌
submit_job-completes_example =
    (submit_job-completes (λ r. none) full_env hasher 800 body idle_world (b'1' ∷ []) worker_idle
      runners (800 ∷ 50 ∷ 0 ∷ 1 ∷ b'1' ∷ []) (800 ∷ 50 ∷ 1 ∷ b'1' ∷ []) (800 ∷ 50 ∷ 1 ∷ b'1' ∷ [])
      (λ n. refl) (λ n. refl) (λ n. refl) refl refl refl refl one_healthy refl refl refl refl refl
      refl).6

abbrev good : KafkaRecord
good = record { topic = "heartbeats"; key = 50; value = 50 ∷ 1 ∷ 2 ∷ 0 ∷ 7 ∷ [] }

abbrev server : Server
server = record {
  limiter = record { limit = 2; window = 60 };
  api_key = [];
  hasher = hasher;
  encode = λ r. none;
  fresh = 800;
}

abbrev request : HttpRequest
request = record {
  route = closed (post_job (some body));
  origin = record { forwarded_for = []; remote_addr = [] };
  headers = record { authorization = []; x_api_key = [] };
  second = 5;
}

abbrev w0 : World
w0 = record world { db = no_rows }

abbrev w1 : World
w1 = (Beats.handle full_env good w0).0

abbrev w2 : World
w2 = (handle_request full_env server request w1).0

abbrev w3 : World
w3 = (Dispatch.tick full_env w2).0

w3_reached : System.Reaches full_env w0 w3
w3_reached =
    System.step w2 w3
      (System.step w1 w2 (System.step w0 w1 System.here (System.hears good))
        (System.answers server request))
      System.dispatches

abbrev row : Job
row = record {
  id = 800;
  status = running;
  type = "echo";
  payload = b'1' ∷ [];
  priority = pos 0;
  attempts = 1;
  worker_id = some 50;
  created_at = 100_000_000;
  updated_at = 100_000_000;
}

row_there : job_at 800 w3.db ≡ some row
unfolding Beats.handle upsert_heartbeat handle_request rate_limit allow extract_ip split_host_port
    split_last trim_space trim_left trim_right split_once refusal extract_api_key serve submit_job
    check create new_job Dispatch.tick fetch_healthy insertion_sort less_loaded
    Dispatch.dispatch_workers Dispatch.dispatch_worker Dispatch.dispatch_jobs Dispatch.dispatch_job
    ◌-ℤ◌ fetch_pending picked before publish_job
row_there = refl

Reaches-is_sent_example : is_sent full_env.json w3.log row ≡ true
Reaches-is_sent_example =
    Reaches-is_sent full_env w0 w3 800 row (λ n. refl) refl w3_reached row_there refl
