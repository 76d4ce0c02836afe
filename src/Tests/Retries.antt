-- ===== src/Tests/Retries.antt =====
-- A job that is submitted to empty tables and whose failure is reported, as steps of the programs.
use distributed_job_schedule.Prelude.{◌≡◌, ◌<◌, refl, none, some, [], ◌∷◌, false}
use distributed_job_schedule.Prelude.Int.{pos}
use distributed_job_schedule.Models.{Job, retrying}
use distributed_job_schedule.Models
use distributed_job_schedule.Repository.Database.{no_rows}
use distributed_job_schedule.Repository.Jobs
use distributed_job_schedule.Repository.Jobs.{job_at}
use distributed_job_schedule.Broker.World.{World, KafkaRecord}
use distributed_job_schedule.Strings
use distributed_job_schedule.Collector.Results
use distributed_job_schedule.Api.Auth
use distributed_job_schedule.Api.Limit
use distributed_job_schedule.Api.Submit
use distributed_job_schedule.Api.Router
use distributed_job_schedule.Api.Router.{Server, HttpRequest, closed, post_job}
use distributed_job_schedule.System
use distributed_job_schedule.System.Retries.{Reaches-retrying}
use distributed_job_schedule.Tests.Instances.{env, world}

abbrev empty_world : World
empty_world = record world { db = no_rows }

abbrev server : Server
server = record {
  limiter = record { limit = 100; window = 60 };
  api_key = [];
  hasher = record { digest = λ bytes. "digest"; bytes_of = λ s. []; prefixed = λ s. s };
  encode = λ r. none;
  fresh = 800;
}

abbrev request : HttpRequest
request = record {
  route = closed (
      post_job
        (some (record { type = "echo"; payload = b'1' ∷ []; priority = pos 0; header = "key" })));
  origin = record { forwarded_for = b'1' ∷ []; remote_addr = [] };
  headers = record { authorization = []; x_api_key = [] };
  second = 5;
}

abbrev accepted : World
accepted = (Router.handle_request env server request empty_world).0

abbrev failure : KafkaRecord
failure = record { topic = "results"; key = 800; value = 800 ∷ 50 ∷ 1 ∷ [] }

abbrev failed : World
failed = (Results.handle_result env false failure accepted).0

failed_reached : System.Reaches env empty_world failed
failed_reached =
    System.step accepted failed
      (System.step empty_world accepted System.here (System.answers server request))
      (System.collects false failure)

abbrev retried : Job
retried = record {
  id = 800;
  status = retrying;
  type = "echo";
  payload = b'1' ∷ [];
  priority = pos 0;
  attempts = 0;
  worker_id = none;
  created_at = 100_000_000;
  updated_at = 100_000_000;
}

there : job_at 800 failed.db ≡ some retried
unfolding Router.handle_request Limit.rate_limit Limit.allow Limit.extract_ip Strings.split
    Strings.trim_space Strings.trim_left Strings.trim_right Auth.refusal Router.serve
    Submit.submit_job Submit.check Jobs.create Jobs.insert_job Models.new_job Results.handle_result
    Results.settle Jobs.mark_failed
there = refl

Reaches-retrying_example : retried.attempts < 3
Reaches-retrying_example =
    Reaches-retrying env empty_world failed 800 retried refl failed_reached there refl
