-- ===== src/Tests/Server.antt =====
-- The theorems on the HTTP server and the configuration at small inputs.
use text.Mathlib.Text.{◌==◌ as str_eq}
use distributed_job_schedule.Prelude.{
  ◌≡◌, ◌≢◌, refl, none, [], ◌∷◌, if◌then◌else◌, arith, ap, length, false,
}
use distributed_job_schedule.Prelude.Int.{pos}
use distributed_job_schedule.Errors.{ok}
use distributed_job_schedule.Broker.World.{Slot}
use distributed_job_schedule.Strings.{
  Text, same, codes, format, trim_space, trim_left, trim_right, split_once,
}
use distributed_job_schedule.Strings.Split.{join}
use distributed_job_schedule.Strings.Trim.{same_iff}
use distributed_job_schedule.Config.{Environ, load}
use distributed_job_schedule.Config.Load.{load-printed}
use distributed_job_schedule.Api.Auth.{extract_api_key}
use distributed_job_schedule.Api.Limit.{Limiter}
use distributed_job_schedule.Api.Limit.Counted.{Arrivals, passed, passed-fresh}
use distributed_job_schedule.Api.Paging.{Query}
use distributed_job_schedule.Api.Router.{Server, HttpRequest, get_workers, closed, handle_request}
use distributed_job_schedule.Api.Router.Closed.{IsUntouched, handle_request-closed}
use distributed_job_schedule.Tests.Instances.{env, world}

abbrev dsn : Text
dsn = codes "postgres://db"

abbrev redis : Text
redis = codes "redis:6379"

abbrev environ : Environ
environ name =
    if str_eq name "DATABASE_URL"
    then dsn
    else if str_eq name "HTTP_PORT"
    then format 80
    else if str_eq name "KAFKA_BROKERS"
    then join b',' (codes "a" ∷ codes "b" ∷ [])
    else if str_eq name "REDIS_ADDR"
    then redis
    else if str_eq name "API_KEY"
    then codes "secret"
    else []

load-printed_example :
    load environ
    ≡ ok (record {
      postgres_dsn = dsn;
      http_port = pos 80;
      kafka_brokers = codes "a" ∷ codes "b" ∷ [];
      redis_addr = redis;
      api_key = codes "secret";
    })
load-printed_example =
    load-printed environ dsn redis (codes "secret") 80 (codes "a") (codes "b" ∷ []) refl refl refl
      refl refl refl (omega arith) (refl, (refl, tt)) refl refl

no_blank : trim_space (codes "a ") ≢ codes "a "
unfolding trim_space trim_left trim_right
no_blank h = ground arith

abbrev limiter : Limiter
limiter = record { limit = 2; window = 60 }

abbrev address : Text
address = codes "10.0.0.1"

abbrev arrivals : Arrivals
arrivals = (5, address) ∷ (6, codes "x") ∷ (7, address) ∷ (8, address) ∷ []

abbrev slot : Slot
slot = record { key = address; window = 0 }

passed-fresh_example : passed env limiter slot arrivals world ≡ 2
passed-fresh_example = passed-fresh env limiter slot arrivals world (λ n. refl) refl

trimmed_address : trim_space address ≡ address
unfolding trim_space trim_left trim_right
trimmed_address = refl

abbrev server : Server
server = record {
  limiter = limiter;
  api_key = codes "secret";
  hasher = record { digest = λ bytes. "digest"; bytes_of = λ s. []; prefixed = λ s. s };
  encode = λ r. none;
  fresh = 800;
}

abbrev query : Query
query = record { limit = []; offset = []; status = ""; type = "" }

abbrev request : HttpRequest
request = record {
  route = closed (get_workers query);
  origin = record { forwarded_for = address; remote_addr = [] };
  headers = record { authorization = []; x_api_key = codes "guess" };
  second = 5;
}

offered : extract_api_key request.headers ≡ codes "guess"
unfolding extract_api_key split_once trim_space trim_left trim_right
offered = refl

wrong_key : same (extract_api_key request.headers) server.api_key ≡ false
wrong_key = rw offered refl

other_key : extract_api_key request.headers ≢ server.api_key
other_key h =
    let right = (same_iff (extract_api_key request.headers) server.api_key).1 h in
    let wrong = wrong_key in cc

handle_request-closed_example : IsUntouched world (handle_request env server request world).0
handle_request-closed_example =
    (handle_request-closed env server request world (get_workers query) refl
      (λ h. absurd (omega (arith, ap length h))) other_key).0
