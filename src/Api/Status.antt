-- ===== src/Api/Status.antt =====
-- `GetJobStatus` and `ListJobs` of internal/api/http/handler/job_handler.go, with `Get` and `Set` of
-- internal/cache/status_cache.go. The expiry of cache entries after five minutes is left out.
pub mod Stale
use text.Mathlib.Text.{◌==◌ as str_eq}
use distributed_job_schedule.Prelude.{
  ℕ, String, Bool, true, false, Option, none, some, List, [], ◌∷◌, find, ◌==◌, if◌then◌else◌,
}
use distributed_job_schedule.Prelude.Int.{ℤ, pos, leb_ℤ, ltb_ℤ}
use distributed_job_schedule.Models.{Uuid, Time, Payload, Job, job_status_name}
use distributed_job_schedule.Errors.{Result, ok, err, not_found}
use distributed_job_schedule.Repository.Database.{Link, reachable, refused, lost}
use distributed_job_schedule.Repository.Jobs
use distributed_job_schedule.Repository.Jobs.{ListParams}
use distributed_job_schedule.Broker.Messages.{Bytes}
use distributed_job_schedule.Broker.World.{World, Env, query, tick_call}
use distributed_job_schedule.Collector.Results.{has_key}
use distributed_job_schedule.Api.{Response, error, reply}
use distributed_job_schedule.Api.Paging.{Query, some_text, page_limit, page_offset}

-- dto.JobResponse
pub record JobResponse : Type 0 where
  pub id : Uuid
  pub status : String
  pub type : String
  pub payload : Payload
  pub priority : ℤ
  pub attempts : ℕ
  pub worker_id : Option Uuid
  pub created_at : Time
  pub updated_at : Time

abbrev pub to_job_response : Job → JobResponse
to_job_response j = record {
  id = j.id;
  status = job_status_name j.status;
  type = j.type;
  payload = j.payload;
  priority = j.priority;
  attempts = j.attempts;
  worker_id = j.worker_id;
  created_at = j.created_at;
  updated_at = j.updated_at;
}

-- The header X-Cache, and the bytes of the cache or the response that is encoded.
pub data Body : Type 0 where
  hit : Bytes → Body
  miss : JobResponse → Body

abbrev pub bytes_of : Option (Uuid × Bytes) → Option Bytes
bytes_of none = none
bytes_of (some e) = some e.1

abbrev pub cached_at : Uuid → World → Option Bytes
cached_at id w = bytes_of (find (has_key id) w.cache)

-- `StatusCache.Get`; the handler takes an error as it takes a miss.
abbrev pub read_cache : Link → Option Bytes → Option Bytes
read_cache reachable b = b
read_cache _ b = none

-- `StatusCache.Set`
abbrev pub write_cache : Link → Uuid → Bytes → World → World
write_cache refused id b w = tick_call w
write_cache _ id b w = tick_call (record w { cache = (id, b) ∷ w.cache })

abbrev pub populate : Env → Bool → Uuid → Option Bytes → World → World
populate env false id b w = w
populate env true id none w = w
populate env true id (some b) w = write_cache (env.redis w.calls) id b w

-- `encode` is `json.Marshal` of the response.
module _ (encode : JobResponse → Option Bytes) where
  abbrev pub answer_status : Env → Bool → Uuid → World × Result Job → World × Response Body
  answer_status env cached id (w, err not_found) = (w, error 404 "job not found")
  answer_status env cached id (w, err _) = (w, error 500 "failed to get job")
  answer_status env cached id (w, ok j) =
      (populate env cached id (encode (to_job_response j)) w, reply 200 (miss (to_job_response j)))

  abbrev pub fetch_status : Env → Bool → Uuid → World → World × Response Body
  fetch_status env cached id w = answer_status env cached id (query env (λ c. Jobs.get c id) w)

  abbrev pub after_cache : Env → Uuid → Option Bytes → World → World × Response Body
  after_cache env id (some b) w = (w, reply 200 (hit b))
  after_cache env id none w = fetch_status env true id w

  abbrev pub lookup_status : Env → Bool → Uuid → World → World × Response Body
  lookup_status env false id w = fetch_status env false id w
  lookup_status env true id w =
      after_cache env id (read_cache (env.redis w.calls) (cached_at id w)) (tick_call w)

  -- `GetJobStatus`; `cached` is whether there is a StatusCache.
  unfoldable pub get_job_status : Env → Bool → Option Uuid → World → World × Response Body
  get_job_status env cached none w = (w, error 400 "invalid job id")
  get_job_status env cached (some id) w = lookup_status env cached id w

abbrev pub params_of : Query → ListParams
params_of q = record {
  status = some_text q.status;
  type = some_text q.type;
  limit = page_limit q;
  offset = page_offset q;
}

-- dto.ListJobsResponse
pub record JobsPage : Type 0 where
  pub jobs : List JobResponse
  pub limit : ℤ
  pub offset : ℤ

abbrev pub responses : List Job → List JobResponse
responses [] = []
responses (j ∷ jobs) = to_job_response j ∷ responses jobs

abbrev pub answer_list : ListParams → World × Result (List Job) → World × Response JobsPage
answer_list p (w, err _) = (w, error 500 "failed to list jobs")
answer_list p (w, ok jobs) =
    (w, reply 200 (record { jobs = responses jobs; limit = p.limit; offset = p.offset }))

-- `ListJobs`
unfoldable pub list_jobs : Env → Query → World → World × Response JobsPage
list_jobs env q w =
    let p = params_of q in answer_list p (query env (λ c. Jobs.list env.engine c p) w)
