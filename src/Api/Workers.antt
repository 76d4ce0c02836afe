-- ===== src/Api/Workers.antt =====
-- internal/api/http/handler/worker_handler.go.
use Prim.Native.Nat.{◌/◌}
use distributed_job_schedule.Prelude.{ℕ, String, Option, none, some, List, [], ◌∷◌}
use distributed_job_schedule.Prelude.Int.{ℤ}
use distributed_job_schedule.Models.{Uuid, Time, Hundredths, Worker, worker_status_name}
use distributed_job_schedule.Errors.{Result, ok, err, not_found}
use distributed_job_schedule.Repository.Workers
use distributed_job_schedule.Repository.Workers.{WorkerListParams}
use distributed_job_schedule.Broker.World.{World, Env, query}
use distributed_job_schedule.Api.{Response, error, reply}
use distributed_job_schedule.Api.Paging.{Query, some_text, page_limit, page_offset}

-- dto.WorkerResponse; `last_heartbeat` is the second that RFC 3339 writes.
pub record WorkerResponse : Type 0 where
  pub id : Uuid
  pub host : String
  pub status : String
  pub cpu : Option Hundredths
  pub memory : Option Hundredths
  pub running_jobs : ℤ
  pub last_heartbeat : Option ℕ
  pub created_at : Time

abbrev second_of : Option Time → Option ℕ
second_of none = none
second_of (some t) = some (t / 1_000_000)

abbrev pub to_worker_response : Worker → WorkerResponse
to_worker_response k = record {
  id = k.id;
  host = k.host;
  status = worker_status_name k.status;
  cpu = k.cpu;
  memory = k.memory;
  running_jobs = k.running_jobs;
  last_heartbeat = second_of k.last_heartbeat;
  created_at = k.created_at;
}

abbrev pub responses : List Worker → List WorkerResponse
responses [] = []
responses (k ∷ workers) = to_worker_response k ∷ responses workers

-- dto.ListWorkersResponse
pub record WorkersPage : Type 0 where
  pub workers : List WorkerResponse
  pub limit : ℤ
  pub offset : ℤ

abbrev pub params_of : Query → WorkerListParams
params_of q = record { status = some_text q.status; limit = page_limit q; offset = page_offset q }

abbrev pub answer_list :
    WorkerListParams → World × Result (List Worker) → World × Response WorkersPage
answer_list p (w, err _) = (w, error 500 "failed to list workers")
answer_list p (w, ok workers) =
    (w, reply 200 (record { workers = responses workers; limit = p.limit; offset = p.offset }))

-- `ListWorkers`
unfoldable pub list_workers : Env → Query → World → World × Response WorkersPage
list_workers env q w =
    let p = params_of q in answer_list p (query env (λ c. Workers.list env.engine c p) w)

abbrev pub answer_get : World × Result Worker → World × Response WorkerResponse
answer_get (w, ok worker) = (w, reply 200 (to_worker_response worker))
answer_get (w, err not_found) = (w, error 404 "worker not found")
answer_get (w, err _) = (w, error 500 "failed to get worker")

-- `GetWorker`
unfoldable pub get_worker : Env → Option Uuid → World → World × Response WorkerResponse
get_worker env none w = (w, error 400 "invalid worker id")
get_worker env (some id) w = answer_get (query env (λ c. Workers.get c id) w)
