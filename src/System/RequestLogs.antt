-- ===== src/System/RequestLogs.antt =====
-- Kafka's log under the requests to the API.
use distributed_job_schedule.Prelude.{
  ℕ, ◌≡◌, refl, ◌∙◌, inl, inr, String, Bool, true, false, Option, none, some, arith, Option-cases,
}
use distributed_job_schedule.Models.{Uuid}
use distributed_job_schedule.Errors.{Result}
use distributed_job_schedule.Repository.Database.{DeadLetter}
use distributed_job_schedule.Broker.Messages.{Bytes}
use distributed_job_schedule.Broker.World.{World, Env}
use distributed_job_schedule.Api.Auth
use distributed_job_schedule.Api.Paging.{Query}
use distributed_job_schedule.Api.Submit.{
  Hasher, Request, check, create_job, after_check, checked, submit_job, cancel_job, idem_key,
  payload_hash,
}
use distributed_job_schedule.Api.Status.{JobResponse, get_job_status, list_jobs}
use distributed_job_schedule.Api.Replay
use distributed_job_schedule.Api.Replay.{get_letter, replay, list_letters, after_get}
use distributed_job_schedule.Api.Workers as Listing
use distributed_job_schedule.Api.Limit.{rate_limit, allow}
use distributed_job_schedule.Api.Router.{
  Endpoint, post_job, get_jobs, get_job, delete_job, get_letters, get_letter_by, post_replay,
  delete_letter_by, get_workers, get_worker_by, Route, health, metrics, closed, HttpRequest, Server,
  serve, dispatch, after_limit, handle_request,
}

create_job-log :
    (env : Env) (fresh : Uuid) (q : Request) (w : World) → (create_job env fresh q w).0.log ≡ w.log
create_job-log env fresh q w = ground arith

check-log :
    (env : Env) (key : String) (id : Uuid) (hash : String) (w : World)
    → (check env key id hash w).0.log ≡ w.log
unfolding check
check-log env key id hash w = ground arith

after_check-log :
    (env : Env) (fresh : Uuid) (q : Request) (w : World) (r : Result (Option Uuid))
    → (after_check env fresh q (w, r)).0.log ≡ w.log
after_check-log env fresh q w r = ground arith

checked-log :
    (env : Env) (h : Hasher) (stored : Bool) (fresh : Uuid) (q : Request) (w : World)
    → (checked env h stored fresh q w).0.log ≡ w.log
checked-log env h false fresh q w = create_job-log env fresh q w
checked-log env h true fresh q w =
    let r = check env (idem_key h q) fresh (payload_hash h q.type q.payload) w in
    after_check-log env fresh q r.0 r.1
    ∙ check-log env (idem_key h q) fresh (payload_hash h q.type q.payload) w

submit_job-log :
    (env : Env) (h : Hasher) (stored : Bool) (fresh : Uuid) (o : Option Request) (w : World)
    → (submit_job env h stored fresh o w).0.log ≡ w.log
unfolding submit_job
submit_job-log env h stored fresh none w = refl
submit_job-log env h stored fresh (some q) w = ground (arith, checked-log env h stored fresh q w)

cancel_job-log : (env : Env) (id : Option Uuid) (w : World) → (cancel_job env id w).0.log ≡ w.log
unfolding cancel_job
cancel_job-log env id w = ground arith

get_job_status-log :
    (encode : JobResponse → Option Bytes) (env : Env) (cached : Bool) (id : Option Uuid) (w : World)
    → (get_job_status encode env cached id w).0.log ≡ w.log
unfolding get_job_status
get_job_status-log encode env cached id w = ground arith

list_jobs-log : (env : Env) (q : Query) (w : World) → (list_jobs env q w).0.log ≡ w.log
unfolding list_jobs
list_jobs-log env q w = ground arith

list_letters-log : (env : Env) (q : Query) (w : World) → (list_letters env q w).0.log ≡ w.log
unfolding list_letters
list_letters-log env q w = ground arith

get_letter-log : (env : Env) (id : Option Uuid) (w : World) → (get_letter env id w).0.log ≡ w.log
unfolding get_letter
get_letter-log env id w = ground arith

after_get-log :
    (env : Env) (id fresh : Uuid) (w : World) (r : Result DeadLetter)
    → (after_get env id fresh (w, r)).0.log ≡ w.log
after_get-log env id fresh w r = ground arith

replay-log :
    (env : Env) (id : Option Uuid) (fresh : Uuid) (w : World)
    → (replay env id fresh w).0.log ≡ w.log
unfolding replay
replay-log env none fresh w = refl
replay-log env (some id) fresh w = ground arith

delete_letter-log :
    (env : Env) (id : Option Uuid) (w : World) → (Replay.delete_letter env id w).0.log ≡ w.log
unfolding Replay.delete_letter
delete_letter-log env id w = ground arith

list_workers-log :
    (env : Env) (q : Query) (w : World) → (Listing.list_workers env q w).0.log ≡ w.log
unfolding Listing.list_workers
list_workers-log env q w = ground arith

get_worker-log :
    (env : Env) (id : Option Uuid) (w : World) → (Listing.get_worker env id w).0.log ≡ w.log
unfolding Listing.get_worker
get_worker-log env id w = ground arith

rate_limit-log :
    (env : Env) (s : Server) (q : HttpRequest) (w : World)
    → (rate_limit env s.limiter q.second q.origin w).0.log ≡ w.log
unfolding rate_limit allow
rate_limit-log env s q w = ground arith

serve-log : (env : Env) (s : Server) (e : Endpoint) (w : World) → (serve env s e w).0.log ≡ w.log
unfolding serve
serve-log env s (post_job q) w = submit_job-log env s.hasher true s.fresh q w
serve-log env s (get_jobs q) w = list_jobs-log env q w
serve-log env s (get_job id) w = get_job_status-log s.encode env true id w
serve-log env s (delete_job id) w = cancel_job-log env id w
serve-log env s (get_letters q) w = list_letters-log env q w
serve-log env s (get_letter_by id) w = get_letter-log env id w
serve-log env s (post_replay id) w = replay-log env id s.fresh w
serve-log env s (delete_letter_by id) w = delete_letter-log env id w
serve-log env s (get_workers q) w = list_workers-log env q w
serve-log env s (get_worker_by id) w = get_worker-log env id w

dispatch-log :
    (env : Env) (s : Server) (q : HttpRequest) (r : Route) (w : World)
    → (dispatch env s q r w).0.log ≡ w.log
dispatch-log env s q health w = refl
dispatch-log env s q metrics w = refl
dispatch-log env s q (closed e) w = elim (Option-cases (Auth.refusal s.api_key q.headers)) [
  | inl f ↦ rw f (serve-log env s e w)
  | inr (text, f) ↦ rw f refl
]

after_limit-log :
    (env : Env) (s : Server) (q : HttpRequest) (w : World) (r : Option (ℕ × String))
    → (after_limit env s q (w, r)).0.log ≡ w.log
after_limit-log env s q w none = dispatch-log env s q q.route w
after_limit-log env s q w (some (code, text)) = refl

pub handle_request-log :
    (env : Env) (s : Server) (q : HttpRequest) (w : World)
    → (handle_request env s q w).0.log ≡ w.log
unfolding handle_request
handle_request-log env s q w =
    let r = rate_limit env s.limiter q.second q.origin w in
    after_limit-log env s q r.0 r.1 ∙ rate_limit-log env s q w
