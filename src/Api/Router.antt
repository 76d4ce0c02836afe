-- ===== src/Api/Router.antt =====
-- internal/api/http/router.go: the middlewares and the handlers behind them. A request comes with the
-- route that chi has found for its method and path; what chi answers where there is none is left out,
-- and so are its own middlewares and the logging.
pub mod Closed
use distributed_job_schedule.Prelude.{ℕ, String, Bool, true, false, Option, none, some}
use distributed_job_schedule.Models.{Uuid}
use distributed_job_schedule.Repository.Database.{DeadLetter}
use distributed_job_schedule.Models.{Job}
use distributed_job_schedule.Broker.Messages.{Bytes}
use distributed_job_schedule.Broker.World.{World, Env}
use distributed_job_schedule.Strings.{Text}
use distributed_job_schedule.Api.{Response}
use distributed_job_schedule.Api.Paging.{Query}
use distributed_job_schedule.Api.Auth
use distributed_job_schedule.Api.Auth.{Headers}
use distributed_job_schedule.Api.Limit.{Limiter, Origin, rate_limit}
use distributed_job_schedule.Api.Submit.{Hasher, Request, submit_job, cancel_job}
use distributed_job_schedule.Api.Status.{JobResponse, JobsPage, Body, get_job_status, list_jobs}
use distributed_job_schedule.Api.Replay.{
  LettersPage, get_letter, delete_letter, replay, list_letters,
}
use distributed_job_schedule.Api.Workers.{WorkerResponse, WorkersPage, list_workers, get_worker}

-- The routes behind APIKeyAuth, with what the handlers read of the URL, the headers and the body.
pub data Endpoint : Type 0 where
  post_job : Option Request → Endpoint
  get_jobs : Query → Endpoint
  get_job : Option Uuid → Endpoint
  delete_job : Option Uuid → Endpoint
  get_letters : Query → Endpoint
  get_letter_by : Option Uuid → Endpoint
  post_replay : Option Uuid → Endpoint
  delete_letter_by : Option Uuid → Endpoint
  get_workers : Query → Endpoint
  get_worker_by : Option Uuid → Endpoint

pub data Route : Type 0 where
  health metrics : Route
  closed : Endpoint → Route

pub record HttpRequest : Type 0 where
  pub route : Route
  pub origin : Origin
  pub headers : Headers
  pub second : ℕ

-- What is written: a refusal of a middleware, one of the open routes, or a handler's response.
pub data Answer : Type 0 where
  refused : ℕ → String → Answer
  healthy scraped : Answer
  job : Response Job → Answer
  jobs : Response JobsPage → Answer
  status : Response Body → Answer
  done : Response (Unit {0}) → Answer
  letters : Response LettersPage → Answer
  letter : Response DeadLetter → Answer
  replayed : Response Uuid → Answer
  workers : Response WorkersPage → Answer
  worker : Response WorkerResponse → Answer

-- The arguments of NewRouter and what the handlers use of the standard library; `fresh` is what
-- `uuid.New` draws.
pub record Server : Type 0 where
  pub limiter : Limiter
  pub api_key : Text
  pub hasher : Hasher
  pub encode : JobResponse → Option Bytes
  pub fresh : Uuid

abbrev pub sent : {A : Type 0} → (Response A → Answer) → World × Response A → World × Answer
sent f (w, r) = (w, f r)

-- The API runs with an idempotency store and a status cache.
unfoldable pub serve : Env → Server → Endpoint → World → World × Answer
serve env s (post_job q) w = sent job (submit_job env s.hasher true s.fresh q w)
serve env s (get_jobs q) w = sent jobs (list_jobs env q w)
serve env s (get_job id) w = sent status (get_job_status s.encode env true id w)
serve env s (delete_job id) w = sent done (cancel_job env id w)
serve env s (get_letters q) w = sent letters (list_letters env q w)
serve env s (get_letter_by id) w = sent letter (get_letter env id w)
serve env s (post_replay id) w = sent replayed (replay env id s.fresh w)
serve env s (delete_letter_by id) w = sent done (delete_letter env id w)
serve env s (get_workers q) w = sent workers (list_workers env q w)
serve env s (get_worker_by id) w = sent worker (get_worker env id w)

-- `APIKeyAuth` before a handler
abbrev pub authorize : Env → Server → Endpoint → Option String → World → World × Answer
authorize env s e (some text) w = (w, refused 401 text)
authorize env s e none w = serve env s e w

abbrev pub dispatch : Env → Server → HttpRequest → Route → World → World × Answer
dispatch env s q health w = (w, healthy)
dispatch env s q metrics w = (w, scraped)
dispatch env s q (closed e) w = authorize env s e (Auth.refusal s.api_key q.headers) w

abbrev pub after_limit : Env → Server → HttpRequest → World × Option (ℕ × String) → World × Answer
after_limit env s q (w, some (code, text)) = (w, refused code text)
after_limit env s q (w, none) = dispatch env s q q.route w

-- The handler that `NewRouter` builds.
unfoldable pub handle_request : Env → Server → HttpRequest → World → World × Answer
handle_request env s q w = after_limit env s q (rate_limit env s.limiter q.second q.origin w)
