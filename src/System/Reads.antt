-- ===== src/System/Reads.antt =====
-- The calls of the API that leave the tables as they are.
use distributed_job_schedule.Prelude.{
  ◌≡◌, refl, ◌∙◌, List, select, ◌&&◌, inl, inr, String, Bool, Option, none, some, arith,
  Option-cases,
}
use distributed_job_schedule.Models.{Uuid, Job}
use distributed_job_schedule.Errors.{Result, ok, err}
use distributed_job_schedule.Repository.Database.{Database, Engine, Call, exec, with_db}
use distributed_job_schedule.Repository.Jobs
use distributed_job_schedule.Repository.Workers
use distributed_job_schedule.Repository.DeadLetters
use distributed_job_schedule.Broker.Messages.{Bytes}
use distributed_job_schedule.Broker.World.{World, Env, query}
use distributed_job_schedule.Api.Paging.{Query}
use distributed_job_schedule.Api.Submit.{check}
use distributed_job_schedule.Api.Status
use distributed_job_schedule.Api.Status.{JobResponse, get_job_status, list_jobs}
use distributed_job_schedule.Api.Replay.{get_letter, list_letters}
use distributed_job_schedule.Api.Workers as Listing
use distributed_job_schedule.Api.Limit.{rate_limit, allow}
use distributed_job_schedule.Api.Router.{HttpRequest, Server}

reads-db :
    {A : Type 0} (c : Call) (f : Database → Option A) (db : Database)
    → (exec c (λ t. with_db t (f t)) db).0 ≡ db
reads-db c f db = elim (Option-cases (f db)) [ inl e ↦ ground arith | inr (a, e) ↦ ground arith ]

jobs_listed-db :
    (e : Engine) (c : Call) (o : Option (Job → Bool)) (p : Jobs.ListParams) (db : Database)
    → (exec c (Jobs.select_jobs e c o p) db).0 ≡ db
unfolding Jobs.select_jobs
jobs_listed-db e c none p db = ground arith
jobs_listed-db e c (some f) p db =
    let rows = λ (t : Database).
      (e.job_sorter c).sort Jobs.newest_first
        (select (λ j. f j && Jobs.type_filter p.type j) t.jobs) in
    reads-db c (λ t. Jobs.page (Jobs.default_limit p.limit) p.offset (rows t)) db

answer_list-db :
    (p : Jobs.ListParams) (w : World) (r : Result (List Job))
    → (Status.answer_list p (w, r)).0.db ≡ w.db
answer_list-db p w (ok jobs) = refl
answer_list-db p w (err x) = refl

pub list_jobs-db : (env : Env) (q : Query) (w : World) → (list_jobs env q w).0.db ≡ w.db
unfolding list_jobs Jobs.list
list_jobs-db env q w =
    let p = Status.params_of q in
    let r = query env (λ c. Jobs.list env.engine c p) w in
    answer_list-db p r.0 r.1
    ∙ jobs_listed-db env.engine (env.call w.calls) (Jobs.status_filter p.status) p w.db

pub get_job_status-db :
    (encode : JobResponse → Option Bytes) (env : Env) (cached : Bool) (id : Option Uuid) (w : World)
    → (get_job_status encode env cached id w).0.db ≡ w.db
unfolding get_job_status Jobs.get
get_job_status-db encode env cached id w = ground arith

pub list_letters-db : (env : Env) (q : Query) (w : World) → (list_letters env q w).0.db ≡ w.db
unfolding list_letters DeadLetters.list
list_letters-db env q w = ground arith

pub get_letter-db : (env : Env) (id : Option Uuid) (w : World) → (get_letter env id w).0.db ≡ w.db
unfolding get_letter DeadLetters.get
get_letter-db env id w = ground arith

pub list_workers-db :
    (env : Env) (q : Query) (w : World) → (Listing.list_workers env q w).0.db ≡ w.db
unfolding Listing.list_workers Workers.list
list_workers-db env q w = ground arith

pub get_worker-db :
    (env : Env) (id : Option Uuid) (w : World) → (Listing.get_worker env id w).0.db ≡ w.db
unfolding Listing.get_worker Workers.get
get_worker-db env id w = ground arith

pub rate_limit-db :
    (env : Env) (s : Server) (q : HttpRequest) (w : World)
    → (rate_limit env s.limiter q.second q.origin w).0.db ≡ w.db
unfolding rate_limit allow
rate_limit-db env s q w = ground arith

pub check-db :
    (env : Env) (key : String) (id : Uuid) (hash : String) (w : World)
    → (check env key id hash w).0.db ≡ w.db
unfolding check
check-db env key id hash w = ground arith

pub existing-db :
    (env : Env) (id : Uuid) (w : World) → (query env (λ c. Jobs.get c id) w).0.db ≡ w.db
unfolding Jobs.get
existing-db env id w = ground arith

pub letter-db :
    (env : Env) (id : Uuid) (w : World) → (query env (λ c. DeadLetters.get c id) w).0.db ≡ w.db
unfolding DeadLetters.get
letter-db env id w = ground arith
