-- ===== src/System/Requests.antt =====
-- What the requests to the API keep of the tables.
use text.Mathlib.Text.{◌==◌ as str_eq}
use distributed_job_schedule.Prelude.{
  ℕ, inl, inr, String, Bool, true, false, Option, none, some, arith, Bool-cases, Option-cases,
}
use distributed_job_schedule.Prelude.Int.{pos}
use distributed_job_schedule.Models.{Uuid, Job, new_job}
use distributed_job_schedule.Errors.{Result, ok, err, payload_mismatch}
use distributed_job_schedule.Repository.Database.{Database, DeadLetter}
use distributed_job_schedule.Repository.Jobs
use distributed_job_schedule.Repository.DeadLetters
use distributed_job_schedule.Repository.Operations.{
  perform, create, cancel, mark_replayed, delete_letter,
}
use distributed_job_schedule.Repository.Operations.Kept.{IsKeptElsewhere}
use distributed_job_schedule.Broker.World.{World, Env, query}
use distributed_job_schedule.Api.Auth
use distributed_job_schedule.Api.Submit
use distributed_job_schedule.Api.Submit.{
  Hasher, Request, check, create_job, after_check, checked, submit_job, answer_cancel, cancel_job,
  idem_key, payload_hash,
}
use distributed_job_schedule.Api.Replay
use distributed_job_schedule.Api.Replay.{
  get_letter, replay, list_letters, after_get, after_marked, answer_delete,
}
use distributed_job_schedule.Api.Limit.{rate_limit}
use distributed_job_schedule.Api.Router.{
  Endpoint, post_job, get_jobs, get_job, delete_job, get_letters, get_letter_by, post_replay,
  delete_letter_by, get_workers, get_worker_by, Route, health, metrics, closed, HttpRequest, Server,
  serve, dispatch, after_limit, handle_request,
}
use distributed_job_schedule.System.Reads.{
  list_jobs-db, get_job_status-db, list_letters-db, get_letter-db, list_workers-db, get_worker-db,
  rate_limit-db, check-db, existing-db, letter-db,
}

module _ (env : Env) (P : Database → Type 0) (kept : IsKeptElsewhere env.engine P) where
  after_create_kept : (w : World) (r : Result Job) → P w.db → P (Submit.after_create (w, r)).0.db
  after_create_kept w (ok j) v = v
  after_create_kept w (err x) v = v

  create_job_kept :
      (fresh : Uuid) (q : Request) (w : World) → P w.db → P (create_job env fresh q w).0.db
  unfolding perform
  create_job_kept fresh q w v =
      let j = new_job fresh q.type q.payload q.priority in
      let r = query env (λ c. Jobs.create env.engine c j) w in
      after_create_kept r.0 r.1 (kept (env.call w.calls) (create j) w.db tt v)

  after_existing_kept :
      (w : World) (r : Result Job) → P w.db → P (Submit.after_existing (w, r)).0.db
  after_existing_kept w (ok j) v = v
  after_existing_kept w (err x) v = v

  after_check_kept :
      (fresh : Uuid) (q : Request) (w : World) (r : Result (Option Uuid))
      → P w.db
      → P (after_check env fresh q (w, r)).0.db
  after_check_kept fresh q w (err payload_mismatch) v = v
  after_check_kept fresh q w (err x) v = ground arith
  after_check_kept fresh q w (ok none) v = create_job_kept fresh q w v
  after_check_kept fresh q w (ok (some id)) v =
      let r = query env (λ c. Jobs.get c id) w in
      after_existing_kept r.0 r.1 (rw (existing-db env id w) v)

  checked_kept :
      (h : Hasher) (stored : Bool) (fresh : Uuid) (q : Request) (w : World)
      → P w.db
      → P (checked env h stored fresh q w).0.db
  checked_kept h false fresh q w v = create_job_kept fresh q w v
  checked_kept h true fresh q w v =
      let key = idem_key h q in
      let hash = payload_hash h q.type q.payload in
      let r = check env key fresh hash w in
      after_check_kept fresh q r.0 r.1 (rw (check-db env key fresh hash w) v)

  submit_job_kept :
      (h : Hasher) (stored : Bool) (fresh : Uuid) (o : Option Request) (w : World)
      → P w.db
      → P (submit_job env h stored fresh o w).0.db
  unfolding submit_job
  submit_job_kept h stored fresh none w v = v
  submit_job_kept h stored fresh (some q) w v = elim (Bool-cases (str_eq q.type "")) [
    | inl e ↦ rw e v
    | inr e ↦ rw e (checked_kept h stored fresh q w v)
  ]

  answer_cancel_kept : (w : World) (r : Result (Unit {0})) → P w.db → P (answer_cancel (w, r)).0.db
  answer_cancel_kept w (ok u) v = v
  answer_cancel_kept w (err x) v = ground arith

  cancel_job_kept : (id : Option Uuid) (w : World) → P w.db → P (cancel_job env id w).0.db
  unfolding cancel_job perform
  cancel_job_kept none w v = v
  cancel_job_kept (some id) w v =
      let r = query env (λ c. Jobs.cancel c id) w in
      answer_cancel_kept r.0 r.1 (kept (env.call w.calls) (cancel id) w.db tt v)

  after_marked_kept :
      (created : Uuid) (w : World) (r : Result (Unit {0}))
      → P w.db
      → P (after_marked created (w, r)).0.db
  after_marked_kept created w (ok u) v = v
  after_marked_kept created w (err x) v = v

  replay_create_kept :
      (id : Uuid) (w : World) (r : Result Job) → P w.db → P (Replay.after_create env id (w, r)).0.db
  unfolding perform
  replay_create_kept id w (err x) v = v
  replay_create_kept id w (ok created) v =
      let r = query env (λ c. DeadLetters.mark_replayed c id created.id) w in
      after_marked_kept created.id r.0 r.1
        (kept (env.call w.calls) (mark_replayed id created.id) w.db tt v)

  replay_letter_kept :
      (id fresh : Uuid) (w : World) (r : Result DeadLetter)
      → P w.db
      → P (after_get env id fresh (w, r)).0.db
  unfolding perform
  replay_letter_kept id fresh w (err x) v = ground arith
  replay_letter_kept id fresh w (ok letter) v =
      elim (Bool-cases (str_eq letter.status "REPLAYED")) [
        | inl e ↦ simp e v
        | inr e ↦
            let j = new_job fresh letter.job_type letter.payload (pos 0) in
            let r = query env (λ c. Jobs.create env.engine c j) w in
            simp e (replay_create_kept id r.0 r.1 (kept (env.call w.calls) (create j) w.db tt v))
      ]

  replay_kept :
      (id : Option Uuid) (fresh : Uuid) (w : World) → P w.db → P (replay env id fresh w).0.db
  unfolding replay
  replay_kept none fresh w v = v
  replay_kept (some id) fresh w v =
      let r = query env (λ c. DeadLetters.get c id) w in
      replay_letter_kept id fresh r.0 r.1 (rw (letter-db env id w) v)

  answer_delete_kept : (w : World) (r : Result (Unit {0})) → P w.db → P (answer_delete (w, r)).0.db
  answer_delete_kept w (ok u) v = v
  answer_delete_kept w (err x) v = ground arith

  delete_kept : (id : Option Uuid) (w : World) → P w.db → P (Replay.delete_letter env id w).0.db
  unfolding Replay.delete_letter perform
  delete_kept none w v = v
  delete_kept (some id) w v =
      let r = query env (λ c. DeadLetters.delete c id) w in
      answer_delete_kept r.0 r.1 (kept (env.call w.calls) (delete_letter id) w.db tt v)

  serve_kept : (s : Server) (e : Endpoint) (w : World) → P w.db → P (serve env s e w).0.db
  unfolding serve
  serve_kept s (post_job q) w v = submit_job_kept s.hasher true s.fresh q w v
  serve_kept s (get_jobs q) w v = rw (list_jobs-db env q w) v
  serve_kept s (get_job id) w v = rw (get_job_status-db s.encode env true id w) v
  serve_kept s (delete_job id) w v = cancel_job_kept id w v
  serve_kept s (get_letters q) w v = rw (list_letters-db env q w) v
  serve_kept s (get_letter_by id) w v = rw (get_letter-db env id w) v
  serve_kept s (post_replay id) w v = replay_kept id s.fresh w v
  serve_kept s (delete_letter_by id) w v = delete_kept id w v
  serve_kept s (get_workers q) w v = rw (list_workers-db env q w) v
  serve_kept s (get_worker_by id) w v = rw (get_worker-db env id w) v

  dispatch_kept :
      (s : Server) (q : HttpRequest) (r : Route) (w : World)
      → P w.db
      → P (dispatch env s q r w).0.db
  dispatch_kept s q health w v = v
  dispatch_kept s q metrics w v = v
  dispatch_kept s q (closed e) w v = elim (Option-cases (Auth.refusal s.api_key q.headers)) [
    | inl f ↦ rw f (serve_kept s e w v)
    | inr (text, f) ↦ rw f v
  ]

  after_limit_kept :
      (s : Server) (q : HttpRequest) (w : World) (r : Option (ℕ × String))
      → P w.db
      → P (after_limit env s q (w, r)).0.db
  after_limit_kept s q w none v = dispatch_kept s q q.route w v
  after_limit_kept s q w (some (code, text)) v = v

  pub handle_request_kept :
      (s : Server) (q : HttpRequest) (w : World) → P w.db → P (handle_request env s q w).0.db
  unfolding handle_request
  handle_request_kept s q w v =
      let r = rate_limit env s.limiter q.second q.origin w in
      after_limit_kept s q r.0 r.1 (rw (rate_limit-db env s q w) v)
