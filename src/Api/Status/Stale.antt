-- ===== src/Api/Status/Stale.antt =====
-- What `GetJobStatus` answers behind a cancellation.
use distributed_job_schedule.Prelude.{ℕ, ◌+◌, ◌≡◌, true, Option, none, some, arith}
use distributed_job_schedule.Models.{Uuid, Job, dead}
use distributed_job_schedule.Repository.Database.{reachable}
use distributed_job_schedule.Repository.Jobs
use distributed_job_schedule.Repository.Jobs.{has_id, job_at, touch, is_cancellable}
use distributed_job_schedule.Repository.Jobs.Rows.{IsKeyed, cancel_lem}
use distributed_job_schedule.Broker.Messages.{Bytes}
use distributed_job_schedule.Broker.World.{World, Env}
use distributed_job_schedule.Api.{reply}
use distributed_job_schedule.Api.Submit.{cancel_job}
use distributed_job_schedule.Api.Status.{
  JobResponse, to_job_response, hit, miss, get_job_status, cached_at,
}

-- The state that `GetJobStatus` read before a cancellation is what it answers behind it, with a cache, a
-- database and a Redis that answer and no entry at first: the first request is answered from the
-- table, `CancelJob` answers 204 and makes the job DEAD, and the next request is answered 200 with what
-- the first one stored.
pub get_job_status-stale :
    (encode : JobResponse → Option Bytes) (env : Env) (id : Uuid) (w : World) (j : Job) (b : Bytes)
    → ((n : ℕ) → (env.call n).link ≡ reachable)
    → ((n : ℕ) → env.redis n ≡ reachable)
    → IsKeyed w.db.jobs
    → cached_at id w ≡ none
    → job_at id w.db ≡ some j
    → is_cancellable j.status ≡ true
    → encode (to_job_response j) ≡ some b
    → let (w1, r1) = get_job_status encode env true (some id) w in
      let (w2, r2) = cancel_job env (some id) w1 in
      let (w3, r3) = get_job_status encode env true (some id) w2 in
      (r1 ≡ reply 200 (miss (to_job_response j)))
      × (r2 ≡ reply 204 tt)
      × (job_at id w2.db
          ≡ some (touch (env.call (w.calls + 1 + 1 + 1)).now (record j { status = dead })))
      × (r3 ≡ reply 200 (hit b))
unfolding get_job_status cancel_job Jobs.get
get_job_status-stale encode env id w j b up redis keyed empty there can encodes =
    let gone =
      cancel_lem (env.call (w.calls + 1 + 1 + 1)) id w.db (up (w.calls + 1 + 1 + 1)) keyed in
    rw (redis w.calls, empty, up (w.calls + 1), there, encodes, redis (w.calls + 1 + 1))
      (ground (arith, gone.0, gone.1 id, redis (w.calls + 1 + 1 + 1 + 1)))
