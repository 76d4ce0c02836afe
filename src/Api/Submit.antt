-- ===== src/Api/Submit.antt =====
-- internal/cache/idempotency.go, and `SubmitJob` and `CancelJob` of
-- internal/api/http/handler/job_handler.go. The expiry of keys after a day is left out.
pub mod Idempotent
pub mod Stored
use text.Mathlib.Text.{◌==◌ as str_eq}
use distributed_job_schedule.Prelude.{
  ℕ, ◌+◌, String, Bool, true, false, Option, none, some, List, [], ◌∷◌, ◌++◌, find, if◌then◌else◌,
}
use distributed_job_schedule.Prelude.Int.{ℤ}
use distributed_job_schedule.Models.{Uuid, Payload, Job, new_job}
use distributed_job_schedule.Errors.{
  Result, ok, err, Error, not_found, redis_failure, payload_mismatch,
}
use distributed_job_schedule.Repository.Database.{Link, reachable, refused, lost}
use distributed_job_schedule.Repository.Jobs
use distributed_job_schedule.Broker.World.{World, Env, Metrics, IdemEntry, query, tick_call}
use distributed_job_schedule.Api.{Response, error, reply}

-- crypto/sha256 with encoding/hex, the bytes of a text, and "auto:" with a text behind it.
pub record Hasher : Type 0 where
  pub digest : List ℕ → String
  pub bytes_of : String → List ℕ
  pub prefixed : String → String

-- `PayloadHash`: the bytes of type and payload are written one behind the other.
abbrev pub payload_hash : Hasher → String → Payload → String
payload_hash h type payload = h.digest (h.bytes_of type ++ payload)

-- `ContentKey`
abbrev pub content_key : Hasher → String → Payload → String
content_key h type payload = h.prefixed (h.digest (h.bytes_of type ++ payload))

abbrev pub has_idem_key : String → String × IdemEntry → Bool
has_idem_key key e = str_eq e.0 key

abbrev pub entry_of : Option (String × IdemEntry) → Option IdemEntry
entry_of none = none
entry_of (some e) = some e.1

abbrev pub entry_at : String → World → Option IdemEntry
entry_at key w = entry_of (find (has_idem_key key) w.keys)

abbrev pub remember : String → IdemEntry → World → World
remember key e w = record w { keys = (key, e) ∷ w.keys }

-- `SETNX` and its answer: whether the key was set.
abbrev pub set_fresh : Link → String → IdemEntry → Option IdemEntry → World → World × Result Bool
set_fresh refused key e old w = (tick_call w, err redis_failure)
set_fresh lost key e none w = (tick_call (remember key e w), err redis_failure)
set_fresh lost key e (some old) w = (tick_call w, err redis_failure)
set_fresh reachable key e none w = (tick_call (remember key e w), ok true)
set_fresh reachable key e (some old) w = (tick_call w, ok false)

abbrev pub set_nx : Env → String → IdemEntry → World → World × Result Bool
set_nx env key e w = set_fresh (env.redis w.calls) key e (entry_at key w) w

-- `GET` of a key; a key that is not there is `redis.Nil`, an error.
abbrev pub read_entry : Link → Option IdemEntry → Result IdemEntry
read_entry reachable (some e) = ok e
read_entry _ _ = err redis_failure

abbrev pub same_hash : String → Result IdemEntry → Result (Option Uuid)
same_hash hash (err x) = err x
same_hash hash (ok e) =
    if str_eq e.payload_hash hash then ok (some e.job_id) else err payload_mismatch

abbrev pub after_set : Env → String → String → World × Result Bool → World × Result (Option Uuid)
after_set env key hash (w, err x) = (w, err x)
after_set env key hash (w, ok true) = (w, ok none)
after_set env key hash (w, ok false) =
    (tick_call w, same_hash hash (read_entry (env.redis w.calls) (entry_at key w)))

-- `Check`: the job that the key stands for, if there was one.
unfoldable pub check : Env → String → Uuid → String → World → World × Result (Option Uuid)
check env key id hash w =
    after_set env key hash (set_nx env key (record { job_id = id; payload_hash = hash }) w)

-- dto.SubmitJobRequest with the header Idempotency-Key, empty if there is none.
pub record Request : Type 0 where
  pub type : String
  pub payload : Payload
  pub priority : ℤ
  pub header : String

abbrev pub inc_submitted : Metrics → Metrics
inc_submitted m = record m { jobs_submitted = m.jobs_submitted + 1 }

abbrev pub after_create : World × Result Job → World × Response Job
after_create (w, err _) = (w, error 500 "failed to create job")
after_create (w, ok created) = (record w { metrics = inc_submitted w.metrics }, reply 201 created)

abbrev pub create_job : Env → Uuid → Request → World → World × Response Job
create_job env fresh q w =
    after_create
      (query env (λ c. Jobs.create env.engine c (new_job fresh q.type q.payload q.priority)) w)

abbrev pub after_existing : World × Result Job → World × Response Job
after_existing (w, err _) = (w, error 500 "failed to fetch existing job")
after_existing (w, ok existing) = (w, reply 200 existing)

abbrev pub after_check : Env → Uuid → Request → World × Result (Option Uuid) → World × Response Job
after_check env fresh q (w, err payload_mismatch) =
    (w, error 409 "idempotency key reused with different payload")
after_check env fresh q (w, err _) = (w, error 500 "idempotency check failed")
after_check env fresh q (w, ok (some id)) = after_existing (query env (λ c. Jobs.get c id) w)
after_check env fresh q (w, ok none) = create_job env fresh q w

abbrev pub idem_key : Hasher → Request → String
idem_key h q = if str_eq q.header "" then content_key h q.type q.payload else q.header

abbrev pub checked : Env → Hasher → Bool → Uuid → Request → World → World × Response Job
checked env h false fresh q w = create_job env fresh q w
checked env h true fresh q w =
    after_check env fresh q (check env (idem_key h q) fresh (payload_hash h q.type q.payload) w)

-- `SubmitJob`; `stored` is whether there is an idempotency store, `fresh` what `uuid.New` draws, and a
-- body that is no JSON is `none`.
unfoldable pub submit_job :
    Env → Hasher → Bool → Uuid → Option Request → World → World × Response Job
unfolding check
submit_job env h stored fresh none w = (w, error 400 "invalid JSON body")
submit_job env h stored fresh (some q) w =
    if str_eq q.type "" then (w, error 400 "type is required") else checked env h stored fresh q w

abbrev pub answer_cancel : World × Result (Unit {0}) → World × Response (Unit {0})
answer_cancel (w, ok _) = (w, reply 204 tt)
answer_cancel (w, err not_found) = (w, error 404 "job not found or not cancellable")
answer_cancel (w, err _) = (w, error 500 "failed to cancel job")

-- `CancelJob`
unfoldable pub cancel_job : Env → Option Uuid → World → World × Response (Unit {0})
cancel_job env none w = (w, error 400 "invalid job id")
cancel_job env (some id) w = answer_cancel (query env (λ c. Jobs.cancel c id) w)
