-- ===== src/Models.antt =====
-- internal/models: the job and worker records and their states. A UUID is a number, a time a number
-- of microseconds, a JSON payload its bytes, and a float64 its value in hundredths (what a column
-- NUMERIC(5,2) keeps of it).
use text.Mathlib.Text.{◌==◌ as str_eq}
use distributed_job_schedule.Prelude.{
  ℕ, ◌*◌, String, Bool, true, false, Option, none, some, List, if◌then◌else◌,
}
use distributed_job_schedule.Prelude.Int.{ℤ}

abbrev pub Uuid : Type 0
Uuid = ℕ

abbrev pub Time : Type 0
Time = ℕ

abbrev pub Payload : Type 0
Payload = List ℕ

abbrev pub Hundredths : Type 0
Hundredths = ℤ

-- An interval of whole seconds (`make_interval(secs => n)`, `n * time.Second`).
abbrev pub seconds : ℕ → Time
seconds n = n * 1_000_000

pub data JobStatus : Type 0 where
  queued running completed failed retrying dead : JobStatus

pub data WorkerStatus : Type 0 where
  active idle unhealthy offline : WorkerStatus

pub record Job : Type 0 where
  pub id : Uuid
  pub status : JobStatus
  pub type : String
  pub payload : Payload
  pub priority : ℤ
  pub attempts : ℕ
  pub worker_id : Option Uuid
  pub created_at : Time
  pub updated_at : Time

pub record Worker : Type 0 where
  pub id : Uuid
  pub host : String
  pub status : WorkerStatus
  pub cpu : Option Hundredths
  pub memory : Option Hundredths
  pub running_jobs : ℤ
  pub last_heartbeat : Option Time
  pub created_at : Time

-- `NewJob`; the UUID that `uuid.New` draws is the argument `id`.
unfoldable pub new_job : Uuid → String → Payload → ℤ → Job
new_job id type payload priority = record {
  id = id;
  status = queued;
  type = type;
  payload = payload;
  priority = priority;
  attempts = 0;
  worker_id = none;
  created_at = 0;
  updated_at = 0;
}

abbrev pub job_status_name : JobStatus → String
job_status_name queued = "QUEUED"
job_status_name running = "RUNNING"
job_status_name completed = "COMPLETED"
job_status_name failed = "FAILED"
job_status_name retrying = "RETRYING"
job_status_name dead = "DEAD"

abbrev pub worker_status_name : WorkerStatus → String
worker_status_name active = "ACTIVE"
worker_status_name idle = "IDLE"
worker_status_name unhealthy = "UNHEALTHY"
worker_status_name offline = "OFFLINE"

-- Which status a text names. Go's `JobStatus` is any string, the enum of the table is not.
unfoldable pub job_status_of : String → Option JobStatus
job_status_of s =
    if str_eq s "QUEUED"
    then some queued
    else if str_eq s "RUNNING"
    then some running
    else if str_eq s "COMPLETED"
    then some completed
    else if str_eq s "FAILED"
    then some failed
    else if str_eq s "RETRYING"
    then some retrying
    else if str_eq s "DEAD"
    then some dead
    else none

unfoldable pub worker_status_of : String → Option WorkerStatus
worker_status_of s =
    if str_eq s "ACTIVE"
    then some active
    else if str_eq s "IDLE"
    then some idle
    else if str_eq s "UNHEALTHY"
    then some unhealthy
    else if str_eq s "OFFLINE"
    then some offline
    else none

abbrev pub same_job_status : JobStatus → JobStatus → Bool
same_job_status queued queued = true
same_job_status running running = true
same_job_status completed completed = true
same_job_status failed failed = true
same_job_status retrying retrying = true
same_job_status dead dead = true
same_job_status _ _ = false

abbrev pub same_worker_status : WorkerStatus → WorkerStatus → Bool
same_worker_status active active = true
same_worker_status idle idle = true
same_worker_status unhealthy unhealthy = true
same_worker_status offline offline = true
same_worker_status _ _ = false
