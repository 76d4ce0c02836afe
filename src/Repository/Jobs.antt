-- ===== src/Repository/Jobs.antt =====
-- internal/repository/jobs.go, with the trigger of migrations/001_init.up.sql.
pub mod Rows
pub mod Create
pub mod Fetch
pub mod Priority
pub mod Requeue
pub mod Single
use text.Mathlib.Text.{◌==◌ as str_eq}
use distributed_job_schedule.Prelude.{
  ℕ, ◌+◌, ◌*◌, ◌-◌, String, Bool, true, false, not, ◌&&◌, ◌||◌, Option, none, some, List, [], ◌∷◌,
  ◌++◌, ltb, leb, ◌==◌, if◌then◌else◌, take, drop, count, select, find, update, any,
}
use distributed_job_schedule.Prelude.Int.{ℤ, pos, negsuc, pos_part, leb_ℤ, ltb_ℤ}
use distributed_job_schedule.Prelude.Sorting.{Sorter}
use distributed_job_schedule.Models.{
  Uuid, Time, Payload, Job, Worker, JobStatus, WorkerStatus, queued, running, completed, retrying,
  dead, unhealthy, seconds, same_job_status, same_worker_status, job_status_of,
}
use distributed_job_schedule.Errors.{Result, ok, err, not_found}
use distributed_job_schedule.Repository.Database.{Database, Engine, Call, Statement, exec, with_db}

-- The greatest INTEGER; one more is an SQL error.
abbrev pub max_int4 : ℕ
max_int4 = 2_147_483_647

abbrev pub has_id : Uuid → Job → Bool
has_id id j = j.id == id

-- The row with a primary key.
abbrev pub job_at : Uuid → Database → Option Job
job_at id db = find (has_id id) db.jobs

-- The trigger `set_updated_at`, which every UPDATE of a job fires.
abbrev pub touch : Time → Job → Job
touch now j = record j { updated_at = now }

-- `UPDATE jobs SET f WHERE p`, and the number of rows that it changes.
abbrev pub update_jobs : Time → (Job → Bool) → (Job → Job) → Database → Database
update_jobs now p f db = record db { jobs = update p (λ j. touch now (f j)) db.jobs }

abbrev pub exec_update : Time → (Job → Bool) → (Job → Job) → Statement ℕ
exec_update now p f db = some (update_jobs now p f db, count p db.jobs)

-- `tag.RowsAffected() == 0`
abbrev pub some_row : Result ℕ → Result (Unit {0})
some_row (err x) = err x
some_row (ok n) = if n == 0 then err not_found else ok tt

abbrev pub affected : Database × Result ℕ → Database × Result (Unit {0})
affected r = (r.0, some_row r.1)

-- `errors.Is(err, pgx.ErrNoRows)` of a query for one row
abbrev pub first_row : {A : Type 0} → Result (Option A) → Result A
first_row (err x) = err x
first_row (ok none) = err not_found
first_row (ok (some a)) = ok a

abbrev pub one_row : {A : Type 0} → Database × Result (Option A) → Database × Result A
one_row r = (r.0, first_row r.1)

-- The row that `Create` inserts: QUEUED, with the columns' defaults.
abbrev pub new_row : Call → Job → Payload → Job
new_row c j stored = record {
  id = j.id;
  status = queued;
  type = j.type;
  payload = stored;
  priority = j.priority;
  attempts = 0;
  worker_id = none;
  created_at = c.now;
  updated_at = c.now;
}

unfoldable pub insert_job : Call → Job → Option Payload → Statement Job
insert_job c j none db = none
insert_job c j (some stored) db =
    if any (has_id j.id) db.jobs
    then none
    else some (record db { jobs = db.jobs ++ new_row c j stored ∷ [] }, new_row c j stored)

-- `Create`: the primary key may clash, and the payload may be no JSON.
unfoldable pub create : Engine → Call → Job → Database → Database × Result Job
unfolding insert_job
create e c j = exec c (insert_job c j (e.jsonb j.payload))

abbrev pub is_cancellable : JobStatus → Bool
is_cancellable queued = true
is_cancellable running = true
is_cancellable retrying = true
is_cancellable _ = false

unfoldable pub cancel : Call → Uuid → Database → Database × Result (Unit {0})
cancel c id db = affected (
    exec c
      (exec_update c.now (λ j. has_id id j && is_cancellable j.status)
        (λ j. record j { status = dead }))
      db)

unfoldable pub get : Call → Uuid → Database → Database × Result Job
get c id db = one_row (exec c (λ t. some (t, job_at id t)) db)

pub record ListParams : Type 0 where
  pub status : Option String
  pub type : Option String
  pub limit : ℤ
  pub offset : ℤ

-- The rows of a filter by status and type; `none` if the text names no status of the enum.
unfoldable pub status_filter : Option String → Option (Job → Bool)
status_filter none = some (λ j. true)
status_filter (some s) = elim (job_status_of s) [
  | none ↦ none
  | some v ↦ some (λ j. same_job_status j.status v)
]

unfoldable pub type_filter : Option String → Job → Bool
type_filter none j = true
type_filter (some t) j = str_eq j.type t

unfoldable pub newest_first : Job → Job → Bool
newest_first a b = leb b.created_at a.created_at

-- `LIMIT limit OFFSET offset`; a negative one is an SQL error.
unfoldable pub page : {A : Type 0} → ℤ → ℤ → List A → Option (List A)
page (pos n) (pos k) rows = some (take n (drop k rows))
page _ _ rows = none

abbrev pub default_limit : ℤ → ℤ
default_limit limit = if leb_ℤ limit (pos 0) then pos 50 else limit

unfoldable pub select_jobs : Engine → Call → Option (Job → Bool) → ListParams → Statement (List Job)
unfolding type_filter newest_first page
select_jobs e c none p db = none
select_jobs e c (some by_status) p db = with_db db (
    page (default_limit p.limit) p.offset (
      (e.job_sorter c).sort newest_first
        (select (λ j. by_status j && type_filter p.type j) db.jobs)))

unfoldable pub list : Engine → Call → ListParams → Database → Database × Result (List Job)
unfolding select_jobs status_filter job_status_of
list e c p = exec c (select_jobs e c (status_filter p.status) p)

abbrev pub is_pending : JobStatus → Bool
is_pending queued = true
is_pending retrying = true
is_pending _ = false

-- `ORDER BY priority DESC, created_at ASC`
unfoldable pub before : Job → Job → Bool
before a b =
    ltb_ℤ b.priority a.priority || (leb_ℤ b.priority a.priority && leb a.created_at b.created_at)

-- Pending, and not locked by another transaction (`FOR UPDATE SKIP LOCKED`).
abbrev pub is_candidate : List Uuid → Job → Bool
is_candidate locked j = is_pending j.status && not (any (λ i. i == j.id) locked)

-- The rows of `WITH picked`.
unfoldable pub picked : Engine → Call → ℕ → Database → List Job
unfolding before
picked e c limit db =
    take limit ((e.job_sorter c).sort before (select (is_candidate c.locked) db.jobs))

-- `jobs.id = picked.id`
abbrev pub is_in : List Job → Job → Bool
is_in rows j = any (λ k. k.id == j.id) rows

abbrev pub assign : Uuid → Job → Job
assign worker j = record j { status = running; worker_id = some worker; attempts = j.attempts + 1 }

abbrev pub worker_exists : Uuid → Database → Bool
worker_exists id db = any (λ (w : Worker). w.id == id) db.workers

-- A row may break the foreign key `worker_id`, and its counter may overflow.
abbrev pub is_assignable : Uuid → List Job → Database → Bool
is_assignable worker rows db =
    not (any (λ j. true) rows && not (worker_exists worker db))
    && not (any (λ (j : Job). leb max_int4 j.attempts) rows)

assign_rows : Engine → Call → Uuid → List Job → Statement (List Job)
assign_rows e c worker rows db =
    if is_assignable worker rows db
    then some (after, e.returning (select (is_in rows) after.jobs))
    else none
  where
    after : Database
    after = update_jobs c.now (is_in rows) (assign worker) db

unfoldable pub fetch_rows : Engine → Call → Uuid → ℤ → Statement (List Job)
unfolding assign_rows
fetch_rows e c worker (negsuc n) db = none
fetch_rows e c worker (pos limit) db = assign_rows e c worker (picked e c limit db) db

unfoldable pub fetch_pending : Engine → Call → Uuid → ℤ → Database → Database × Result (List Job)
unfolding fetch_rows
fetch_pending e c worker limit = exec c (fetch_rows e c worker limit)

-- `last_heartbeat < now() - make_interval(secs => $1)`; of NULL it is not true.
abbrev pub is_silent : Time → ℕ → Option Time → Bool
is_silent now stale none = false
is_silent now stale (some t) = ltb (t + seconds stale) now

abbrev pub is_stale : Time → ℕ → Worker → Bool
is_stale now stale w = is_silent now stale w.last_heartbeat || same_worker_status w.status unhealthy

-- `worker_id IN (SELECT id FROM workers WHERE …)`; of NULL it is not true.
abbrev pub on_stale : Time → ℕ → List Worker → Option Uuid → Bool
on_stale now stale workers none = false
on_stale now stale workers (some id) = any (λ w. (w.id == id) && is_stale now stale w) workers

abbrev pub release : Job → Job
release j = record j { status = queued; worker_id = none }

-- Stale rows are counted in seconds, a constant of the callers.
unfoldable pub requeue_stale : Call → ℕ → Database → Database × Result ℕ
requeue_stale c stale db =
    exec c
      (exec_update c.now
        (λ j. same_job_status j.status running && on_stale c.now stale db.workers j.worker_id)
        release)
      db

set_status : Call → Uuid → JobStatus → Database → Database × Result (Unit {0})
set_status c id status db =
    affected (exec c (exec_update c.now (has_id id) (λ j. record j { status = status })) db)

unfoldable pub mark_completed : Call → Uuid → Database → Database × Result (Unit {0})
unfolding set_status
mark_completed c id = set_status c id completed

-- `CASE WHEN attempts >= $2 THEN 'DEAD' ELSE 'RETRYING' END`
abbrev pub verdict : ℕ → Job → JobStatus
verdict max_attempts j = if leb max_attempts j.attempts then dead else retrying

abbrev pub status_of : Option Job → Option JobStatus
status_of none = none
status_of (some j) = some j.status

unfoldable pub mark_failed : Call → Uuid → ℕ → Database → Database × Result JobStatus
mark_failed c id max_attempts db = one_row (exec c run db)
  where
    run : Statement (Option JobStatus)
    run t =
        let t' =
          update_jobs c.now (has_id id) (λ j. record j { status = verdict max_attempts j }) t in
        some (t', status_of (job_at id t'))

abbrev pub is_worker : Uuid → Option Uuid → Bool
is_worker id none = false
is_worker id (some k) = k == id

unfoldable pub fetch_assigned : Call → Uuid → Database → Database × Result (List Job)
fetch_assigned c worker db =
    exec c
      (λ t.
        some (
          t,
          select (λ j. is_worker worker j.worker_id && same_job_status j.status running) t.jobs,
        ))
      db

unfoldable pub rollback_to_queued : Call → Uuid → Database → Database × Result (Unit {0})
rollback_to_queued c id db =
    affected
      (exec c (exec_update c.now (λ j. has_id id j && same_job_status j.status running) release) db)
