-- ===== src/Repository/Jobs/Rows.antt =====
-- What each statement on the table of jobs does to the row with a given primary key.
use mathlib.Core.Option
use distributed_job_schedule.Prelude.{
  ℕ, ◌≤◌, ◌≡◌, refl, inl, inr, Bool, true, false, ◌&&◌, Option, none, some, List, [], ◌∷◌, ◌==◌,
  if◌then◌else◌, arith, count, find, find-update, Option-cases, find-passes, count-none-find,
  find-none-count, find-count_pos,
}
use distributed_job_schedule.Models.{
  Uuid, Time, Job, JobStatus, dead, running, completed, same_job_status,
}
use distributed_job_schedule.Errors.{Result, ok, err, not_found}
use distributed_job_schedule.Repository.Database.{Database, Call, reachable}
use distributed_job_schedule.Repository.Jobs.{
  has_id, job_at, touch, update_jobs, is_cancellable, cancel, mark_completed, mark_failed, verdict,
  rollback_to_queued, release,
}

-- The rows of one primary key: none, or the one that a lookup finds.
abbrev pub IsKeyed : List Job → Type 0
IsKeyed jobs = (i : Uuid) → count (has_id i) jobs ≤ 1

pub update_jobs-at :
    (i : Uuid) (now : Time) (p : Job → Bool) (f : Job → Job) (db : Database)
    → ((j : Job) → (f j).id ≡ j.id)
    → job_at i (update_jobs now p f db)
      ≡ Option.map (λ j. if p j then touch now (f j) else j) (job_at i db)
update_jobs-at i now p f db same =
    find-update (has_id i) p (λ j. touch now (f j)) db.jobs (λ j. rw (same j))

abbrev pub count_at : (Job → Bool) → Option Job → ℕ
count_at q none = 0
count_at q (some j) = if q j then 1 else 0

-- Of a keyed table, the number of rows that a statement changes by primary key.
pub count-has_id :
    (id : Uuid) (q : Job → Bool) (jobs : List Job)
    → count (has_id id) jobs ≤ 1
    → count (λ j. has_id id j && q j) jobs ≡ count_at q (find (has_id id) jobs)
count-has_id id q [] h = refl
count-has_id id q (j ∷ jobs) h =
    ground (arith, count-has_id id q jobs, count-none-find (has_id id) jobs)

abbrev pub passes_at : (Job → Bool) → Option Job → Bool
passes_at q none = false
passes_at q (some j) = q j

-- A row by row view of `UPDATE jobs SET f WHERE id = … AND q`.
abbrev pub updated_at : Uuid → Uuid → (Job → Bool) → (Job → Job) → Database → Option Job
updated_at i id q f db =
    if (i == id) && passes_at q (job_at id db) then Option.map f (job_at id db) else job_at i db

change-at :
    (i id : Uuid) (now : Time) (q : Job → Bool) (f : Job → Job) (db : Database)
    → ((j : Job) → (f j).id ≡ j.id)
    → job_at i (update_jobs now (λ j. has_id id j && q j) f db)
      ≡ updated_at i id q (λ j. touch now (f j)) db
change-at i id now q f db same = elim (Option-cases (job_at i db)) [
  | inl e ↦ rw (update_jobs-at i now (λ j. has_id id j && q j) f db same) (ground arith)
  | inr (j, e) ↦
      rw (update_jobs-at i now (λ j. has_id id j && q j) f db same, e)
        (ground (arith, find-passes (has_id i) db.jobs j e))
]

-- `ErrNotFound` if no row was there to change.
abbrev pub found : Bool → Result (Unit {0})
found true = ok tt
found false = err not_found

change-count :
    (id : Uuid) (q : Job → Bool) (db : Database)
    → IsKeyed db.jobs
    → (if count (λ j. has_id id j && q j) db.jobs == 0 then err not_found else ok tt)
      ≡ found (passes_at q (job_at id db))
change-count id q db keyed = ground (arith, count-has_id id q db.jobs (keyed id))

-- `Cancel` over a connection that holds answers `ErrNotFound` unless the job is there and QUEUED,
-- RUNNING or RETRYING; it then makes that job DEAD, and leaves every other row as it was.
pub cancel_lem :
    (c : Call) (id : Uuid) (db : Database)
    → c.link ≡ reachable
    → IsKeyed db.jobs
    → let (db', r) = cancel c id db in
      let can = λ (j : Job). is_cancellable j.status in
      (r ≡ found (passes_at can (job_at id db)))
      × ((i : Uuid)
          → job_at i db' ≡ updated_at i id can (λ j. touch c.now (record j { status = dead })) db)
unfolding cancel
cancel_lem c id db up keyed = rw (up) (
  change-count id (λ j. is_cancellable j.status) db keyed,
  λ i.
      change-at i id c.now (λ j. is_cancellable j.status) (λ j. record j { status = dead }) db
        (λ j. refl),
)

-- `RollbackToQueued` over a connection that holds answers `ErrNotFound` unless the job is there and
-- RUNNING; it then makes that job QUEUED with no worker, its attempts as they were, and leaves every
-- other row as it was.
pub rollback_to_queued_lem :
    (c : Call) (id : Uuid) (db : Database)
    → c.link ≡ reachable
    → IsKeyed db.jobs
    → let (db', r) = rollback_to_queued c id db in
      let runs = λ (j : Job). same_job_status j.status running in
      (r ≡ found (passes_at runs (job_at id db)))
      × ((i : Uuid) → job_at i db' ≡ updated_at i id runs (λ j. touch c.now (release j)) db)
unfolding rollback_to_queued
rollback_to_queued_lem c id db up keyed = rw up (
  change-count id (λ j. same_job_status j.status running) db keyed,
  λ i. change-at i id c.now (λ j. same_job_status j.status running) release db (λ j. refl),
)

pub set-at :
    (i id : Uuid) (now : Time) (f : Job → Job) (db : Database)
    → ((j : Job) → (f j).id ≡ j.id)
    → job_at i (update_jobs now (has_id id) f db)
      ≡ updated_at i id (λ _. true) (λ j. touch now (f j)) db
set-at i id now f db same = elim (Option-cases (job_at i db)) [
  | inl e ↦ rw (update_jobs-at i now (has_id id) f db same) (ground arith)
  | inr (j, e) ↦
      rw (update_jobs-at i now (has_id id) f db same, e)
        (ground (arith, find-passes (has_id i) db.jobs j e))
]

abbrev verdict_at : ℕ → Option Job → Result JobStatus
verdict_at max_attempts none = err not_found
verdict_at max_attempts (some j) = ok (verdict max_attempts j)

-- `MarkFailed` over a connection that holds answers `ErrNotFound` if no job has the id; else the job
-- becomes DEAD if its attempts have reached the limit and RETRYING if not, whatever its status was,
-- that status is the answer, and every other row stays as it was.
pub mark_failed_lem :
    (c : Call) (id : Uuid) (limit : ℕ) (db : Database)
    → c.link ≡ reachable
    → let (db', r) = mark_failed c id limit db in
      (r ≡ verdict_at limit (job_at id db))
      × ((i : Uuid)
          → job_at i db'
            ≡ updated_at i id
                (λ _. true)
                (λ j. touch c.now (record j { status = verdict limit j }))
                db)
unfolding mark_failed
mark_failed_lem c id limit db up = rw up (
  ground (arith, set-at id id c.now (λ j. record j { status = verdict limit j }) db (λ j. refl)),
  λ i. set-at i id c.now (λ j. record j { status = verdict limit j }) db (λ j. refl),
)

-- `MarkCompleted` over a connection that holds answers `ErrNotFound` if no job has the id; else the
-- job becomes COMPLETED, whatever its status was, and every other row stays as it was.
pub mark_completed_lem :
    (c : Call) (id : Uuid) (db : Database)
    → c.link ≡ reachable
    → let (db', r) = mark_completed c id db in
      (r ≡ found (passes_at (λ _. true) (job_at id db)))
      × ((i : Uuid)
          → job_at i db'
            ≡ updated_at i id (λ _. true) (λ j. touch c.now (record j { status = completed })) db)
unfolding mark_completed
mark_completed_lem c id db up = rw up (
  elim (Option-cases (job_at id db)) [
    | inl absent ↦ ground (arith, find-none-count (has_id id) db.jobs absent)
    | inr (j, there) ↦ ground (
      arith,
      find-count_pos (has_id id) (has_id id) db.jobs j there
          (find-passes (has_id id) db.jobs j there),
    )
  ],
  λ i. set-at i id c.now (λ j. record j { status = completed }) db (λ j. refl),
)
