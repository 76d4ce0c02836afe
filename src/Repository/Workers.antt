-- ===== src/Repository/Workers.antt =====
-- internal/repository/workers.go.
pub mod Health
use distributed_job_schedule.Prelude.{
  ℕ, ◌+◌, String, Bool, true, false, not, ◌&&◌, ◌||◌, Option, none, some, List, [], ◌∷◌, ◌++◌, ltb,
  leb, ◌==◌, if◌then◌else◌, count, select, find, update, any,
}
use distributed_job_schedule.Prelude.Int.{ℤ, pos, negsuc, pos_part, neg_part, leb_ℤ, ltb_ℤ}
use distributed_job_schedule.Prelude.Sorting.{Sorter}
use distributed_job_schedule.Models.{
  Uuid, Time, Hundredths, Worker, WorkerStatus, active, idle, unhealthy, offline, seconds,
  same_worker_status, worker_status_of,
}
use distributed_job_schedule.Errors.{Result, ok, err}
use distributed_job_schedule.Repository.Database.{Database, Engine, Call, Statement, exec, with_db}
use distributed_job_schedule.Repository.Jobs.{page, default_limit, one_row, is_silent}

abbrev pub has_worker_id : Uuid → Worker → Bool
has_worker_id id w = w.id == id

abbrev pub worker_at : Uuid → Database → Option Worker
worker_at id db = find (has_worker_id id) db.workers

abbrev pub registered : Call → String → Worker
registered c host = record {
  id = c.fresh;
  host = host;
  status = idle;
  cpu = none;
  memory = none;
  running_jobs = pos 0;
  last_heartbeat = some c.now;
  created_at = c.now;
}

unfoldable pub insert_worker : Call → String → Statement Worker
insert_worker c host db =
    if any (has_worker_id c.fresh) db.workers
    then none
    else some (record db { workers = db.workers ++ registered c host ∷ [] }, registered c host)

-- `Register`: `gen_random_uuid()` draws the primary key.
unfoldable pub register : Call → String → Database → Database × Result Worker
unfolding insert_worker
register c host = exec c (insert_worker c host)

-- NUMERIC(5,2) holds at most 999.99 in absolute value.
abbrev pub fits_numeric : Hundredths → Bool
fits_numeric h = leb (pos_part h) 99_999 && leb (neg_part h) 99_999

-- The range of INTEGER.
abbrev pub fits_int4 : ℤ → Bool
fits_int4 n = leb (pos_part n) 2_147_483_647 && leb (neg_part n) 2_147_483_648

-- `CASE WHEN workers.status = 'OFFLINE' OR workers.status = 'UNHEALTHY' THEN 'IDLE' ELSE … END`
abbrev pub revived : WorkerStatus → WorkerStatus
revived offline = idle
revived unhealthy = idle
revived status = status

-- What one heartbeat says of its worker.
pub record Beat : Type 0 where
  pub host : String
  pub cpu : Hundredths
  pub memory : Hundredths
  pub running_jobs : ℤ

abbrev pub refresh : Time → Beat → Worker → Worker
refresh now b w = record w {
  host = b.host;
  status = revived w.status;
  cpu = some b.cpu;
  memory = some b.memory;
  running_jobs = b.running_jobs;
  last_heartbeat = some now;
}

abbrev pub newcomer : Time → Uuid → Beat → Worker
newcomer now id b = record {
  id = id;
  host = b.host;
  status = idle;
  cpu = some b.cpu;
  memory = some b.memory;
  running_jobs = b.running_jobs;
  last_heartbeat = some now;
  created_at = now;
}

abbrev pub fits_row : Beat → Bool
fits_row b = fits_numeric b.cpu && fits_numeric b.memory && fits_int4 b.running_jobs

-- `INSERT … ON CONFLICT (id) DO UPDATE`
abbrev pub upsert : Time → Uuid → Beat → List Worker → List Worker
upsert now id b workers =
    if any (has_worker_id id) workers
    then update (has_worker_id id) (refresh now b) workers
    else workers ++ newcomer now id b ∷ []

unfoldable pub upsert_row : Time → Uuid → Beat → Statement (Unit {0})
upsert_row now id b db =
    if fits_row b then some (record db { workers = upsert now id b db.workers }, tt) else none

unfoldable pub upsert_heartbeat : Call → Uuid → Beat → Database → Database × Result (Unit {0})
unfolding upsert_row
upsert_heartbeat c id b = exec c (upsert_row c.now id b)

-- `status NOT IN ('OFFLINE', 'UNHEALTHY')`
abbrev pub is_up : WorkerStatus → Bool
is_up offline = false
is_up unhealthy = false
is_up _ = true

-- `last_heartbeat > now() - make_interval(secs => $1)`; of NULL it is not true.
abbrev pub is_recent : Time → ℕ → Option Time → Bool
is_recent now stale none = false
is_recent now stale (some t) = ltb now (t + seconds stale)

abbrev pub is_healthy : Time → ℕ → Worker → Bool
is_healthy now stale w = is_up w.status && is_recent now stale w.last_heartbeat

-- `cpu ASC NULLS LAST`
abbrev cpu_le : Option Hundredths → Option Hundredths → Bool
cpu_le _ none = true
cpu_le none (some b) = false
cpu_le (some a) (some b) = leb_ℤ a b

-- `ORDER BY running_jobs ASC, cpu ASC NULLS LAST`
unfoldable pub less_loaded : Worker → Worker → Bool
less_loaded a b =
    ltb_ℤ a.running_jobs b.running_jobs
    || (leb_ℤ a.running_jobs b.running_jobs && cpu_le a.cpu b.cpu)

unfoldable pub fetch_healthy : Engine → Call → ℕ → Database → Database × Result (List Worker)
fetch_healthy e c stale = exec c (λ db.
    some (db, (e.worker_sorter c).sort less_loaded (select (is_healthy c.now stale) db.workers)))

-- `last_heartbeat IS NULL OR last_heartbeat < now() - make_interval(secs => $1)`
abbrev pub is_missing : Time → ℕ → Option Time → Bool
is_missing now stale none = true
is_missing now stale (some t) = is_silent now stale (some t)

abbrev pub is_lapsed : Time → ℕ → Worker → Bool
is_lapsed now stale w = is_up w.status && is_missing now stale w.last_heartbeat

-- `UPDATE workers SET f WHERE p`
abbrev pub update_workers : (Worker → Bool) → (Worker → Worker) → Database → Database
update_workers p f db = record db { workers = update p f db.workers }

abbrev pub lapse : Worker → Worker
lapse w = record w { status = unhealthy }

unfoldable pub mark_unhealthy : Call → ℕ → Database → Database × Result ℕ
mark_unhealthy c stale = exec c λ db.
    some (update_workers (is_lapsed c.now stale) lapse db, count (is_lapsed c.now stale) db.workers)

unfoldable pub get : Call → Uuid → Database → Database × Result Worker
get c id db = one_row (exec c (λ t. some (t, worker_at id t)) db)

pub record WorkerListParams : Type 0 where
  pub status : Option String
  pub limit : ℤ
  pub offset : ℤ

status_filter : Option String → Option (Worker → Bool)
status_filter none = some (λ w. true)
status_filter (some s) = elim (worker_status_of s) [
  | none ↦ none
  | some v ↦ some (λ w. same_worker_status w.status v)
]

-- `ORDER BY last_heartbeat DESC NULLS LAST`
latest_first : Worker → Worker → Bool
latest_first a b = elim b.last_heartbeat [
  | none ↦ true
  | some t ↦ elim a.last_heartbeat [ none ↦ false | some s ↦ leb t s ]
]

select_workers : Engine → Call → Option (Worker → Bool) → WorkerListParams → Statement (List Worker)
unfolding latest_first page
select_workers e c none p db = none
select_workers e c (some by_status) p db = with_db db (
    page (default_limit p.limit) p.offset
      ((e.worker_sorter c).sort latest_first (select by_status db.workers)))

unfoldable pub list : Engine → Call → WorkerListParams → Database → Database × Result (List Worker)
unfolding select_workers status_filter worker_status_of
list e c p = exec c (select_workers e c (status_filter p.status) p)
