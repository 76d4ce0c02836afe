-- ===== src/Repository/Workers/Health.antt =====
-- Which workers count as healthy, and how a heartbeat makes one so.
use distributed_job_schedule.Prelude.{
  ℕ, ◌≡◌, ◌<◌, refl, ◌∙◌, ◌⊎◌, inl, inr, Bool, true, false, ◌&&◌, Option, none, some, List, [], ◌∷◌,
  ◌==◌, if◌then◌else◌, arith, count, find, select, any, Bool-cases, Option-cases, count-select,
  find-update, find-append_none, find-append_some, count-none-find, any-count, find-passes,
  find-count_pos, any-count_pos, find-none-count, ==_iff, ap,
}
use distributed_job_schedule.Prelude.Sorting.{IsSorted}
use distributed_job_schedule.Models.{Uuid, Time, Worker}
use distributed_job_schedule.Errors.{ok, err, db_failure}
use distributed_job_schedule.Repository.Database.{Database, Engine, Call, reachable}
use distributed_job_schedule.Repository.Workers.{
  Beat, has_worker_id, worker_at, is_healthy, less_loaded, fetch_healthy, refresh, newcomer, upsert,
  upsert_heartbeat, fits_row,
}

less_loaded-total : (x y : Worker) → (less_loaded x y ≡ true) ⊎ (less_loaded y x ≡ true)
unfolding less_loaded
less_loaded-total x y = ground arith

less_loaded_trans :
    (x y z : Worker) → less_loaded x y ≡ true → less_loaded y z ≡ true → less_loaded x z ≡ true
unfolding less_loaded
less_loaded_trans x y z h k = ground arith

-- `FetchHealthy` over a connection that holds returns each worker that is neither OFFLINE nor
-- UNHEALTHY and was heard of within the limit, as often as it is in the table, and no other; in the
-- order of their load.
pub fetch_healthy_lem :
    (e : Engine) (c : Call) (stale : ℕ) (db : Database)
    → c.link ≡ reachable
    → (ks : List Worker) × (fetch_healthy e c stale db ≡ (db, ok ks))
      × ((p : Worker → Bool) → count p ks ≡ count (λ k. is_healthy c.now stale k && p k) db.workers)
      × IsSorted less_loaded ks
unfolding fetch_healthy
fetch_healthy_lem e c stale db up =
    let rows = select (is_healthy c.now stale) db.workers in
    (
      (e.worker_sorter c).sort less_loaded rows,
      rw up,
      λ p.
          (e.worker_sorter c).sort-count less_loaded p rows
          ∙ count-select (is_healthy c.now stale) p db.workers,
      (e.worker_sorter c).sort-IsSorted less_loaded
          (record { total = less_loaded-total; trans = less_loaded_trans }) rows,
    )

-- The row that a heartbeat leaves for its worker.
abbrev pub beaten : Time → Uuid → Beat → Option Worker → Worker
beaten now id b none = newcomer now id b
beaten now id b (some k) = refresh now b k

beaten-healthy :
    (now : Time) (stale : ℕ) (id : Uuid) (b : Beat) (o : Option Worker)
    → 0 < stale
    → is_healthy now stale (beaten now id b o) ≡ true
beaten-healthy now stale id b none h = ground arith
beaten-healthy now stale id b (some k) h = ground arith

upsert-at :
    (i id : Uuid) (now : Time) (b : Beat) (workers : List Worker)
    → find (has_worker_id i) (upsert now id b workers) ≡ (
        if i == id
        then some (beaten now id b (find (has_worker_id id) workers))
        else find (has_worker_id i) workers)
upsert-at i id now b workers = elim (Bool-cases (any (has_worker_id id) workers)) [
  | inl old ↦
      rw (old, find-update (has_worker_id i) (has_worker_id id) (refresh now b) workers (λ x. refl))
        (elim (Option-cases (find (has_worker_id i) workers)) [
          | inl absent ↦ ground (
            arith,
            find-none-count (has_worker_id i) workers absent,
            any-count_pos (has_worker_id id) workers old,
            (==_iff i id).0,
            ap (λ k. find (has_worker_id k) workers),
          )
          | inr (k, there) ↦
              rw there (ground (arith, find-passes (has_worker_id i) workers k there))
        ])
  | inr new ↦ rw new (elim (Option-cases (find (has_worker_id i) workers)) [
    | inl absent ↦
        rw (find-append_none (has_worker_id i) workers (newcomer now id b ∷ []) absent, absent)
          (ground (
            arith,
            count-none-find (has_worker_id id) workers (any-count (has_worker_id id) workers new),
          ))
    | inr (k, there) ↦
        rw (find-append_some (has_worker_id i) workers (newcomer now id b ∷ []) k there, there)
          (ground (
            arith,
            find-passes (has_worker_id i) workers k there,
            any-count (has_worker_id id) workers new,
            find-count_pos (has_worker_id i) (has_worker_id id) workers k there,
          ))
  ])
]

-- `UpsertHeartbeat` over a connection that holds, for values that fit their columns: the worker is in
-- the table with what the heartbeat says, and healthy for any positive limit; every other worker's
-- row stays as it was.
pub upsert_heartbeat_lem :
    (c : Call) (id : Uuid) (b : Beat) (db : Database) (stale : ℕ)
    → c.link ≡ reachable
    → fits_row b ≡ true
    → 0 < stale
    → let (db', r) = upsert_heartbeat c id b db in
      (r ≡ ok tt)
      × ((i : Uuid)
          → worker_at i db'
            ≡ (if i == id then some (beaten c.now id b (worker_at id db)) else worker_at i db))
      × (is_healthy c.now stale (beaten c.now id b (worker_at id db)) ≡ true)
unfolding upsert_heartbeat
upsert_heartbeat_lem c id b db stale up fits some_limit =
    rw (up, fits)
      (
        refl,
        λ i. upsert-at i id c.now b db.workers,
        beaten-healthy c.now stale id b (worker_at id db) some_limit,
      )

-- A heartbeat whose CPU or memory does not fit NUMERIC(5,2), from 1000 on, or whose number of jobs
-- does not fit INTEGER, is an error over any connection, and the tables stay as they were.
pub upsert_heartbeat_misfit :
    (c : Call) (id : Uuid) (b : Beat) (db : Database)
    → fits_row b ≡ false
    → upsert_heartbeat c id b db ≡ (db, err db_failure)
unfolding upsert_heartbeat
upsert_heartbeat_misfit c id b db misfit = ground arith
