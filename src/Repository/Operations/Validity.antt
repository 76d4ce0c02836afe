-- ===== src/Repository/Operations/Validity.antt =====
-- The invariant of the tables, and that every call of a repository keeps it.
use distributed_job_schedule.Prelude.{
  String, ◌≤◌, ◌≡◌, refl, sym, ap, ◌≢◌, inl, inr, Bool, true, false, ◌&&◌, Option, none, some, List,
  [], ◌∷◌, ◌++◌, arith, count, update, any, Bool-cases, any-count, count-append,
}
use distributed_job_schedule.Prelude.Int.{ℤ}
use distributed_job_schedule.Models.{
  Uuid, Time, Payload, Job, Worker, queued, running, completed, failed, dead, same_job_status,
}
use distributed_job_schedule.Repository.Database.{
  Database, Engine, Call, exec, exec_ind, exec_total, no_rows,
}
use distributed_job_schedule.Repository.Jobs
use distributed_job_schedule.Repository.Workers
use distributed_job_schedule.Repository.DeadLetters
use distributed_job_schedule.Repository.Workers.{has_worker_id}
use distributed_job_schedule.Repository.DeadLetters.{has_letter_id}
use distributed_job_schedule.Repository.Jobs.{
  has_id, job_at, touch, assign, release, verdict, worker_exists, max_int4, is_pending,
  is_cancellable,
}
use distributed_job_schedule.Repository.Jobs.Rows.{IsKeyed}
use distributed_job_schedule.Repository.Jobs.Create.{insert_job-inv}
use distributed_job_schedule.Repository.Jobs.Fetch.{update_jobs-IsKeyed, fetch_rows-inv}
use distributed_job_schedule.Repository.Operations.{
  Operation, create, cancel, fetch_pending, requeue_stale, mark_completed, mark_failed,
  rollback_to_queued, register, upsert_heartbeat, mark_unhealthy, insert_letter, mark_replayed,
  delete_letter, perform, history,
}
use distributed_job_schedule.Repository.Operations.Transitions.{
  Transition, stays, cancels, assigns, releases, completes, retries, dies,
}
use distributed_job_schedule.Repository.Operations.Lifecycle.{Moves, Appears, perform-Moves}

-- The foreign key `worker_id REFERENCES workers(id)`.
abbrev pub knows : Database → Option Uuid → Bool
knows db none = true
knows db (some w) = worker_exists w db

abbrev pub is_some {ℓ} : {A : Type ℓ} → Option A → Bool
is_some none = false
is_some (some a) = true

pub record IsSound (db : Database) (j : Job) : Type 0 where
  pub running_assigned : j.status ≡ running → is_some j.worker_id ≡ true
  pub running_counted : j.status ≡ running → 1 ≤ j.attempts
  pub queued_free : j.status ≡ queued → j.worker_id ≡ none
  pub attempts_fit : j.attempts ≤ max_int4
  pub not_failed : j.status ≢ failed
  pub worker_known : knows db j.worker_id ≡ true

abbrev pub IsSoundRow : Database → Option Job → Type 0
IsSoundRow db none = Unit
IsSoundRow db (some j) = IsSound db j

-- Primary keys are distinct and every job's row is sound.
pub record IsValid (db : Database) : Type 0 where
  pub jobs_keyed : IsKeyed db.jobs
  pub jobs_sound : (i : Uuid) → IsSoundRow db (job_at i db)

Transition-IsSound :
    (o : Operation) (db : Database) (j k : Job) → Transition o db j k → IsSound db j → IsSound db k
Transition-IsSound p db j k (stays e) s = ground arith
Transition-IsSound p db j k (cancels now f c e) s = ground arith
Transition-IsSound p db j k (assigns now w l o q x a e) s = ground arith
Transition-IsSound p db j k (releases now f r e) s = ground arith
Transition-IsSound p db j k (completes now f e) s = ground arith
Transition-IsSound p db j k (retries now limit f b e) s = ground arith
Transition-IsSound p db j k (dies now limit f b e) s = ground arith

Appears-IsSound : (db : Database) (k : Job) → Appears (some k) → IsSound db k
Appears-IsSound db k a = ground arith

Moves-IsSoundRow :
    (p : Operation) (db : Database) (o o' : Option Job)
    → Moves p db o o'
    → IsSoundRow db o
    → IsSoundRow db o'
Moves-IsSoundRow p db none none m s = tt
Moves-IsSoundRow p db none (some k) m s = Appears-IsSound db k m
Moves-IsSoundRow p db (some j) o' (k, e, t) s = rw e (Transition-IsSound p db j k t s)

-- No call takes a worker away.
abbrev Grows : Database → Database → Type 0
Grows db db' = (w : Uuid) → worker_exists w db ≡ true → worker_exists w db' ≡ true

Grows-IsSound : (db db' : Database) (j : Job) → Grows db db' → IsSound db j → IsSound db' j
Grows-IsSound db db' j g s = record {
  running_assigned = s.running_assigned;
  running_counted = s.running_counted;
  queued_free = s.queued_free;
  attempts_fit = s.attempts_fit;
  not_failed = s.not_failed;
  worker_known = known j.worker_id s.worker_known;
}
  where
    known : (o : Option Uuid) → knows db o ≡ true → knows db' o ≡ true
    known none h = refl
    known (some w) h = g w h

Grows-IsSoundRow :
    (db db' : Database) (o : Option Job) → Grows db db' → IsSoundRow db o → IsSoundRow db' o
Grows-IsSoundRow db db' none g s = tt
Grows-IsSoundRow db db' (some j) g s = Grows-IsSound db db' j g s

-- Keys and workers, the two parts that are not about single jobs.
abbrev Keeps : Database → Database → Type 0
Keeps db db' = IsKeyed db'.jobs × Grows db db'

any-append_left :
    (p : Worker → Bool) (xs ys : List Worker) → any p xs ≡ true → any p (xs ++ ys) ≡ true
any-append_left p [] ys h = absurd (cc)
any-append_left p (x ∷ xs) ys h = ground (arith, any-append_left p xs ys)

any-update :
    (p q : Worker → Bool) (f : Worker → Worker) (xs : List Worker)
    → ((x : Worker) → p (f x) ≡ p x)
    → any p (update q f xs) ≡ any p xs
any-update p q f [] same = refl
any-update p q f (x ∷ xs) same = ground (arith, same x, any-update p q f xs same)

insert_worker-inv :
    (c : Call) (host : String) (db db' : Database) (row : Worker)
    → Workers.insert_worker c host db ≡ some (db', row)
    → db' ≡ record db { workers = db.workers ++ Workers.registered c host ∷ [] }
unfolding Workers.insert_worker
insert_worker-inv c host db db' row h = ground arith

upsert_row-inv :
    (now : Time) (id : Uuid) (b : Workers.Beat) (db db' : Database) (u : Unit {0})
    → Workers.upsert_row now id b db ≡ some (db', u)
    → db' ≡ record db { workers = Workers.upsert now id b db.workers }
unfolding Workers.upsert_row
upsert_row-inv now id b db db' u h = elim (Bool-cases (Workers.fits_row b)) [
  | inl fits ↦ sym (ground arith)
  | inr misfit ↦ ground arith
]

insert_letter-inv :
    (c : Call) (n : DeadLetters.NewLetter) (p : Option Payload) (db db' : Database) (u : Unit {0})
    → DeadLetters.insert_letter c n p db ≡ some (db', u)
    → db' ≡ record db { letters = db'.letters }
unfolding DeadLetters.insert_letter
insert_letter-inv c n none db db' u h = cc
insert_letter-inv c n (some stored) db db' u h = ground arith

module _ (e : Engine) (c : Call) (db : Database) (keyed : IsKeyed db.jobs) where
  Keeps-refl : Keeps db db
  Keeps-refl = (keyed, λ w h. h)

  update-Keeps :
      {A : Type 0} (p : Job → Bool) (f : Job → Job) (g : Database → A)
      → ((j : Job) → (f j).id ≡ j.id)
      → Keeps db (exec c (λ t. some (Jobs.update_jobs c.now p f t, g t)) db).0
  update-Keeps p f g same =
      exec_total (Keeps db) c (Jobs.update_jobs c.now p f) g db Keeps-refl
        (update_jobs-IsKeyed c.now p f db same keyed, λ w h. h)

  append-Keeps :
      (j row : Job) (db' : Database)
      → any (has_id j.id) db.jobs ≡ false
      → row.id ≡ j.id
      → db' ≡ record db { jobs = db.jobs ++ row ∷ [] }
      → Keeps db db'
  append-Keeps j row db' new same e = rw e (
    λ i. ground (
      arith,
      count-append (has_id i) db.jobs (row ∷ []),
      keyed i,
      any-count (has_id j.id) db.jobs,
      ap (λ k. count (has_id k) db.jobs) same,
    ),
    λ w h. h,
  )

  create-Keeps : (j : Job) → Keeps db (Jobs.create e c j db).0
  unfolding Jobs.create
  create-Keeps j =
      exec_ind (Keeps db) c (Jobs.insert_job c j (e.jsonb j.payload)) db Keeps-refl λ db' row h.
        let (free, _, (stored, _, made), after) =
          insert_job-inv c j (e.jsonb j.payload) db db' row h in
        append-Keeps j row db' free (rw made) after

  fetch-Keeps : (worker : Uuid) (limit : ℤ) → Keeps db (Jobs.fetch_pending e c worker limit db).0
  unfolding Jobs.fetch_pending
  fetch-Keeps worker limit =
      exec_ind (Keeps db) c (Jobs.fetch_rows e c worker limit) db Keeps-refl λ db' got h.
        let (n, after, _) = fetch_rows-inv e c worker limit db db' got h in
        rw after (
          update_jobs-IsKeyed c.now (Jobs.is_in (Jobs.picked e c n db)) (assign worker) db
              (λ j. refl) keyed,
          λ w h. h,
        )

  upsert-grows :
      (now : Time) (id w : Uuid) (b : Workers.Beat) (workers : List Worker)
      → any (has_worker_id w) workers ≡ true
      → any (has_worker_id w) (Workers.upsert now id b workers) ≡ true
  upsert-grows now id w b workers h = ground (
    arith,
    any-append_left (has_worker_id w) workers (Workers.newcomer now id b ∷ []),
    any-update (has_worker_id w) (has_worker_id id) (Workers.refresh now b) workers (λ x. refl),
  )

  register-Keeps : (host : String) → Keeps db (Workers.register c host db).0
  unfolding Workers.register
  register-Keeps host =
      exec_ind (Keeps db) c (Workers.insert_worker c host) db Keeps-refl λ db' row h.
        rw (insert_worker-inv c host db db' row h) (
          keyed,
          λ w. any-append_left (has_worker_id w) db.workers (Workers.registered c host ∷ []),
        )

  upsert-Keeps : (id : Uuid) (b : Workers.Beat) → Keeps db (Workers.upsert_heartbeat c id b db).0
  unfolding Workers.upsert_heartbeat
  upsert-Keeps id b = exec_ind (Keeps db) c (Workers.upsert_row c.now id b) db Keeps-refl λ db' u h.
      rw (upsert_row-inv c.now id b db db' u h) (keyed, λ w. upsert-grows c.now id w b db.workers)

  insert_letter-Keeps : (n : DeadLetters.NewLetter) → Keeps db (DeadLetters.insert e c n db).0
  unfolding DeadLetters.insert
  insert_letter-Keeps n =
      exec_ind (Keeps db) c (DeadLetters.insert_letter c n (e.jsonb n.payload)) db Keeps-refl
        λ db' u h. rw (insert_letter-inv c n (e.jsonb n.payload) db db' u h) Keeps-refl

perform-Keeps :
    (e : Engine) (c : Call) (o : Operation) (db : Database)
    → IsKeyed db.jobs
    → Keeps db (perform e c o db)
unfolding perform Jobs.cancel Jobs.requeue_stale Jobs.mark_completed Jobs.mark_failed
    Jobs.rollback_to_queued Workers.mark_unhealthy DeadLetters.mark_replayed DeadLetters.delete
perform-Keeps e c (create j) db keyed = create-Keeps e c db keyed j
perform-Keeps e c (cancel id) db keyed =
    let p = λ (j : Job). has_id id j && is_cancellable j.status in
    update-Keeps e c db keyed p (λ j. record j { status = dead }) (λ t. count p t.jobs) (λ j. refl)
perform-Keeps e c (fetch_pending worker limit) db keyed = fetch-Keeps e c db keyed worker limit
perform-Keeps e c (requeue_stale stale) db keyed =
    let p = λ (j : Job).
      same_job_status j.status running && Jobs.on_stale c.now stale db.workers j.worker_id in
    update-Keeps e c db keyed p release (λ t. count p t.jobs) (λ j. refl)
perform-Keeps e c (mark_completed id) db keyed =
    update-Keeps e c db keyed (has_id id) (λ j. record j { status = completed })
      (λ t. count (has_id id) t.jobs) (λ j. refl)
perform-Keeps e c (mark_failed id limit) db keyed =
    let f = λ (j : Job). record j { status = verdict limit j } in
    update-Keeps e c db keyed (has_id id) f
      (λ t. Jobs.status_of (job_at id (Jobs.update_jobs c.now (has_id id) f t))) (λ j. refl)
perform-Keeps e c (rollback_to_queued id) db keyed =
    let p = λ (j : Job). has_id id j && same_job_status j.status running in
    update-Keeps e c db keyed p release (λ t. count p t.jobs) (λ j. refl)
perform-Keeps e c (register host) db keyed = register-Keeps e c db keyed host
perform-Keeps e c (upsert_heartbeat id b) db keyed = upsert-Keeps e c db keyed id b
perform-Keeps e c (mark_unhealthy stale) db keyed =
    let p = Workers.is_lapsed c.now stale in
    exec_total (Keeps db) c (Workers.update_workers p Workers.lapse) (λ t. count p t.workers) db
      (Keeps-refl e c db keyed)
      (keyed, λ w h. rw (any-update (has_worker_id w) p Workers.lapse db.workers (λ x. refl)) h)
perform-Keeps e c (insert_letter n) db keyed = insert_letter-Keeps e c db keyed n
perform-Keeps e c (mark_replayed id job_id) db keyed =
    exec_total (Keeps db) c (DeadLetters.update_letters id (DeadLetters.replayed c.now job_id))
      (DeadLetters.count_letters id) db (Keeps-refl e c db keyed) (Keeps-refl e c db keyed)
perform-Keeps e c (delete_letter id) db keyed =
    exec_total (Keeps db) c (DeadLetters.delete_letters id) (DeadLetters.count_letters id) db
      (Keeps-refl e c db keyed) (Keeps-refl e c db keyed)

-- Every call of a repository, over any connection, leaves valid tables valid: primary keys of jobs
-- stay distinct, a RUNNING job has a worker and an attempt, a QUEUED job has no worker, attempts fit
-- their column, a job's worker is in the table of workers, and no job is ever FAILED.
pub perform-IsValid :
    (e : Engine) (c : Call) (o : Operation) (db : Database)
    → IsValid db
    → IsValid (perform e c o db)
perform-IsValid e c o db v =
    let (keyed, grows) = perform-Keeps e c o db v.jobs_keyed in
    record {
      jobs_keyed = keyed;
      jobs_sound = λ i. Grows-IsSoundRow db (perform e c o db) (job_at i (perform e c o db)) grows (
          Moves-IsSoundRow o db (job_at i db) (job_at i (perform e c o db))
            (perform-Moves e c o db i v.jobs_keyed) (v.jobs_sound i));
    }

pub no_rows-IsValid : IsValid no_rows
no_rows-IsValid = record { jobs_keyed = λ i. omega arith; jobs_sound = λ i. tt }

history-IsValid :
    (e : Engine) (h : List (Call × Operation)) (db : Database)
    → IsValid db
    → IsValid (history e h db)
unfolding history
history-IsValid e [] db v = v
history-IsValid e ((c, o) ∷ h) db v =
    history-IsValid e h (perform e c o db) (perform-IsValid e c o db v)

-- Whatever calls the programs make of empty tables, in any order and over any connections, the
-- tables are valid.
pub history-no_rows-IsValid :
    (e : Engine) (h : List (Call × Operation)) → IsValid (history e h no_rows)
history-no_rows-IsValid e h = history-IsValid e h no_rows no_rows-IsValid
