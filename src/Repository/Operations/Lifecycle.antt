-- ===== src/Repository/Operations/Lifecycle.antt =====
-- The life of a job: the transitions that the repositories allow.
use mathlib.Core.Option
use distributed_job_schedule.Prelude.{
  ℕ, ◌≡◌, ap, refl, inl, inr, Bool, true, ◌&&◌, Option, none, some, List, [], ◌∷◌, ◌++◌,
  if◌then◌else◌, arith, count, find, any, Bool-cases, Option-cases, find-append_some,
  find-append_none,
}
use distributed_job_schedule.Prelude.Int.{ℤ}
use distributed_job_schedule.Models.{
  Uuid, Time, Payload, Job, queued, running, completed, dead, same_job_status,
}
use distributed_job_schedule.Repository.Database.{
  Database, Engine, Call, exec, exec_ind, exec_total,
}
use distributed_job_schedule.Repository.Jobs
use distributed_job_schedule.Repository.Workers
use distributed_job_schedule.Repository.DeadLetters
use distributed_job_schedule.Repository.DeadLetters.{NewLetter}
use distributed_job_schedule.Repository.Jobs.{
  has_id, job_at, touch, update_jobs, is_cancellable, is_pending, is_candidate, assign, release,
  verdict, picked, is_in, on_stale, is_stale, insert_job, fetch_rows, is_assignable, worker_exists,
  max_int4,
}
use distributed_job_schedule.Repository.Jobs.Rows.{IsKeyed, update_jobs-at}
use distributed_job_schedule.Repository.Jobs.Fetch.{
  chosen, fetched-at, chosen-candidate, chosen-attempts, fetch_rows-inv,
}
use distributed_job_schedule.Repository.Jobs.Create.{insert_job-inv}
use distributed_job_schedule.Repository.Operations.Transitions.{
  rolled_back-IsRelease, Transition, stays, cancels, assigns, releases, completes,
  on_stale-IsRelease, id_of, pending_or_running, pending, fails,
}
use distributed_job_schedule.Repository.Operations.{
  Operation, create, cancel, fetch_pending, requeue_stale, mark_completed, mark_failed,
  rollback_to_queued, register, upsert_heartbeat, mark_unhealthy, insert_letter, mark_replayed,
  delete_letter, perform,
}

-- A row that was not there: it is still not there, or it is a new job.
abbrev pub Appears : Option Job → Type 0
Appears none = Unit
Appears (some k) = (k.status ≡ queued) × (k.attempts ≡ 0) × (k.worker_id ≡ none)

module _ (op : Operation) (db : Database) where
  -- One row before and after.
  abbrev pub Moves : Option Job → Option Job → Type 0
  Moves none o = Appears o
  Moves (some j) o = (k : Job) × (o ≡ some k) × Transition op db j k

  Moves-refl : (o : Option Job) → Moves o o
  Moves-refl none = tt
  Moves-refl (some j) = (j, refl, stays refl)

  Moves-map :
      (p : Job → Bool) (f : Job → Job) (o : Option Job)
      → ((j : Job) → p j ≡ true → Transition op db j (f j))
      → Moves o (Option.map (λ j. if p j then f j else j) o)
  Moves-map p f none t = tt
  Moves-map p f (some j) t = elim (Bool-cases (p j)) [
    | inl hit ↦ (f j, rw hit, t j hit)
    | inr miss ↦ (j, rw miss, stays refl)
  ]

  update_jobs-Moves :
      (i : Uuid) (now : Time) (p : Job → Bool) (f : Job → Job)
      → ((j : Job) → (f j).id ≡ j.id)
      → ((j : Job) → p j ≡ true → Transition op db j (touch now (f j)))
      → Moves (job_at i db) (job_at i (update_jobs now p f db))
  update_jobs-Moves i now p f same t =
      rw (update_jobs-at i now p f db same) (Moves-map p (λ j. touch now (f j)) (job_at i db) t)

any-true : (p : Job → Bool) (rows : List Job) → any p rows ≡ true → any (λ j. true) rows ≡ true
any-true p [] h = h
any-true p (x ∷ rows) h = refl

module _ (e : Engine) (c : Call) (i : Uuid) (db : Database) (op : Operation) where
  appears :
      (row : Job)
      → (row.status ≡ queued) × (row.attempts ≡ 0) × (row.worker_id ≡ none)
      → Appears (find (has_id i) (row ∷ []))
  appears row new = ground arith

  abbrev Kept : Database → Type 0
  Kept db' = Moves op db (job_at i db) (job_at i db')

  update-Kept :
      {A : Type 0} (p : Job → Bool) (f : Job → Job) (g : Database → A)
      → ((j : Job) → (f j).id ≡ j.id)
      → ((j : Job) → p j ≡ true → Transition op db j (touch c.now (f j)))
      → Kept (exec c (λ t. some (update_jobs c.now p f t, g t)) db).0
  update-Kept p f g same t =
      exec_total Kept c (update_jobs c.now p f) g db (Moves-refl op db (job_at i db))
        (update_jobs-Moves op db i c.now p f same t)

  other-Kept : (db' : Database) → db'.jobs ≡ db.jobs → Kept db'
  other-Kept db' e = rw e (Moves-refl op db (job_at i db))

  create-Kept : (j : Job) → Kept (Jobs.create e c j db).0
  unfolding Jobs.create
  create-Kept j =
      exec_ind Kept c (insert_job c j (e.jsonb j.payload)) db (Moves-refl op db (job_at i db))
        λ db' row h.
          let (_, appended, (stored, _, made), _) =
            insert_job-inv c j (e.jsonb j.payload) db db' row h in
          insert-Kept db' row appended (rw made (refl, refl, refl))
    where
      insert-Kept :
          (db' : Database) (row : Job)
          → db'.jobs ≡ db.jobs ++ row ∷ []
          → (row.status ≡ queued) × (row.attempts ≡ 0) × (row.worker_id ≡ none)
          → Kept db'
      insert-Kept db' row e new = elim (Option-cases (job_at i db)) [
        | inl absent ↦
            rw (absent, e, find-append_none (has_id i) db.jobs (row ∷ []) absent) (appears row new)
        | inr (k, there) ↦
            rw there (k, rw e (find-append_some (has_id i) db.jobs (row ∷ []) k there), stays refl)
      ]

  chosen-Kept :
      (worker : Uuid) (limit : ℤ) (n : ℕ)
      → op ≡ fetch_pending worker limit
      → IsKeyed db.jobs
      → is_assignable worker (picked e c n db) db ≡ true
      → Kept (update_jobs c.now (is_in (picked e c n db)) (assign worker) db)
  chosen-Kept worker limit n called keyed fits = elim (Option-cases (job_at i db)) [
    | inl absent ↦ rw (fetched-at e c n db worker i, absent) (ground arith)
    | inr (j, there) ↦ elim (Bool-cases (chosen e c n db i)) [
      | inl taken ↦
          rw (fetched-at e c n db worker i, there, taken)
            (
              _,
              refl,
              assigns c.now worker limit called
                  (pending j (ground (arith, chosen-candidate e c n db i keyed)))
                  (ground (arith, any-true (has_id i) (picked e c n db)))
                  (ground (arith, chosen-attempts e c n db i j keyed there taken)) refl,
            )
      | inr left ↦ rw (fetched-at e c n db worker i, there, left) (j, refl, stays refl)
    ]
  ]

  fetch-Kept :
      IsKeyed db.jobs
      → (worker : Uuid) (limit : ℤ) → op ≡ fetch_pending worker limit
      → Kept (Jobs.fetch_pending e c worker limit db).0
  unfolding Jobs.fetch_pending
  fetch-Kept keyed worker limit called =
      exec_ind Kept c (fetch_rows e c worker limit) db (Moves-refl op db (job_at i db)) λ db' got h.
        let (n, after, fits) = fetch_rows-inv e c worker limit db db' got h in
        rw after (chosen-Kept worker limit n called keyed fits)

insert_letter-jobs :
    (c : Call) (n : NewLetter) (p : Option Payload) (db db' : Database) (u : Unit {0})
    → DeadLetters.insert_letter c n p db ≡ some (db', u)
    → db'.jobs ≡ db.jobs
unfolding DeadLetters.insert_letter
insert_letter-jobs c n none db db' u h = cc
insert_letter-jobs c n (some stored) db db' u h = ground arith

-- No call of a repository loses a job, and each leaves a job's row as it was or changes it by the
-- transition of that call: only a job that is QUEUED, RUNNING or RETRYING is cancelled; one that is QUEUED
-- or RETRYING is assigned, with one more attempt, to a worker that is there; one that is RUNNING is
-- released, by its roll back or by a requeue that finds its worker UNHEALTHY or silent; a failure makes it
-- RETRYING below the limit of the call and DEAD from there on. A new row is QUEUED with no attempt and no
-- worker. The primary keys are distinct before the call; the connection may do what it likes.
pub perform-Moves :
    (e : Engine) (c : Call) (o : Operation) (db : Database) (i : Uuid)
    → IsKeyed db.jobs
    → Moves o db (job_at i db) (job_at i (perform e c o db))
unfolding perform Jobs.cancel Jobs.requeue_stale Jobs.mark_completed Jobs.mark_failed
    Jobs.rollback_to_queued Workers.register Workers.insert_worker Workers.upsert_heartbeat
    Workers.upsert_row Workers.mark_unhealthy DeadLetters.insert DeadLetters.mark_replayed
    DeadLetters.delete
perform-Moves e c (create j) db i keyed = create-Kept e c i db (create j) j
perform-Moves e c (cancel id) db i keyed =
    update-Kept e c i db (cancel id) (λ j. has_id id j && is_cancellable j.status)
      (λ j. record j { status = dead })
      (λ t. count (λ j. has_id id j && is_cancellable j.status) t.jobs) (λ j. refl)
      (λ j h.
        cancels c.now (ap cancel (id_of id j (ground arith))) (pending_or_running j (ground arith))
          refl)
perform-Moves e c (fetch_pending worker limit) db i keyed =
    fetch-Kept e c i db (fetch_pending worker limit) keyed worker limit refl
perform-Moves e c (requeue_stale stale) db i keyed =
    update-Kept e c i db (requeue_stale stale)
      (λ j. same_job_status j.status running && on_stale c.now stale db.workers j.worker_id) release
      (λ t.
        count (λ j. same_job_status j.status running && on_stale c.now stale db.workers j.worker_id)
          t.jobs)
      (λ j. refl)
      (λ j h.
        releases c.now (on_stale-IsRelease db c.now stale j (ground arith)) (ground arith) refl)
perform-Moves e c (mark_completed id) db i keyed =
    update-Kept e c i db (mark_completed id) (has_id id) (λ j. record j { status = completed })
      (λ t. count (has_id id) t.jobs) (λ j. refl)
      (λ j h. completes c.now (ap mark_completed (id_of id j h)) refl)
perform-Moves e c (mark_failed id limit) db i keyed =
    update-Kept e c i db (mark_failed id limit) (has_id id)
      (λ j. record j { status = verdict limit j })
      (λ t.
        Jobs.status_of (
          job_at id (update_jobs c.now (has_id id) (λ j. record j { status = verdict limit j }) t)))
      (λ j. refl) (λ j h. fails db c.now id limit j (id_of id j h))
perform-Moves e c (rollback_to_queued id) db i keyed =
    update-Kept e c i db (rollback_to_queued id)
      (λ j. has_id id j && same_job_status j.status running) release
      (λ t. count (λ j. has_id id j && same_job_status j.status running) t.jobs) (λ j. refl)
      (λ j h.
        releases c.now (rolled_back-IsRelease db c.now id j (id_of id j (ground arith)))
          (ground arith) refl)
perform-Moves e c (register host) db i keyed =
    exec_ind (Kept e c i db (register host)) c (Workers.insert_worker c host) db
      (Moves-refl (register host) db (job_at i db))
      (λ db' row h. other-Kept e c i db (register host) db' (ground arith))
perform-Moves e c (upsert_heartbeat id b) db i keyed =
    exec_ind (Kept e c i db (upsert_heartbeat id b)) c (Workers.upsert_row c.now id b) db
      (Moves-refl (upsert_heartbeat id b) db (job_at i db))
      (λ db' row h. other-Kept e c i db (upsert_heartbeat id b) db' (ground arith))
perform-Moves e c (mark_unhealthy stale) db i keyed =
    exec_total (Kept e c i db (mark_unhealthy stale)) c
      (Workers.update_workers (Workers.is_lapsed c.now stale) Workers.lapse)
      (λ t. count (Workers.is_lapsed c.now stale) t.workers) db
      (Moves-refl (mark_unhealthy stale) db (job_at i db))
      (Moves-refl (mark_unhealthy stale) db (job_at i db))
perform-Moves e c (insert_letter n) db i keyed =
    exec_ind (Kept e c i db (insert_letter n)) c (DeadLetters.insert_letter c n (e.jsonb n.payload))
      db (Moves-refl (insert_letter n) db (job_at i db))
      (λ db' row h.
        other-Kept e c i db (insert_letter n) db'
          (insert_letter-jobs c n (e.jsonb n.payload) db db' row h))
perform-Moves e c (mark_replayed id job_id) db i keyed =
    exec_total (Kept e c i db (mark_replayed id job_id)) c
      (DeadLetters.update_letters id (DeadLetters.replayed c.now job_id))
      (DeadLetters.count_letters id) db (Moves-refl (mark_replayed id job_id) db (job_at i db))
      (Moves-refl (mark_replayed id job_id) db (job_at i db))
perform-Moves e c (delete_letter id) db i keyed =
    exec_total (Kept e c i db (delete_letter id)) c (DeadLetters.delete_letters id)
      (DeadLetters.count_letters id) db (Moves-refl (delete_letter id) db (job_at i db))
      (Moves-refl (delete_letter id) db (job_at i db))
