-- ===== src/Scheduler/Dispatcher/Delivery.antt =====
-- The orders for the jobs that a tick makes RUNNING.
use text.Mathlib.Text.{◌==◌ as str_eq}
use distributed_job_schedule.Prelude.{
  ℕ, ◌+◌, ◌≡◌, refl, ◌⊎◌, inl, inr, Bool, true, false, not, ◌&&◌, ◌||◌, Option, none, some, List,
  [], ◌∷◌, ◌++◌, ◌==◌, arith, any, Bool-cases, Option-cases, ==_iff, find-passes,
}
use distributed_job_schedule.Prelude.Int.{ℤ, pos, negsuc, leb_ℤ}
use distributed_job_schedule.Models.{Uuid, Job, Worker, running, same_job_status}
use distributed_job_schedule.Errors.{Result, ok, err}
use distributed_job_schedule.Repository.Database.{Database, reachable}
use distributed_job_schedule.Repository.Jobs
use distributed_job_schedule.Repository.Jobs.{has_id, job_at, is_worker}
use distributed_job_schedule.Repository.Jobs.Rows.{IsKeyed, passes_at, rollback_to_queued_lem}
use distributed_job_schedule.Repository.Jobs.Fetch.{
  fetch_pending_lem, fetch_pending_err, fetch_pending_negsuc,
}
use distributed_job_schedule.Repository.Workers.{fetch_healthy}
use distributed_job_schedule.Repository.Operations.Validity.{IsValid}
use distributed_job_schedule.Broker.Messages.{Json, JobMessage, topic_jobs}
use distributed_job_schedule.Broker.World.{World, Env, KafkaRecord, query}
use distributed_job_schedule.Broker.Producer.{publish_job}
use distributed_job_schedule.Scheduler.Dispatcher.{
  capacity, message_of, after_publish, after_fetch, after_healthy, dispatch_job, dispatch_jobs,
  dispatch_worker, dispatch_workers, tick,
}
use distributed_job_schedule.Scheduler.Dispatcher.Kept.{publish_job-db, fetch_healthy-db}
use distributed_job_schedule.Scheduler.Dispatcher.Validity.{
  dispatch_job-IsValid, dispatch_worker-IsValid, fetch-IsValid,
}

abbrev pub orders : Option JobMessage → Uuid → Uuid → Bool
orders none i k = false
orders (some m) i k = (m.job_id == i) && (m.worker_id == k)

-- A record of the topic of jobs, under the worker's key, that orders it to run the job.
abbrev pub is_order : Json → Uuid → Uuid → KafkaRecord → Bool
is_order json i k r =
    str_eq r.topic topic_jobs && ((r.key == k) && orders (json.decode_job r.value) i k)

abbrev pub is_running : Job → Bool
is_running j = same_job_status j.status running

-- The worker that a job's row names has been sent the job.
abbrev pub is_sent : Json → List KafkaRecord → Job → Bool
is_sent json log j = elim j.worker_id [ none ↦ false | some k ↦ any (is_order json j.id k) log ]

pub any-append :
    {A : Type 0} (p : A → Bool) (xs ys : List A) → any p (xs ++ ys) ≡ (any p xs || any p ys)
any-append p [] ys = refl
any-append p (x ∷ xs) ys = ground (arith, any-append p xs ys)

publish_job-keeps :
    (env : Env) (m : JobMessage) (w : World) (i k : Uuid)
    → any (is_order env.json i k) w.log ≡ true
    → any (is_order env.json i k) (publish_job env m w).0.log ≡ true
unfolding publish_job
publish_job-keeps env m w i k h = elim (Option-cases (env.json.encode_job m)) [
  | inl e ↦ ground arith
  | inr (b, e) ↦ ground (
    arith,
    any-append (is_order env.json i k) w.log
        (record { topic = topic_jobs; key = m.worker_id; value = b } ∷ []),
  )
]

pub publish_job-orders :
    (env : Env) (m : JobMessage) (w : World)
    → (publish_job env m w).1 ≡ ok tt
    → any (is_order env.json m.job_id m.worker_id) (publish_job env m w).0.log ≡ true
unfolding publish_job
publish_job-orders env m w h = elim (Option-cases (env.json.encode_job m)) [
  | inl e ↦ ground arith
  | inr (b, e) ↦ ground (
    arith,
    any-append (is_order env.json m.job_id m.worker_id) w.log
        (record { topic = topic_jobs; key = m.worker_id; value = b } ∷ []),
    env.json.decode-encode_job m b e,
  )
]

-- Of the job with key `i`: if it is RUNNING, it was RUNNING at the start of the tick, or its order
-- has been sent, or it is one of the jobs `rest` that `k` is about to be sent.
abbrev pub covers_row :
    Json → List KafkaRecord → Database → Uuid → List Job → Uuid → Option Job → Bool
covers_row json log start k rest i none = true
covers_row json log start k rest i (some j) =
    not (is_running j)
    || (passes_at is_running (job_at i start)
        || (is_sent json log j || (any (has_id i) rest && is_worker k j.worker_id)))

abbrev pub Covers : Env → Database → Uuid → List Job → World → Type 0
Covers env start k rest w =
    (i : Uuid) → covers_row env.json w.log start k rest i (job_at i w.db) ≡ true

abbrev pub IsUp : Env → Type 0
IsUp env = (n : ℕ) → (env.call n).link ≡ reachable

module _ (env : Env) (up : IsUp env) (start : Database) where
  pub rollback-Covers :
      (k : Uuid) (j : Job) (rest : List Job) (w : World)
      → IsKeyed w.db.jobs
      → Covers env start k (j ∷ rest) w
      → Covers env start k rest (query env (λ c. Jobs.rollback_to_queued c j.id) w).0
  rollback-Covers k j rest w keyed cov i =
      ground
        (arith, (rollback_to_queued_lem (env.call w.calls) j.id w.db (up w.calls) keyed).1 i, cov i)

  is_sent-keeps :
      (m : JobMessage) (w : World) (row : Job)
      → is_sent env.json w.log row ≡ true
      → is_sent env.json (publish_job env m w).0.log row ≡ true
  is_sent-keeps m w row h = elim (Option-cases row.worker_id) [
    | inl e ↦ ground arith
    | inr (k, e) ↦ rw e (publish_job-keeps env m w row.id k (rw e at h))
  ]

  pub covers_row-keeps :
      (k : Uuid) (rest : List Job) (m : JobMessage) (w : World) (i : Uuid) (o : Option Job)
      → covers_row env.json w.log start k rest i o ≡ true
      → covers_row env.json (publish_job env m w).0.log start k rest i o ≡ true
  covers_row-keeps k rest m w i none h = refl
  covers_row-keeps k rest m w i (some row) h = ground (arith, is_sent-keeps m w row)

  pub covers_row-sent :
      (k : Uuid) (j : Job) (rest : List Job) (log : List KafkaRecord) (i : Uuid) (o : Option Job)
      → ((row : Job) → o ≡ some row → row.id ≡ i)
      → any (is_order env.json j.id k) log ≡ true
      → covers_row env.json log start k (j ∷ rest) i o ≡ true
      → covers_row env.json log start k rest i o ≡ true
  covers_row-sent k j rest log i none same sent h = refl
  covers_row-sent k j rest log i (some row) same sent h = ground (arith, same row refl)

  dispatch_job-Covers :
      (k : Uuid) (j : Job) (rest : List Job) (w : World)
      → IsKeyed w.db.jobs
      → Covers env start k (j ∷ rest) w
      → Covers env start k rest (dispatch_job env k j w)
  unfolding dispatch_job
  dispatch_job-Covers k j rest w keyed cov = go (publish_job env (message_of k j) w).1 refl
    where
      sent : World
      sent = (publish_job env (message_of k j) w).0

      kept : Covers env start k (j ∷ rest) sent
      kept i =
          rw (publish_job-db env (message_of k j) w)
            (covers_row-keeps k (j ∷ rest) (message_of k j) w i (job_at i w.db) (cov i))

      go :
          (r : Result (Unit {0}))
          → (publish_job env (message_of k j) w).1 ≡ r
          → Covers env start k rest (after_publish env j (sent, r))
      go (ok u) e = λ i.
          covers_row-sent k j rest sent.log i (job_at i sent.db)
            (λ row there. (==_iff row.id i).0 (find-passes (has_id i) sent.db.jobs row there))
            (publish_job-orders env (message_of k j) w e) (kept i)
      go (err x) e =
          rollback-Covers k j rest sent (rw (publish_job-db env (message_of k j) w) keyed) kept

  dispatch_jobs-Covers :
      (k : Uuid) (rest : List Job) (w : World)
      → IsValid w.db
      → Covers env start k rest w
      → Covers env start k [] (dispatch_jobs env k rest w)
  unfolding dispatch_jobs
  dispatch_jobs-Covers k [] w v cov = cov
  dispatch_jobs-Covers k (j ∷ rest) w v cov =
      dispatch_jobs-Covers k rest (dispatch_job env k j w) (dispatch_job-IsValid env k j w v)
        (dispatch_job-Covers k j rest w v.jobs_keyed cov)

  -- The jobs that a fetch has returned are all that it made RUNNING.
  pub fetched-Covers :
      (k : Uuid) (n : ℕ) (got : List Job) (w : World) (db' : Database)
      → IsKeyed w.db.jobs
      → Jobs.fetch_pending env.engine (env.call w.calls) k (pos n) w.db ≡ (db', ok got)
      → Covers env start k [] w
      → Covers env start k got (record w { db = db'; calls = w.calls + 1 })
  fetched-Covers k n got w db' keyed e cov i =
      let (now, other, _, _) =
        fetch_pending_lem env.engine (env.call w.calls) k n w.db db' got keyed e in
      elim (Bool-cases (any (has_id i) got)) [
        | inl taken ↦ let (j, there, _, _, row) = now i taken in rw row (ground arith)
        | inr left ↦ rw (other i left) (ground (arith, cov i))
      ]

  after_fetch-Covers :
      (k : Uuid) (limit : ℤ) (w : World) (db' : Database) (r : Result (List Job))
      → IsValid w.db
      → IsValid db'
      → Jobs.fetch_pending env.engine (env.call w.calls) k limit w.db ≡ (db', r)
      → Covers env start k [] w
      → Covers env start k [] (after_fetch env k (record w { db = db'; calls = w.calls + 1 }, r))
  after_fetch-Covers k limit w db' (err x) v v' e cov = λ i.
      rw (fetch_pending_err env.engine (env.call w.calls) k limit w.db db' x (up w.calls) e) (cov i)
  after_fetch-Covers k (negsuc n) w db' (ok got) v v' e cov =
      absurd (fetch_pending_negsuc env.engine (env.call w.calls) k n w.db db' got e)
  after_fetch-Covers k (pos n) w db' (ok got) v v' e cov =
      dispatch_jobs-Covers k got (record w { db = db'; calls = w.calls + 1 }) v'
        (fetched-Covers k n got w db' v.jobs_keyed e cov)

  dispatch_worker-Covers :
      (k : Worker) (w : World)
      → IsValid w.db
      → Covers env start k.id [] w
      → Covers env start k.id [] (dispatch_worker env k w)
  unfolding dispatch_worker
  dispatch_worker-Covers k w v cov = elim (Bool-cases (leb_ℤ (capacity k) (pos 0))) [
    | inl full ↦ rw full cov
    | inr free ↦
        let r = Jobs.fetch_pending env.engine (env.call w.calls) k.id (capacity k) w.db in
        rw free (
          after_fetch-Covers k.id (capacity k) w r.0 r.1 v (fetch-IsValid env k.id (capacity k) w v)
            refl cov)
  ]

  -- With no rest the worker does not matter.
  pub Covers-other : (k k' : Uuid) (w : World) → Covers env start k [] w → Covers env start k' [] w
  Covers-other k k' w cov i = ground (arith, cov i)

  dispatch_workers-Covers :
      (k : Uuid) (workers : List Worker) (w : World)
      → IsValid w.db
      → Covers env start k [] w
      → Covers env start k [] (dispatch_workers env workers w)
  unfolding dispatch_workers
  dispatch_workers-Covers k [] w v cov = cov
  dispatch_workers-Covers k (x ∷ workers) w v cov =
      dispatch_workers-Covers k workers (dispatch_worker env x w)
        (dispatch_worker-IsValid env x w v)
        (Covers-other x.id k (dispatch_worker env x w)
          (dispatch_worker-Covers x w v (Covers-other k x.id w cov)))

  pub after_healthy-Covers :
      (w : World) (r : Result (List Worker))
      → IsValid w.db
      → Covers env start 0 [] w
      → Covers env start 0 [] (after_healthy env (w, r)).0
  after_healthy-Covers w (err x) v cov = cov
  after_healthy-Covers w (ok workers) v cov = dispatch_workers-Covers 0 workers w v cov

pub Covers-refl : (env : Env) (w : World) → Covers env w.db 0 [] w
Covers-refl env w i = ground arith

-- After a tick over a database that answers, and whatever Kafka does: a job that is RUNNING was
-- RUNNING before the tick, or the log has an order for it under the key of the worker that its row
-- names.
pub tick-sent :
    (env : Env) (w : World) (i : Uuid) (j : Job)
    → ((n : ℕ) → (env.call n).link ≡ reachable)
    → IsValid w.db
    → job_at i (tick env w).0.db ≡ some j
    → j.status ≡ running
    → (passes_at is_running (job_at i w.db) ≡ true) ⊎ (is_sent env.json (tick env w).0.log j ≡ true)
unfolding tick
tick-sent env w i j up v there runs =
    let r = query env (λ c. fetch_healthy env.engine c 15) w in
    ground (
      arith,
      after_healthy-Covers env up w.db r.0 r.1
          (rw (fetch_healthy-db env.engine (env.call w.calls) 15 w.db) v)
          (rw (fetch_healthy-db env.engine (env.call w.calls) 15 w.db) (Covers-refl env w)) i,
    )
