-- ===== src/System/Moments/Held.antt =====
-- The orders of the jobs that are RUNNING, at every moment of a tick.
use distributed_job_schedule.Prelude.{
  ℕ, ◌+◌, ◌≡◌, ◌⊎◌, refl, inl, inr, true, false, some, List, [], ◌∷◌, arith, any, ==_iff, ap, ◌∙◌,
  ◌||◌, ◌&&◌, find-passes, Bool-cases, Option-cases,
}
use distributed_job_schedule.Prelude.Int.{ℤ, pos, negsuc}
use distributed_job_schedule.Models.{Uuid, Job, running}
use distributed_job_schedule.Errors.{Result, ok, err}
use distributed_job_schedule.Repository.Database.{Database, reachable, no_rows}
use distributed_job_schedule.Repository.Jobs
use distributed_job_schedule.Repository.Jobs.{has_id, job_at, is_worker}
use distributed_job_schedule.Repository.Jobs.Rows.{passes_at}
use distributed_job_schedule.Repository.Jobs.Fetch.{fetch_pending_err, fetch_pending_negsuc}
use distributed_job_schedule.Repository.Operations.{perform}
use distributed_job_schedule.Repository.Operations.Lifecycle.{perform-Moves}
use distributed_job_schedule.Repository.Operations.Validity.{
  IsValid, no_rows-IsValid, perform-IsValid,
}
use distributed_job_schedule.Broker.World.{World, Env, append}
use distributed_job_schedule.Broker.Producer.{publish_job}
use distributed_job_schedule.Scheduler.Dispatcher.{message_of}
use distributed_job_schedule.Scheduler.Dispatcher.Kept.{publish_job-db, rollback_kept}
use distributed_job_schedule.Scheduler.Dispatcher.Validity.{IsValid-kept, fetch-IsValid}
use distributed_job_schedule.Scheduler.Dispatcher.Delivery.{
  is_sent, is_running, Covers, IsUp, Covers-refl, Covers-other, rollback-Covers, covers_row-keeps,
  any-append, covers_row-sent, fetched-Covers, publish_job-orders,
}
use distributed_job_schedule.System.Covered.{Moves-covered, covered-grown}
use distributed_job_schedule.System.Moments.{
  Phase, idle, publishing, in_hand, worker_of, fetched, published, Step, fetches, publishes,
  rolls_back, goes_on, calls, sends, counts, Reaches, here, step,
}

module _ (env : Env) (up : IsUp env) (start : Database) where
  IsHeld : World × Phase → Type 0
  IsHeld (w, p) = IsValid w.db × Covers env start (worker_of p) (in_hand p) w

  fetched-IsHeld :
      (k : Uuid) (limit : ℤ) (w : World) (db' : Database) (r : Result (List Job))
      → IsValid w.db
      → IsValid db'
      → Jobs.fetch_pending env.engine (env.call w.calls) k limit w.db ≡ (db', r)
      → Covers env start 0 [] w
      → IsHeld (fetched k (record w { db = db'; calls = w.calls + 1 }, r))
  unfolding IsHeld
  fetched-IsHeld k limit w db' (err x) v v' e cov = (
    v',
    λ i.
        rw (fetch_pending_err env.engine (env.call w.calls) k limit w.db db' x (up w.calls) e)
          (cov i),
  )
  fetched-IsHeld k (negsuc n) w db' (ok got) v v' e cov =
      absurd (fetch_pending_negsuc env.engine (env.call w.calls) k n w.db db' got e)
  fetched-IsHeld k (pos n) w db' (ok got) v v' e cov = (
    v',
    fetched-Covers env up start k n got w db' v.jobs_keyed e (Covers-other env up start 0 k w cov),
  )

  published-IsHeld :
      (k : Uuid) (j : Job) (jobs : List Job) (w : World) (r : Result (Unit {0}))
      → (publish_job env (message_of k j) w).1 ≡ r
      → IsHeld (w, publishing k (j ∷ jobs))
      → IsHeld (published k j jobs ((publish_job env (message_of k j) w).0, r))
  unfolding IsHeld
  published-IsHeld k j jobs w r e (v, cov) = go r e
    where
      sent : World
      sent = (publish_job env (message_of k j) w).0

      valid : IsValid sent.db
      valid = rw (publish_job-db env (message_of k j) w) v

      kept : Covers env start k (j ∷ jobs) sent
      kept i =
          rw (publish_job-db env (message_of k j) w) (
            covers_row-keeps env up start k (j ∷ jobs) (message_of k j) w i (job_at i w.db) (cov i))

      go :
          (r : Result (Unit {0}))
          → (publish_job env (message_of k j) w).1 ≡ r
          → IsHeld (published k j jobs (sent, r))
      go (ok u) e = (
        valid,
        λ i.
            covers_row-sent env up start k j jobs sent.log i (job_at i sent.db)
              (λ row there. (==_iff row.id i).0 (find-passes (has_id i) sent.db.jobs row there))
              (publish_job-orders env (message_of k j) w e) (kept i),
      )
      go (err x) e = (valid, kept)

  step-IsHeld : (x y : World × Phase) → Step env x y → IsHeld x → IsHeld y
  unfolding IsHeld
  step-IsHeld _ _ (fetches w k limit) (v, cov) =
      let r = Jobs.fetch_pending env.engine (env.call w.calls) k limit w.db in
      fetched-IsHeld k limit w r.0 r.1 v (fetch-IsValid env k limit w v) refl cov
  step-IsHeld _ _ (publishes w k j jobs) h =
      published-IsHeld k j jobs w (publish_job env (message_of k j) w).1 refl h
  step-IsHeld _ _ (rolls_back w k j jobs) (v, cov) = (
    rollback_kept env IsValid (IsValid-kept env) j.id w v,
    rollback-Covers env up start k j jobs w v.jobs_keyed cov,
  )
  step-IsHeld _ _ (goes_on w k) (v, cov) = (v, Covers-other env up start k 0 w cov)
  step-IsHeld _ _ (calls w p c o other) (v, cov) = (
    perform-IsValid env.engine c o w.db v,
    λ i.
        Moves-covered env.json w.log start (worker_of p) (in_hand p) i o w.db (job_at i w.db)
          (job_at i (perform env.engine c o w.db)) other
          (perform-Moves env.engine c o w.db i v.jobs_keyed) (cov i),
  )
  step-IsHeld _ _ (sends w p r) (v, cov) = (
    v,
    λ i.
        covered-grown env start w.log (append r w).log
          (λ q h. ground (arith, any-append q w.log (r ∷ []))) (worker_of p) (in_hand p) i
          (job_at i w.db) (cov i),
  )
  step-IsHeld _ _ (counts w p n) h = h

  run-IsHeld : (x y : World × Phase) → Reaches env x y → IsHeld x → IsHeld y
  run-IsHeld x _ here h = h
  run-IsHeld x y (step u _ before next) h = step-IsHeld u y next (run-IsHeld x u before h)

in_hand_cases :
    (env : Env) (w : World) (p : Phase) (i : Uuid) (j : Job)
    → (is_sent env.json w.log j
        || (any (has_id i) (in_hand p) && is_worker (worker_of p) j.worker_id))
      ≡ true
    → (is_sent env.json w.log j ≡ true)
      ⊎ ((any (has_id i) (in_hand p) ≡ true) × (j.worker_id ≡ some (worker_of p)))
in_hand_cases env w p i j h = elim (Option-cases j.worker_id) [
  | inl e ↦ absurd (ground arith)
  | inr (k, e) ↦ elim (Bool-cases (is_sent env.json w.log j)) [
    | inl sent ↦ inl sent
    | inr not_sent ↦ inr (ground arith, e ∙ ap some (ground arith))
  ]
]

-- At every moment, also within a tick and however the single calls of the other programs fall between
-- those of the dispatcher: from empty tables, over a database that answers the dispatcher, of a job that
-- is RUNNING either the row names a worker and the log of Kafka has an order to run this job under the
-- key of that worker; or the dispatcher has the job in hand, for the worker that the row names, fetched
-- and neither published nor rolled back. There is one dispatcher, and it does not end within a tick.
pub Reaches-in_hand :
    (env : Env) (w w' : World) (p : Phase) (i : Uuid) (j : Job)
    → ((n : ℕ) → (env.call n).link ≡ reachable)
    → w.db ≡ no_rows
    → Reaches env (w, idle) (w', p)
    → job_at i w'.db ≡ some j
    → j.status ≡ running
    → (is_sent env.json w'.log j ≡ true)
      ⊎ ((any (has_id i) (in_hand p) ≡ true) × (j.worker_id ≡ some (worker_of p)))
unfolding IsHeld
Reaches-in_hand env w w' p i j up empty reached there runs =
    let (v, covers) =
      run-IsHeld env up w.db (w, idle) (w', p) reached
        (rw empty no_rows-IsValid, Covers-refl env w) in
    let nothing : passes_at is_running (job_at i w.db) ≡ false = rw empty refl in
    let held = covers i in let row = rw there at held in in_hand_cases env w' p i j (ground arith)
