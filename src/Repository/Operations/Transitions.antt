-- ===== src/Repository/Operations/Transitions.antt =====
-- What each call of a repository may do to the row of a job.
use distributed_job_schedule.Prelude.{
  ℕ, ◌+◌, ◌*◌, ◌≤◌, ◌<◌, ◌≡◌, ◌⊎◌, ◌∙◌, ap, refl, inl, inr, Bool, true, ◌&&◌, leb, ◌==◌, none, some,
  List, [], ◌∷◌, ◌++◌, arith, any, Bool-cases, Option-cases,
}
use distributed_job_schedule.Prelude.Int.{ℤ}
use distributed_job_schedule.Models.{
  Uuid, Time, Job, Worker, queued, running, retrying, completed, dead, unhealthy,
  same_worker_status,
}
use distributed_job_schedule.Repository.Database.{Database}
use distributed_job_schedule.Repository.Jobs.{
  has_id, touch, is_cancellable, is_pending, verdict, on_stale, is_stale, worker_exists,
}
use distributed_job_schedule.Repository.Operations.{
  Operation, cancel, fetch_pending, requeue_stale, mark_completed, mark_failed, rollback_to_queued,
}

-- UNHEALTHY, or last heard of more than `stale` seconds before.
pub IsGone : Time → ℕ → Worker → Type 0
IsGone now stale w =
    (w.status ≡ unhealthy)
    ⊎ ((t : Time) × (w.last_heartbeat ≡ some t) × (t + stale * 1_000_000 < now))

-- The call releases the job: a roll back of this job, or a requeue that finds its worker gone.
pub IsRelease : Operation → Database → Time → Job → Type 0
IsRelease o db now j =
    (o ≡ rollback_to_queued j.id)
    ⊎ ((stale : ℕ) × (o ≡ requeue_stale stale)
        × ((w : Worker) × (xs : List Worker) × (ys : List Worker) × (db.workers ≡ xs ++ w ∷ ys)
            × (j.worker_id ≡ some w.id)
            × IsGone now stale w))

-- How the call `o` may change the row `j` into `k`, written out for each call that may.
pub data Transition (o : Operation) (db : Database) (j k : Job) : Type 0 where
  stays : k ≡ j → Transition o db j k
  cancels :
      (now : Time)
      → o ≡ cancel j.id
      → (j.status ≡ queued) ⊎ (j.status ≡ running) ⊎ (j.status ≡ retrying)
      → k ≡ record j { status = dead; updated_at = now }
      → Transition o db j k
  assigns :
      (now : Time) (worker : Uuid) (limit : ℤ)
      → o ≡ fetch_pending worker limit
      → (j.status ≡ queued) ⊎ (j.status ≡ retrying)
      → worker_exists worker db ≡ true
      → j.attempts < 2_147_483_647
      → k ≡ record j {
        status = running;
        worker_id = some worker;
        attempts = j.attempts + 1;
        updated_at = now;
      }
      → Transition o db j k
  releases :
      (now : Time)
      → IsRelease o db now j
      → j.status ≡ running
      → k ≡ record j { status = queued; worker_id = none; updated_at = now }
      → Transition o db j k
  completes :
      (now : Time)
      → o ≡ mark_completed j.id
      → k ≡ record j { status = completed; updated_at = now }
      → Transition o db j k
  retries :
      (now : Time) (limit : ℕ)
      → o ≡ mark_failed j.id limit
      → j.attempts < limit
      → k ≡ record j { status = retrying; updated_at = now }
      → Transition o db j k
  dies :
      (now : Time) (limit : ℕ)
      → o ≡ mark_failed j.id limit
      → limit ≤ j.attempts
      → k ≡ record j { status = dead; updated_at = now }
      → Transition o db j k

any-split :
    (p : Worker → Bool) (ws : List Worker)
    → any p ws ≡ true
    → (w : Worker) × (xs : List Worker) × (ys : List Worker) × (ws ≡ xs ++ w ∷ ys) × (p w ≡ true)
any-split p [] h = absurd (ground arith)
any-split p (w ∷ ws) h = elim (Bool-cases (p w)) [
  | inl hit ↦ (w, [], ws, refl, hit)
  | inr miss ↦
      let (v, xs, ys, e, hit) = any-split p ws (ground arith) in
      (v, w ∷ xs, ys, ap (λ l. w ∷ l) e, hit)
]

is_stale-IsGone :
    (now : Time) (stale : ℕ) (w : Worker) → is_stale now stale w ≡ true → IsGone now stale w
unfolding IsGone
is_stale-IsGone now stale w h = elim (Option-cases w.last_heartbeat) [
  | inl never ↦ inl (ground arith)
  | inr (t, heard) ↦ elim (Bool-cases (same_worker_status w.status unhealthy)) [
    | inl marked ↦ inl (ground arith)
    | inr up ↦ inr (t, heard, ground arith)
  ]
]

pub on_stale-IsRelease :
    (db : Database) (now : Time) (stale : ℕ) (j : Job)
    → on_stale now stale db.workers j.worker_id ≡ true
    → IsRelease (requeue_stale stale) db now j
unfolding IsRelease
on_stale-IsRelease db now stale j h = elim (Option-cases j.worker_id) [
  | inl free ↦ absurd (ground arith)
  | inr (i, its) ↦
      let (w, xs, ys, e, hit) =
        any-split (λ w. (w.id == i) && is_stale now stale w) db.workers (rw its at h) in
      inr (
        stale,
        refl,
        (w, xs, ys, e, its ∙ ap some (ground arith), is_stale-IsGone now stale w (ground arith)),
      )
]

-- The primary key that a call is given is the row's.
pub id_of : (id : Uuid) (j : Job) → has_id id j ≡ true → id ≡ j.id
id_of id j h = ground arith

pub rolled_back-IsRelease :
    (db : Database) (now : Time) (id : Uuid) (j : Job)
    → id ≡ j.id
    → IsRelease (rollback_to_queued id) db now j
unfolding IsRelease
rolled_back-IsRelease db now id j same = inl (ap rollback_to_queued same)

pub pending_or_running :
    (j : Job)
    → is_cancellable j.status ≡ true
    → (j.status ≡ queued) ⊎ (j.status ≡ running) ⊎ (j.status ≡ retrying)
pending_or_running j h = ground arith

pub pending : (j : Job) → is_pending j.status ≡ true → (j.status ≡ queued) ⊎ (j.status ≡ retrying)
pending j h = ground arith

pub fails :
    (db : Database) (now : Time) (id : Uuid) (limit : ℕ) (j : Job)
    → id ≡ j.id
    → Transition (mark_failed id limit) db j (touch now (record j { status = verdict limit j }))
fails db now id limit j same = elim (Bool-cases (leb limit j.attempts)) [
  | inl over ↦ dies now limit (ap (λ i. mark_failed i limit) same) (ground arith) (rw over refl)
  | inr left ↦ retries now limit (ap (λ i. mark_failed i limit) same) (ground arith) (rw left refl)
]
