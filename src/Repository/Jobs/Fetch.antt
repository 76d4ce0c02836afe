-- ===== src/Repository/Jobs/Fetch.antt =====
-- What `FetchPending` assigns: which rows it picks, what it makes of them, and what it returns.
use mathlib.Core.Option
use distributed_job_schedule.Prelude.{
  ℕ, ◌+◌, ◌≤◌, ◌<◌, ◌≡◌, ◌⊎◌, ◌==◌, refl, ◌∙◌, inl, inr, Bool, true, false, not, ◌&&◌, ◌||◌, some,
  List, [], ◌∷◌, leb, if◌then◌else◌, arith, length, count, select, any, Option-cases, find-passes,
  any-count, any-count_pos, count-select, count-take-drop, count_congr, count_mono, count-or_le,
  count-split, count-false, count-true, count-update, length-take_le,
}
use distributed_job_schedule.Prelude.Int.{ℤ, pos, negsuc}
use distributed_job_schedule.Prelude.Sorting.{IsOrder}
use distributed_job_schedule.Models.{Uuid, Time, Job, queued, running, retrying}
use distributed_job_schedule.Errors.{ok, err, Error}
use distributed_job_schedule.Repository.Database.{Database, Engine, Call, reachable}
use distributed_job_schedule.Repository.Jobs.{
  has_id, job_at, touch, update_jobs, is_candidate, before, picked, is_in, assign, is_assignable,
  max_int4, fetch_rows, fetch_pending,
}
use distributed_job_schedule.Repository.Jobs.Rows.{IsKeyed, update_jobs-at, passes_at, count-has_id}

pub before-IsOrder : IsOrder before
unfolding before
before-IsOrder = record { total = λ x y. ground arith; trans = λ x y z h k. ground arith }

-- A call that answers did run, on the rows that it picked.
pub fetch_pending_inv :
    (e : Engine) (c : Call) (worker : Uuid) (n : ℕ) (db db' : Database) (got : List Job)
    → fetch_pending e c worker (pos n) db ≡ (db', ok got)
    → (db' ≡ update_jobs c.now (is_in (picked e c n db)) (assign worker) db)
      × (got ≡ e.returning (select (is_in (picked e c n db)) db'.jobs))
      × (is_assignable worker (picked e c n db) db ≡ true)
unfolding fetch_pending
fetch_pending_inv e c worker n db db' got h = ground arith

module _ (e : Engine) (c : Call) (n : ℕ) (db : Database) where
  -- The statement picks the row with the primary key `i`.
  abbrev pub chosen : Uuid → Bool
  chosen i = any (has_id i) (picked e c n db)

  count-picked_le :
      (p : Job → Bool)
      → count p (picked e c n db) ≤ count (λ j. is_candidate c.locked j && p j) db.jobs
  unfolding picked
  count-picked_le p =
      let candidates = select (is_candidate c.locked) db.jobs in
      let sorted = (e.job_sorter c).sort before candidates in
      omega (
        arith,
        count-take-drop p n sorted,
        (e.job_sorter c).sort-count before p candidates,
        count-select (is_candidate c.locked) p db.jobs,
      )

  pub length-picked_le : length (picked e c n db) ≤ n
  unfolding picked
  length-picked_le = length-take_le n _

  pub chosen-candidate :
      (i : Uuid)
      → IsKeyed db.jobs
      → chosen i ≡ true
      → passes_at (is_candidate c.locked) (job_at i db) ≡ true
  chosen-candidate i keyed h = ground (
    arith,
    any-count_pos (has_id i) (picked e c n db) h,
    count-picked_le (has_id i),
    count_congr (λ j. is_candidate c.locked j && has_id i j)
        (λ j. has_id i j && is_candidate c.locked j) db.jobs (λ j. ground arith),
    count-has_id i (is_candidate c.locked) db.jobs (keyed i),
  )

  -- A row that is picked is as its table has it: its counter does not overflow.
  pub chosen-attempts :
      (i : Uuid) (j : Job)
      → IsKeyed db.jobs
      → job_at i db ≡ some j
      → chosen i ≡ true
      → any (λ k. leb max_int4 k.attempts) (picked e c n db) ≡ false
      → j.attempts < max_int4
  chosen-attempts i j keyed there taken fits =
      let full = λ (k : Job). leb max_int4 k.attempts in
      ground (
        arith,
        any-count_pos (has_id i) (picked e c n db) taken,
        any-count full (picked e c n db) fits,
        count-split (has_id i) full (picked e c n db),
        count_mono (λ k. has_id i k && full k) full (picked e c n db) (λ k h. ground arith),
        count-picked_le (λ k. has_id i k && not (full k)),
        count_mono (λ k. is_candidate c.locked k && (has_id i k && not (full k)))
            (λ k. has_id i k && not (full k)) db.jobs (λ k h. ground arith),
        count-has_id i (λ k. not (full k)) db.jobs (keyed i),
      )

  pub fetched-at :
      (worker i : Uuid)
      → job_at i (update_jobs c.now (is_in (picked e c n db)) (assign worker) db) ≡ (
          if chosen i
          then Option.map (λ j. touch c.now (assign worker j)) (job_at i db)
          else job_at i db)
  fetched-at worker i = elim (Option-cases (job_at i db)) [
    | inl absent ↦
        rw (update_jobs-at i c.now (is_in (picked e c n db)) (assign worker) db (λ j. refl), absent)
          (ground arith)
    | inr (j, there) ↦
        rw (update_jobs-at i c.now (is_in (picked e c n db)) (assign worker) db (λ j. refl), there)
          (ground (arith, find-passes (has_id i) db.jobs j there))
  ]

-- Of a keyed table at most as many rows are in a list of rows as the list is long.
pub count-is_in : (rows jobs : List Job) → IsKeyed jobs → count (is_in rows) jobs ≤ length rows
count-is_in [] jobs keyed =
    omega (arith, count_congr (is_in []) (λ _. false) jobs (λ j. refl), count-false jobs)
count-is_in (k ∷ rows) jobs keyed = omega (
  arith,
  count_mono (is_in (k ∷ rows)) (λ j. has_id k.id j || is_in rows j) jobs (λ j h. ground arith),
  count-or_le (has_id k.id) (is_in rows) jobs,
  keyed k.id,
  count-is_in rows jobs keyed,
)

pub update_jobs-IsKeyed :
    (now : Time) (p : Job → Bool) (f : Job → Job) (db : Database)
    → ((j : Job) → (f j).id ≡ j.id)
    → IsKeyed db.jobs
    → IsKeyed (update_jobs now p f db).jobs
update_jobs-IsKeyed now p f db same keyed i =
    omega
      (arith, count-update (has_id i) p (λ j. touch now (f j)) db.jobs (λ j. rw (same j)), keyed i)

pub id_lem : (i : Uuid) (j : Job) → has_id i j ≡ true → i ≡ j.id
id_lem i j h = ground arith

module _ (e : Engine) (c : Call) (worker : Uuid) (n : ℕ) (db db' : Database) (got : List Job)
    (keyed : IsKeyed db.jobs) (ran : fetch_pending e c worker (pos n) db ≡ (db', ok got)) where
  pub after-IsKeyed : IsKeyed db'.jobs
  after-IsKeyed =
      rw (fetch_pending_inv e c worker n db db' got ran).0
        (update_jobs-IsKeyed c.now (is_in (picked e c n db)) (assign worker) db (λ j. refl) keyed)

  pub count-got :
      (p : Job → Bool) → count p got ≡ count (λ j. is_in (picked e c n db) j && p j) db'.jobs
  count-got p =
      rw (fetch_pending_inv e c worker n db db' got ran).1
        (e.returning-count p _ ∙ count-select (is_in (picked e c n db)) p db'.jobs)

  pub after-at :
      (i : Uuid)
      → job_at i db' ≡ (
          if chosen e c n db i
          then Option.map (λ j. touch c.now (assign worker j)) (job_at i db)
          else job_at i db)
  after-at i = rw (fetch_pending_inv e c worker n db db' got ran).0 (fetched-at e c n db worker i)

  pub any-got : (i : Uuid) → any (has_id i) got ≡ chosen e c n db i
  any-got i = ground (
    arith,
    count-got (has_id i),
    count_congr (λ j. is_in (picked e c n db) j && has_id i j)
        (λ j. has_id i j && chosen e c n db i) db'.jobs (λ j. ground arith),
    count-has_id i (λ _. chosen e c n db i) db'.jobs (after-IsKeyed i),
    after-at i,
    chosen-candidate e c n db i keyed,
    any-count (has_id i) got,
    any-count_pos (has_id i) got,
  )

  got-at :
      (i : Uuid)
      → any (has_id i) got ≡ true
      → (j : Job) × (job_at i db ≡ some j)
        × ((j.status ≡ queued) ⊎ (j.status ≡ retrying))
        × (any (λ l. l == i) c.locked ≡ false)
        × (job_at i db'
            ≡ some (record j {
              status = running;
              worker_id = some worker;
              attempts = j.attempts + 1;
              updated_at = c.now;
            }))
  got-at i there =
      let pending = chosen-candidate e c n db i keyed (ground (arith, any-got i)) in
      elim (Option-cases (job_at i db)) [
        | inl absent ↦ absurd (ground arith)
        | inr (j, found) ↦
            let is_i : has_id i j ≡ true = find-passes (has_id i) db.jobs j found in
            let passes : is_candidate c.locked j ≡ true = rw found at pending in
            (
              j,
              found,
              ground arith,
              rw (id_lem i j is_i) (ground arith),
              rw (after-at i, found) (ground (arith, any-got i)),
            )
      ]

  -- A `FetchPending` that answers on a keyed table: each job that it returns was QUEUED or RETRYING
  -- and not locked by another transaction, and it is now RUNNING, assigned to the worker, with one
  -- more attempt and else as it was but for the time of its update; every other row stays as it was;
  -- what it returns are those rows as they now stand, each once; and there are at most `limit` of
  -- them.
  pub fetch_pending_lem :
      ((i : Uuid)
        → any (has_id i) got ≡ true
        → (j : Job) × (job_at i db ≡ some j)
          × ((j.status ≡ queued) ⊎ (j.status ≡ retrying))
          × (any (λ l. l == i) c.locked ≡ false)
          × (job_at i db'
              ≡ some (record j {
                status = running;
                worker_id = some worker;
                attempts = j.attempts + 1;
                updated_at = c.now;
              })))
      × ((i : Uuid) → any (has_id i) got ≡ false → job_at i db' ≡ job_at i db)
      × ((p : Job → Bool) → count p got ≡ count (λ j. any (has_id j.id) got && p j) db'.jobs)
      × (length got ≤ n)
  fetch_pending_lem = (
    got-at,
    λ i other. rw (after-at i) (ground (arith, any-got i)),
    λ p.
        count-got p
        ∙ count_congr (λ j. is_in (picked e c n db) j && p j) (λ j. any (has_id j.id) got && p j)
            db'.jobs (λ j. rw (any-got j.id)),
    omega (
      arith,
      count-true got,
      count-got (λ _. true),
      count_congr (λ j. is_in (picked e c n db) j && true) (is_in (picked e c n db)) db'.jobs
          (λ j. ground arith),
      count-is_in (picked e c n db) db'.jobs after-IsKeyed,
      length-picked_le e c n db,
    ),
  )

-- The statement that succeeds has updated the rows that it picked, and these could be assigned.
pub fetch_rows-inv :
    (e : Engine) (c : Call) (worker : Uuid) (limit : ℤ) (db db' : Database) (got : List Job)
    → fetch_rows e c worker limit db ≡ some (db', got)
    → (n : ℕ) × (db' ≡ update_jobs c.now (is_in (picked e c n db)) (assign worker) db)
      × (is_assignable worker (picked e c n db) db ≡ true)
unfolding fetch_rows
fetch_rows-inv e c worker (negsuc n) db db' got h = cc
fetch_rows-inv e c worker (pos n) db db' got h = (n, ground arith, ground arith)

-- A refused statement has changed nothing, if the connection held.
pub fetch_pending_err :
    (e : Engine) (c : Call) (worker : Uuid) (limit : ℤ) (db db' : Database) (x : Error)
    → c.link ≡ reachable
    → fetch_pending e c worker limit db ≡ (db', err x)
    → db' ≡ db
unfolding fetch_pending
fetch_pending_err e c worker limit db db' x up h = ground arith

pub fetch_pending_negsuc :
    (e : Engine) (c : Call) (worker : Uuid) (n : ℕ) (db db' : Database) (got : List Job)
    → fetch_pending e c worker (negsuc n) db ≡ (db', ok got)
    → ⊥
unfolding fetch_pending
fetch_pending_negsuc e c worker n db db' got h = ground arith
