-- ===== src/Repository/Jobs/Priority.antt =====
-- Which of the pending jobs `FetchPending` takes, and how many.
use Prim.Native.Nat.{min}
use distributed_job_schedule.Prelude.{
  ℕ, zero, suc, ◌≤◌, ◌≡◌, ◌⊎◌, ◌==◌, refl, ap, Bool, true, false, not, ◌&&◌, some, List, [], ◌∷◌,
  arith, length, take, count, select, any, find-passes, find-count_pos, any-count, any-count_pos,
  count-select, count-take-drop, count_congr, count_mono, count-split, count-true, count-update,
}
use distributed_job_schedule.Prelude.Int.{pos, leb_ℤ, ltb_ℤ}
use distributed_job_schedule.Prelude.Sorting.{sorted_split}
use distributed_job_schedule.Models.{Uuid, Job, queued, retrying}
use distributed_job_schedule.Errors.{ok}
use distributed_job_schedule.Repository.Database.{Database, Engine, Call}
use distributed_job_schedule.Repository.Jobs.{
  has_id, job_at, is_candidate, before, picked, is_in, fetch_pending, touch, assign,
}
use distributed_job_schedule.Repository.Jobs.Rows.{IsKeyed, count-has_id}
use distributed_job_schedule.Repository.Jobs.Fetch.{
  id_lem, before-IsOrder, chosen, any-got, count-got, after-IsKeyed, fetch_pending_inv,
  fetch_pending_lem, count-is_in,
}

-- The two jobs stand at the same place of the order.
abbrev ties : Job → Job → Bool
ties a b = before a b && before b a

before_congr :
    (x y k j : Job) → ties x k ≡ true → ties y j ≡ true → before x y ≡ true → before k j ≡ true
before_congr x y k j h h' t =
    before-IsOrder.trans k x j (ground arith) (before-IsOrder.trans x y j t (ground arith))

ties_refl : (j : Job) → ties j j ≡ true
unfolding before
ties_refl j = ground arith

module _ (e : Engine) (c : Call) (n : ℕ) (db : Database) (keyed : IsKeyed db.jobs) where
  abbrev candidates : List Job
  candidates = select (is_candidate c.locked) db.jobs

  abbrev sorted : List Job
  sorted = (e.job_sorter c).sort before candidates

  count-sorted :
      (p : Job → Bool) → count p sorted ≡ count (λ j. is_candidate c.locked j && p j) db.jobs
  count-sorted p = omega (
    arith,
    (e.job_sorter c).sort-count before p candidates,
    count-select (is_candidate c.locked) p db.jobs,
  )

  -- A sorted row with the primary key of `k` ties with `k`.
  untied :
      (m : Uuid) (k : Job)
      → job_at m db ≡ some k
      → count (λ x. has_id m x && not (ties x k)) sorted ≡ 0
  untied m k there = ground (
    arith,
    count-sorted (λ x. has_id m x && not (ties x k)),
    count_mono (λ j. is_candidate c.locked j && (has_id m j && not (ties j k)))
        (λ j. has_id m j && not (ties j k)) db.jobs (λ j h. ground arith),
    count-has_id m (λ x. not (ties x k)) db.jobs (keyed m),
    ties_refl k,
  )

  picked_before :
      (i m : Uuid) (j k : Job)
      → job_at i db ≡ some j
      → is_candidate c.locked j ≡ true
      → chosen e c n db i ≡ false
      → job_at m db ≡ some k
      → chosen e c n db m ≡ true
      → before k j ≡ true
  unfolding picked
  picked_before i m j k at_i pending left at_m taken =
      let p = λ (x : Job). has_id m x && ties x k in
      let q = λ (y : Job). has_id i y && ties y j in
      let (x, y, px, qy, t) =
        sorted_split before p q n sorted
          ((e.job_sorter c).sort-IsSorted before before-IsOrder candidates)
          (omega (
            arith,
            any-count_pos (has_id m) (take n sorted) taken,
            count-split (has_id m) (λ x. ties x k) (take n sorted),
            count-take-drop (λ x. has_id m x && not (ties x k)) n sorted,
            untied m k at_m,
          ))
          (omega (
            arith,
            any-count (has_id i) (take n sorted) left,
            count-split (has_id i) (λ y. ties y j) (take n sorted),
            count-take-drop (λ y. has_id i y && ties y j) n sorted,
            count-sorted (λ y. has_id i y && ties y j),
            find-count_pos (has_id i) (λ y. is_candidate c.locked y && (has_id i y && ties y j))
                db.jobs j at_i (ground (arith, find-passes (has_id i) db.jobs j at_i, ties_refl j)),
          )) in
      before_congr x y k j (ground arith) (ground arith) t

candidate :
    (locked : List Uuid) (i : Uuid) (db : Database) (j : Job)
    → job_at i db ≡ some j
    → (j.status ≡ queued) ⊎ (j.status ≡ retrying)
    → any (λ l. l == i) locked ≡ false
    → is_candidate locked j ≡ true
candidate locked i db j at_i pending free =
    let same = id_lem i j (find-passes (has_id i) db.jobs j at_i) in ground (arith, rw same at free)

before_inv :
    (k j : Job)
    → before k j ≡ true
    → (ltb_ℤ j.priority k.priority ≡ true)
      ⊎ ((leb_ℤ j.priority k.priority ≡ true) × (k.created_at ≤ j.created_at))
unfolding before
before_inv k j h = ground arith

-- A `FetchPending` that answers on a keyed table passes over a job that is QUEUED or RETRYING and not
-- locked only for jobs of higher priority, or of no lower priority that were created no later.
pub fetch_pending-priority :
    (e : Engine) (c : Call) (worker : Uuid) (n : ℕ) (db db' : Database) (got : List Job)
    (i m : Uuid) (j k : Job)
    → IsKeyed db.jobs
    → fetch_pending e c worker (pos n) db ≡ (db', ok got)
    → job_at i db ≡ some j
    → (j.status ≡ queued) ⊎ (j.status ≡ retrying)
    → any (λ l. l == i) c.locked ≡ false
    → any (has_id i) got ≡ false
    → job_at m db ≡ some k
    → any (has_id m) got ≡ true
    → (ltb_ℤ j.priority k.priority ≡ true)
      ⊎ ((leb_ℤ j.priority k.priority ≡ true) × (k.created_at ≤ j.created_at))
fetch_pending-priority e c worker n db db' got i m j k keyed ran at_i pending free left at_m taken =
    before_inv k j (
      picked_before e c n db keyed i m j k at_i (candidate c.locked i db j at_i pending free)
        (rw (any-got e c worker n db db' got keyed ran i) at left) at_m
        (rw (any-got e c worker n db db' got keyed ran m) at taken))

in_take : (n : ℕ) (xs : List Job) → count (λ j. not (is_in (take n xs) j)) (take n xs) ≡ 0
in_take zero xs = refl
in_take (suc n) [] = refl
in_take (suc n) (x ∷ xs) = ground (
  arith,
  count_mono (λ j. not (is_in (x ∷ take n xs) j)) (λ j. not (is_in (take n xs) j)) (take n xs)
      (λ j h. ground arith),
  in_take n xs,
)

length-take-drop : (n : ℕ) (xs : List Job) → length (take n xs) ≡ min n (length xs)
length-take-drop zero xs = omega arith
length-take-drop (suc n) [] = omega arith
length-take-drop (suc n) (x ∷ xs) = omega (arith, length-take-drop n xs)

module _ (e : Engine) (c : Call) (n : ℕ) (db : Database) (keyed : IsKeyed db.jobs) where
  count-taken_ge :
      length (picked e c n db)
      ≤ count (λ j. is_candidate c.locked j && is_in (picked e c n db) j) db.jobs
  unfolding picked
  count-taken_ge =
      let xs = sorted e c n db keyed in
      let rows = take n xs in
      omega (
        arith,
        count-sorted e c n db keyed (is_in rows),
        count-take-drop (is_in rows) n xs,
        count-split (λ _. true) (is_in rows) rows,
        count-true rows,
        count_congr (λ j. true && is_in rows j) (is_in rows) rows (λ j. refl),
        count_congr (λ j. true && not (is_in rows j)) (λ j. not (is_in rows j)) rows (λ j. refl),
        in_take n xs,
      )

  length-picked : length (picked e c n db) ≡ min n (count (is_candidate c.locked) db.jobs)
  unfolding picked
  length-picked = omega (
    arith,
    length-take-drop n (sorted e c n db keyed),
    count-true (sorted e c n db keyed),
    count-sorted e c n db keyed (λ _. true),
    count_congr (λ j. is_candidate c.locked j && true) (is_candidate c.locked) db.jobs
        (λ j. ground arith),
  )

-- A `FetchPending` that answers on a keyed table returns as many jobs as the limit allows: the limit
-- or the number of pending jobs that are not locked, whichever is less.
pub length-fetch_pending :
    (e : Engine) (c : Call) (worker : Uuid) (n : ℕ) (db db' : Database) (got : List Job)
    → IsKeyed db.jobs
    → fetch_pending e c worker (pos n) db ≡ (db', ok got)
    → length got ≡ min n (count (is_candidate c.locked) db.jobs)
length-fetch_pending e c worker n db db' got keyed ran =
    let rows = picked e c n db in
    omega (
      arith,
      length-picked e c n db keyed,
      count-taken_ge e c n db keyed,
      (fetch_pending_lem e c worker n db db' got keyed ran).3,
      count-true got,
      count-got e c worker n db db' got keyed ran (λ _. true),
      count_congr (λ j. is_in rows j && true) (is_in rows) db'.jobs (λ j. ground arith),
      count-is_in rows db'.jobs (after-IsKeyed e c worker n db db' got keyed ran),
      ap (λ (d : Database). count (is_in rows) d.jobs)
          (fetch_pending_inv e c worker n db db' got ran).0,
      count-update (is_in rows) (is_in rows) (λ j. touch c.now (assign worker j)) db.jobs
          (λ j. refl),
      count_mono (λ j. is_candidate c.locked j && is_in rows j) (is_in rows) db.jobs
          (λ j h. ground arith),
    )
