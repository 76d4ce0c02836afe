-- ===== src/Repository/Jobs/Single.antt =====
-- `FetchPending` on a table with one row that it can pick, the last one.
use native.Mathlib.Decide.{ℕ_discrete}
use text.Mathlib.Text.{◌==◌ as str_eq}
use text.Mathlib.TextEquality.{eq_iff}
use distributed_job_schedule.Prelude.{
  some, find-append_none, count-none-find, any-count, find, ◌∙◌, ℕ, zero, suc, ◌≡◌, refl, ap, inl,
  inr, String, Bool, true, false, List, [], ◌∷◌, ◌++◌, leb, arith, count, select, update, any, take,
  Bool-cases,
}
use distributed_job_schedule.Prelude.Int.{pos}
use distributed_job_schedule.Models.{Uuid, Job}
use distributed_job_schedule.Errors.{ok}
use distributed_job_schedule.Repository.Database.{Database, Engine, Call, reachable}
use distributed_job_schedule.Repository.Jobs.{
  has_id, touch, is_candidate, before, picked, is_in, assign, max_int4, worker_exists,
  fetch_pending,
}

string_discrete : Discrete String
string_discrete s t = elim (Bool-cases (str_eq s t)) [
  | inl e ↦ yes ((eq_iff s t).0 e)
  | inr e ↦ no (λ same. absurd (ground (arith, (eq_iff s t).1 same)))
]

job_discrete : Discrete Job
job_discrete = hlevel (ℕ_discrete, string_discrete)

abbrev decides : {P : Type 0} → Dec P → Bool
decides (yes p) = true
decides (no n) = false

decides_yes : {P : Type 0} (d : Dec P) → P → decides d ≡ true
decides_yes (yes p) q = refl
decides_yes (no n) q = absurd (n q)

of_decides : {P : Type 0} (d : Dec P) → decides d ≡ true → P
of_decides (yes p) h = p
of_decides (no n) h = cc

module _ {A : Type 0} where
  select-last :
      (p : A → Bool) (xs : List A) (x : A)
      → any p xs ≡ false
      → p x ≡ true
      → select p (xs ++ x ∷ []) ≡ x ∷ []
  select-last p [] x none_before h = rw h refl
  select-last p (y ∷ xs) x none_before h = ground (arith, select-last p xs x)

  pub update-last :
      (p : A → Bool) (f : A → A) (xs : List A) (x : A)
      → any p xs ≡ false
      → p x ≡ true
      → update p f (xs ++ x ∷ []) ≡ xs ++ f x ∷ []
  update-last p f [] x none_before h = rw h refl
  update-last p f (y ∷ xs) x none_before h = ground (arith, update-last p f xs x)

  -- A list in which every test counts what it counts in a list of one element.
  counted_one :
      (d : Discrete A) (ys : List A) (x : A)
      → ((p : A → Bool) → count p ys ≡ count p (x ∷ []))
      → ys ≡ x ∷ []
  counted_one d [] x h = absurd (omega (arith, h (λ _. true)))
  counted_one d (y ∷ []) x h =
      let e : decides (d y x) ≡ true =
        ground (arith, h (λ z. decides (d z x)), decides_yes (d x x) refl) in
      ap (λ z. z ∷ []) (of_decides (d y x) e)
  counted_one d (y ∷ z ∷ ys) x h = absurd (omega (arith, h (λ _. true)))

not_in :
    (row : Job) (jobs : List Job)
    → any (has_id row.id) jobs ≡ false
    → any (is_in (row ∷ [])) jobs ≡ false
not_in row [] h = refl
not_in row (j ∷ jobs) h = ground (arith, not_in row jobs)

is_in_own : (row j : Job) → j.id ≡ row.id → is_in (row ∷ []) j ≡ true
is_in_own row j same = ground arith

pub job_at-appended :
    (fresh : Uuid) (rows : List Job) (row : Job)
    → row.id ≡ fresh
    → any (has_id fresh) rows ≡ false
    → find (has_id fresh) (rows ++ row ∷ []) ≡ some row
job_at-appended fresh rows row same free =
    find-append_none (has_id fresh) rows (row ∷ [])
      (count-none-find (has_id fresh) rows (any-count (has_id fresh) rows free))
    ∙ ground arith

module _ (e : Engine) (c : Call) (jobs : List Job) (row : Job) (db : Database)
    (others : any (is_candidate c.locked) jobs ≡ false) (own : is_candidate c.locked row ≡ true)
    (there : db.jobs ≡ jobs ++ row ∷ []) where
  picked-last : (n : ℕ) → picked e c (suc n) db ≡ row ∷ []
  unfolding picked
  picked-last n = rw there (
      rw (select-last (is_candidate c.locked) jobs row others own) (
        rw
          (counted_one job_discrete ((e.job_sorter c).sort before (row ∷ [])) row
            (λ p. (e.job_sorter c).sort-count before p (row ∷ [])))
          (take-one n)))
    where
      take-one : (n : ℕ) → take (suc n) (row ∷ []) ≡ row ∷ []
      take-one zero = refl
      take-one (suc n) = refl

  -- It is assigned, whatever the limit, if the worker is in its table and its counter does not overflow.
  pub fetch_pending-last :
      (worker : Uuid) (n : ℕ)
      → c.link ≡ reachable
      → any (has_id row.id) jobs ≡ false
      → worker_exists worker db ≡ true
      → leb max_int4 row.attempts ≡ false
      → let row' = touch c.now (assign worker row) in
        fetch_pending e c worker (pos (suc n)) db
        ≡ (record db { jobs = jobs ++ row' ∷ [] }, ok (row' ∷ []))
  unfolding fetch_pending
  fetch_pending-last worker n up free known fits =
      let row' = touch c.now (assign worker row) in
      rw (picked-last n, known, fits, up)
        (rw there (
          rw
            (update-last (is_in (row ∷ [])) (λ j. touch c.now (assign worker j)) jobs row
              (not_in row jobs free) (is_in_own row row refl))
            (rw
              (select-last (is_in (row ∷ [])) jobs row' (not_in row jobs free)
                (is_in_own row row' refl))
              (rw
                (counted_one job_discrete (e.returning (row' ∷ [])) row'
                  (λ p. e.returning-count p (row' ∷ [])))
                refl))))
