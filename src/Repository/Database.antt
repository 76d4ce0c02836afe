-- ===== src/Repository/Database.antt =====
-- The tables of migrations/001 to 003 as lists of rows, the row type of
-- internal/repository/dead_letters.go, and the execution of one SQL statement.
use distributed_job_schedule.Prelude.{
  ℕ, String, ◌≡◌, refl, Bool, Option, none, some, List, [], count,
}
use distributed_job_schedule.Prelude.Sorting.{Sorter}
use distributed_job_schedule.Models.{Uuid, Time, Payload, Job, Worker}
use distributed_job_schedule.Errors.{Result, ok, err, db_failure}

-- `status` is a TEXT column without a check.
pub record DeadLetter : Type 0 where
  pub id : Uuid
  pub job_id : Uuid
  pub worker_id : Option Uuid
  pub job_type : String
  pub payload : Payload
  pub attempts : ℕ
  pub error : String
  pub status : String
  pub replayed_at : Option Time
  pub replayed_job_id : Option Uuid
  pub created_at : Time

pub record Database : Type 0 where
  pub jobs : List Job
  pub workers : List Worker
  pub letters : List DeadLetter

abbrev pub no_rows : Database
no_rows = record { jobs = []; workers = []; letters = [] }

-- The connection during one statement. `refused`: the statement failed for a reason outside the
-- model and changed nothing. `lost`: it ran, and its answer was lost.
pub data Link : Type 0 where
  reachable refused lost : Link

-- What the environment decides for one statement: the connection, `now()`, the rows that other
-- transactions have locked, and the UUID that `gen_random_uuid()` draws.
pub record Call : Type 0 where
  pub link : Link
  pub now : Time
  pub locked : List Uuid
  pub fresh : Uuid

-- What the program relies on of PostgreSQL: its sorts, which may let rows that
-- tie fall in another order in each call, the rows that an UPDATE returns, in any order, and the conversion of a JSON text to the column type JSONB, which refuses what is not JSON
-- and normalises the rest.
pub record Engine : Type 0 where
  pub job_sorter : Call → Sorter Job
  pub worker_sorter : Call → Sorter Worker
  pub letter_sorter : Call → Sorter DeadLetter
  pub returning : List Job → List Job
  pub returning-count : (p : Job → Bool) (rows : List Job) → count p (returning rows) ≡ count p rows
  pub jsonb : Payload → Option Payload
  pub jsonb-jsonb : (p q : Payload) → jsonb p ≡ some q → jsonb q ≡ some q

-- A statement changes the tables and returns a value; `none` is an SQL error, which undoes it.
abbrev pub Statement : Type 0 → Type 0
Statement A = Database → Option (Database × A)

-- A query that may fail and changes nothing.
abbrev pub with_db : {A : Type 0} → Database → Option A → Option (Database × A)
with_db db none = none
with_db db (some a) = some (db, a)

abbrev answer : {A : Type 0} → Link → Database → Option (Database × A) → Database × Result A
answer refused db _ = (db, err db_failure)
answer reachable db none = (db, err db_failure)
answer reachable db (some (db', a)) = (db', ok a)
answer lost db none = (db, err db_failure)
answer lost db (some (db', a)) = (db', err db_failure)

-- `Pool.Exec`, `Pool.Query` and `Pool.QueryRow`.
abbrev pub exec : {A : Type 0} → Call → Statement A → Database → Database × Result A
exec c q db = answer c.link db (q db)

-- What holds of the tables as they were, and of those that a statement leaves when it succeeds,
-- holds after it ran over any connection.
pub exec_ind {ℓ} :
    {A : Type 0} (P : Database → Type ℓ) (c : Call) (q : Statement A) (db : Database)
    → P db
    → ((db' : Database) (a : A) → q db ≡ some (db', a) → P db')
    → P (exec c q db).0
exec_ind {A} P c q db before after = go c.link (q db) refl
  where
    go : (l : Link) (r : Option (Database × A)) → q db ≡ r → P (answer l db r).0
    go refused r e = before
    go reachable none e = before
    go reachable (some (db', a)) e = after db' a e
    go lost none e = before
    go lost (some (db', a)) e = after db' a e

-- A statement that cannot fail, over any connection.
pub exec_total {ℓ} :
    {A : Type 0} (P : Database → Type ℓ) (c : Call) (f : Database → Database) (g : Database → A)
    (db : Database)
    → P db
    → P (f db)
    → P (exec c (λ t. some (f t, g t)) db).0
exec_total P c f g db before after = go c.link
  where
    go : (l : Link) → P (answer l db (some (f db, g db))).0
    go refused = before
    go reachable = after
    go lost = after
