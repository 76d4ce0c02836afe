-- ===== src/Repository/Jobs/Create.antt =====
-- What `Create` does.
use distributed_job_schedule.Prelude.{
  ◌≡◌, refl, false, Option, none, some, [], ◌∷◌, ◌++◌, arith, any,
}
use distributed_job_schedule.Models.{Payload, Job}
use distributed_job_schedule.Repository.Database.{Database, Call}
use distributed_job_schedule.Repository.Jobs.{has_id, new_row, insert_job}

-- An insertion that succeeds appended a new row, under a key that was free.
pub insert_job-inv :
    (c : Call) (j : Job) (p : Option Payload) (db db' : Database) (row : Job)
    → insert_job c j p db ≡ some (db', row)
    → (any (has_id j.id) db.jobs ≡ false)
      × (db'.jobs ≡ db.jobs ++ row ∷ [])
      × ((stored : Payload) × (p ≡ some stored) × (row ≡ new_row c j stored))
      × (db' ≡ record db { jobs = db.jobs ++ row ∷ [] })
unfolding insert_job
insert_job-inv c j none db db' row h = cc
insert_job-inv c j (some stored) db db' row h =
    (ground arith, ground arith, (stored, refl, ground arith), ground arith)
