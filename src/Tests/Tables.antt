-- ===== src/Tests/Tables.antt =====
-- The small tables are valid.
use distributed_job_schedule.Prelude.{inl, inr, List, [], ◌∷◌, arith, find, Bool-cases}
use distributed_job_schedule.Models.{Uuid, Job}
use distributed_job_schedule.Repository.Database.{Database}
use distributed_job_schedule.Repository.Jobs.{has_id}
use distributed_job_schedule.Repository.Jobs.Rows.{IsKeyed}
use distributed_job_schedule.Repository.Operations.Validity.{IsSound, IsSoundRow, IsValid}
use distributed_job_schedule.Tests.Instances.{tables, job_low, job_high, job_running}

pub tables-IsKeyed : IsKeyed tables.jobs
tables-IsKeyed i = ground arith

find-IsSound :
    (db : Database) (i : Uuid) (j : Job) (rest : List Job)
    → IsSound db j
    → IsSoundRow db (find (has_id i) rest)
    → IsSoundRow db (find (has_id i) (j ∷ rest))
find-IsSound db i j rest here there = elim (Bool-cases (has_id i j)) [
  | inl e ↦ rw e here
  | inr e ↦ rw e there
]

low-IsSound : IsSound tables job_low
low-IsSound = ground arith

high-IsSound : IsSound tables job_high
high-IsSound = ground arith

running-IsSound : IsSound tables job_running
running-IsSound = ground arith

pub tables-IsValid : IsValid tables
tables-IsValid = record {
  jobs_keyed = tables-IsKeyed;
  jobs_sound = λ i. find-IsSound tables i job_low (job_high ∷ job_running ∷ []) low-IsSound (
      find-IsSound tables i job_high (job_running ∷ []) high-IsSound
        (find-IsSound tables i job_running [] running-IsSound tt));
}
