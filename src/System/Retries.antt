-- ===== src/System/Retries.antt =====
-- How many attempts a job that is to be retried has had.
use mathlib.Core.Path.{subst}
use distributed_job_schedule.Prelude.{ℕ, ◌≡◌, ◌<◌, Option, some, none, arith}
use distributed_job_schedule.Models.{Uuid, Job, retrying}
use distributed_job_schedule.Repository.Database.{Database, no_rows}
use distributed_job_schedule.Repository.Jobs.{job_at}
use distributed_job_schedule.Repository.Operations.{Operation, mark_failed, perform}
use distributed_job_schedule.Repository.Operations.Kept.{IsKept, IsUsed}
use distributed_job_schedule.Repository.Operations.Transitions.{
  Transition, stays, cancels, assigns, releases, completes, retries, dies,
}
use distributed_job_schedule.Repository.Operations.Lifecycle.{Moves, perform-Moves}
use distributed_job_schedule.Repository.Operations.Validity.{
  IsValid, no_rows-IsValid, perform-IsValid,
}
use distributed_job_schedule.Broker.World.{World, Env}
use distributed_job_schedule.Collector.Results.{max_attempts}
use distributed_job_schedule.System.{Reaches}
use distributed_job_schedule.System.Tables.{run_kept}

-- A row that is RETRYING has had fewer attempts than the limit.
abbrev IsBounded : Option Job → Type 0
IsBounded none = Unit
IsBounded (some j) = j.status ≡ retrying → j.attempts < max_attempts

limit_used :
    (o : Operation) (id : Uuid) (limit : ℕ)
    → o ≡ mark_failed id limit
    → IsUsed o
    → limit ≡ max_attempts
limit_used o id limit e used = subst IsUsed e used

Transition-IsBounded :
    (o : Operation) (db : Database) (j k : Job)
    → Transition o db j k
    → IsUsed o
    → IsBounded (some j)
    → IsBounded (some k)
Transition-IsBounded o db j k (stays e) used b h = ground (arith, b)
Transition-IsBounded o db j k (cancels now f c e) used b h = ground arith
Transition-IsBounded o db j k (assigns now w l p q x a e) used b h = ground arith
Transition-IsBounded o db j k (releases now f r e) used b h = ground arith
Transition-IsBounded o db j k (completes now f e) used b h = ground arith
Transition-IsBounded o db j k (retries now limit f x e) used b h =
    ground (arith, limit_used o j.id limit f used)
Transition-IsBounded o db j k (dies now limit f x e) used b h =
    ground (arith, limit_used o j.id limit f used)

Moves-IsBounded :
    (p : Operation) (db : Database) (o o' : Option Job)
    → Moves p db o o'
    → IsUsed p
    → IsBounded o
    → IsBounded o'
Moves-IsBounded p db none none m used b = tt
Moves-IsBounded p db none (some k) m used b = λ h. ground arith
Moves-IsBounded p db (some j) o' (k, e, t) used b = rw e (Transition-IsBounded p db j k t used b)

abbrev IsBoundedAt : Uuid → Database → Type 0
IsBoundedAt i db = IsValid db × IsBounded (job_at i db)

bounded_kept : (env : Env) (i : Uuid) → IsKept env.engine (IsBoundedAt i)
bounded_kept env i c o db used (v, b) = (
  perform-IsValid env.engine c o db v,
  Moves-IsBounded o db (job_at i db) (job_at i (perform env.engine c o db))
      (perform-Moves env.engine c o db i v.jobs_keyed) used b,
)

-- From empty tables, whatever the programs do and however often a worker falls silent or a result comes
-- twice, a job that is RETRYING has had fewer than 3 attempts.
pub Reaches-retrying :
    (env : Env) (w w' : World) (i : Uuid) (j : Job)
    → w.db ≡ no_rows
    → Reaches env w w'
    → job_at i w'.db ≡ some j
    → j.status ≡ retrying
    → j.attempts < 3
Reaches-retrying env w w' i j empty r there again =
    let (v, b) =
      run_kept env (IsBoundedAt i) (bounded_kept env i) w w' r (rw empty (no_rows-IsValid, tt)) in
    subst IsBounded there b again
