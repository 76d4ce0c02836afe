-- ===== src/Repository/Operations/Kept.antt =====
-- Properties of the tables that every call of a repository by one of the programs keeps.
use distributed_job_schedule.Repository.Database.{Database, Engine, Call}
use distributed_job_schedule.Prelude.{◌≡◌}
use distributed_job_schedule.Repository.Operations.{Operation, fetch_pending, mark_failed, perform}
use distributed_job_schedule.Collector.Results.{max_attempts}

-- What the programs call: the limit of `MarkFailed` is `maxAttempts` of the result collector.
abbrev pub IsUsed : Operation → Type 0
IsUsed (mark_failed id limit) = limit ≡ max_attempts
IsUsed _ = Unit

abbrev pub IsKept : Engine → (Database → Type 0) → Type 0
IsKept e P = (c : Call) (o : Operation) (db : Database) → IsUsed o → P db → P (perform e c o db)

-- What the programs call, the dispatcher's `FetchPending` apart.
abbrev pub IsOther : Operation → Type 0
IsOther (fetch_pending worker limit) = ⊥
IsOther o = IsUsed o

abbrev pub IsKeptElsewhere : Engine → (Database → Type 0) → Type 0
IsKeptElsewhere e P =
    (c : Call) (o : Operation) (db : Database) → IsOther o → P db → P (perform e c o db)

other-IsUsed : (o : Operation) → IsOther o → IsUsed o
other-IsUsed (fetch_pending worker limit) h = tt
other-IsUsed (mark_failed id limit) h = h
other-IsUsed _ h = h

pub kept_elsewhere : (e : Engine) (P : Database → Type 0) → IsKept e P → IsKeptElsewhere e P
kept_elsewhere e P kept c o db h = kept c o db (other-IsUsed o h)
