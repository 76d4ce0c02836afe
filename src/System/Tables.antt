-- ===== src/System/Tables.antt =====
-- What the programs together make of the tables.
use distributed_job_schedule.Prelude.{
  ◌≡◌, refl, ◌≤◌, sym, ap, ◌∙◌, List, [], ◌∷◌, ◌++◌, Option, some, none, arith,
}
use distributed_job_schedule.Repository.Database.{Database, Engine, Call, no_rows}
use distributed_job_schedule.Repository.Operations.{Operation, perform, history}
use distributed_job_schedule.Repository.Operations.Transitions.{
  Transition, stays, cancels, assigns, releases, completes, retries, dies,
}
use distributed_job_schedule.Repository.Operations.Lifecycle.{Moves, perform-Moves}
use distributed_job_schedule.Models.{Uuid, Job}
use distributed_job_schedule.Repository.Jobs.{job_at}
use distributed_job_schedule.Repository.Operations.Kept.{IsKept, IsKeptElsewhere, kept_elsewhere}
use distributed_job_schedule.Repository.Operations.Validity.{
  IsValid, no_rows-IsValid, perform-IsValid,
}
use distributed_job_schedule.Broker.World.{World, Env}
use distributed_job_schedule.Scheduler.Dispatcher.Kept.{tick_kept}
use distributed_job_schedule.Scheduler.Dispatcher.Validity.{IsValid-kept}
use distributed_job_schedule.System.{
  Step, dispatches, monitors, hears, collects, keeps_letter, executes, beats, answers, Reaches,
  here, step,
}
use distributed_job_schedule.System.Handlers.{
  monitor_kept, heartbeat_kept, result_kept, letter_kept, execute-db, beat-db,
}
use distributed_job_schedule.System.Requests.{handle_request_kept}

module _ (env : Env) (P : Database → Type 0) (kept : IsKept env.engine P) where
  others : IsKeptElsewhere env.engine P
  others = kept_elsewhere env.engine P kept

  step_kept : (w w' : World) → Step env w w' → P w.db → P w'.db
  step_kept w w' dispatches v = tick_kept env P kept w v
  step_kept w w' monitors v = monitor_kept env P others w v
  step_kept w w' (hears r) v = heartbeat_kept env P others r w v
  step_kept w w' (collects cached r) v = result_kept env P others cached r w v
  step_kept w w' (keeps_letter r) v = letter_kept env P others r w v
  step_kept w w' (executes me runners o) v = rw (execute-db env me runners o w) v
  step_kept w w' (beats me hostname x) v = rw (beat-db env me hostname x w) v
  step_kept w w' (answers s q) v = handle_request_kept env P others s q w v

  pub run_kept : (w w' : World) → Reaches env w w' → P w.db → P w'.db
  run_kept w w' here v = v
  run_kept w w' (step u u' before next) v = step_kept u w' next (run_kept w u before v)

-- The abstract view of the programs: some calls of the repositories, one after another.
abbrev pub IsHistory : Engine → Database → Database → Type 0
IsHistory e db db' = (h : List (Call × Operation)) × (db' ≡ history e h db)

history-append :
    (e : Engine) (h : List (Call × Operation)) (c : Call) (o : Operation) (db : Database)
    → history e (h ++ (c, o) ∷ []) db ≡ perform e c o (history e h db)
unfolding history
history-append e [] c o db = refl
history-append e ((c', o') ∷ h) c o db = history-append e h c o (perform e c' o' db)

longer : (e : Engine) (db : Database) → IsKept e (IsHistory e db)
longer e db c o db' used (h, same) =
    (h ++ (c, o) ∷ [], ap (perform e c o) same ∙ sym (history-append e h c o db))

-- Whatever the programs do, in any order, over any connections and on whatever messages and requests,
-- changes the tables as calls of the repositories do, one after another: nothing else writes to them.
pub Reaches-IsHistory :
    (env : Env) (w w' : World) → Reaches env w w' → IsHistory env.engine w.db w'.db
unfolding history
Reaches-IsHistory env w w' r =
    run_kept env (IsHistory env.engine w.db) (longer env.engine w.db) w w' r ([], refl)

-- From empty tables all the programs together only reach valid tables: distinct primary keys, and
-- every job sound.
pub Reaches-IsValid : (env : Env) (w w' : World) → w.db ≡ no_rows → Reaches env w w' → IsValid w'.db
Reaches-IsValid env w w' empty r =
    run_kept env IsValid (IsValid-kept env) w w' r (rw empty no_rows-IsValid)

-- What no program changes of a job that is there: it stays, with its content; and its attempts.
abbrev pub IsLater : Job → Option Job → Type 0
IsLater j none = ⊥
IsLater j (some k) =
    (k.id ≡ j.id)
    × (k.type ≡ j.type)
    × (k.payload ≡ j.payload)
    × (k.priority ≡ j.priority)
    × (k.created_at ≡ j.created_at)
    × (j.attempts ≤ k.attempts)

Transition-IsLater :
    (o : Operation) (db : Database) (j k m : Job)
    → Transition o db k m
    → IsLater j (some k)
    → IsLater j (some m)
Transition-IsLater p db j k m (stays e) h = ground arith
Transition-IsLater p db j k m (cancels now f c e) h = ground arith
Transition-IsLater p db j k m (assigns now w l o q x a e) h = ground arith
Transition-IsLater p db j k m (releases now f r e) h = ground arith
Transition-IsLater p db j k m (completes now f e) h = ground arith
Transition-IsLater p db j k m (retries now limit f b e) h = ground arith
Transition-IsLater p db j k m (dies now limit f b e) h = ground arith

Moves-IsLater :
    (p : Operation) (db : Database) (j : Job) (o o' : Option Job)
    → Moves p db o o'
    → IsLater j o
    → IsLater j o'
Moves-IsLater p db j none o' m h = elim h [ ]
Moves-IsLater p db j (some k) o' (m, e, t) h = rw e (Transition-IsLater p db j k m t h)

abbrev StaysLater : Uuid → Job → Database → Type 0
StaysLater i j db = IsValid db × IsLater j (job_at i db)

later_kept : (env : Env) (i : Uuid) (j : Job) → IsKept env.engine (StaysLater i j)
later_kept env i j c o db used (v, h) = (
  perform-IsValid env.engine c o db v,
  Moves-IsLater o db j (job_at i db) (job_at i (perform env.engine c o db))
      (perform-Moves env.engine c o db i v.jobs_keyed) h,
)

-- A job that is in valid tables is there for good, whatever the programs do from there on: with the same
-- type, payload, priority and time of creation, and never with fewer attempts.
pub Reaches-IsLater :
    (env : Env) (w w' : World) (i : Uuid) (j : Job)
    → IsValid w.db
    → job_at i w.db ≡ some j
    → Reaches env w w'
    → IsLater j (job_at i w'.db)
Reaches-IsLater env w w' i j v there r =
    (run_kept env (StaysLater i j) (later_kept env i j) w w' r
      (v, rw there (refl, refl, refl, refl, refl, omega arith))).1
