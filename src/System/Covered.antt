-- ===== src/System/Covered.antt =====
-- The orders of the jobs that are RUNNING, as the other programs change rows and the log grows.
use mathlib.Core.Path.{subst}
use distributed_job_schedule.Prelude.{
  ◌≡◌, refl, inl, inr, true, Option, none, some, List, arith, Option-cases,
}
use distributed_job_schedule.Models.{Uuid, Job}
use distributed_job_schedule.Repository.Database.{Database}
use distributed_job_schedule.Repository.Operations.{Operation}
use distributed_job_schedule.Repository.Operations.Kept.{IsOther}
use distributed_job_schedule.Repository.Operations.Transitions.{
  Transition, stays, cancels, assigns, releases, completes, retries, dies,
}
use distributed_job_schedule.Repository.Operations.Lifecycle.{Moves, Appears}
use distributed_job_schedule.Broker.Messages.{Json}
use distributed_job_schedule.Broker.World.{Env, KafkaRecord}
use distributed_job_schedule.Scheduler.Dispatcher.Delivery.{is_order, is_sent, covers_row}
use distributed_job_schedule.System.Logs.{Grows}

module _ (json : Json) (log : List KafkaRecord) (start : Database) (k0 : Uuid) (rest : List Job)
    (i : Uuid) where
  Transition-covered :
      (o : Operation) (db : Database) (j k : Job)
      → IsOther o
      → Transition o db j k
      → covers_row json log start k0 rest i (some j) ≡ true
      → covers_row json log start k0 rest i (some k) ≡ true
  Transition-covered o db j k other (stays e) h = rw e h
  Transition-covered o db j k other (cancels now f c e) h = ground arith
  Transition-covered o db j k other (assigns now w l called q x a e) h =
      absurd (subst IsOther called other)
  Transition-covered o db j k other (releases now f r e) h = ground arith
  Transition-covered o db j k other (completes now f e) h = ground arith
  Transition-covered o db j k other (retries now limit f b e) h = ground arith
  Transition-covered o db j k other (dies now limit f b e) h = ground arith

  Appears-covered : (o : Option Job) → Appears o → covers_row json log start k0 rest i o ≡ true
  Appears-covered none a = refl
  Appears-covered (some k) a = ground arith

  pub Moves-covered :
      (p : Operation) (db : Database) (o o' : Option Job)
      → IsOther p
      → Moves p db o o'
      → covers_row json log start k0 rest i o ≡ true
      → covers_row json log start k0 rest i o' ≡ true
  Moves-covered p db none o' other m h = Appears-covered o' m
  Moves-covered p db (some j) o' other (k, e, t) h = rw e (Transition-covered p db j k other t h)

module _ (env : Env) (start : Database) (log log' : List KafkaRecord) (grows : Grows log log')
    (k0 : Uuid) (rest : List Job) where
  is_sent-grown : (j : Job) → is_sent env.json log j ≡ true → is_sent env.json log' j ≡ true
  is_sent-grown j h = elim (Option-cases j.worker_id) [
    | inl e ↦ ground arith
    | inr (k, e) ↦ rw e (grows (is_order env.json j.id k) (rw e at h))
  ]

  pub covered-grown :
      (i : Uuid) (o : Option Job)
      → covers_row env.json log start k0 rest i o ≡ true
      → covers_row env.json log' start k0 rest i o ≡ true
  covered-grown i none h = refl
  covered-grown i (some j) h = ground (arith, is_sent-grown j)
