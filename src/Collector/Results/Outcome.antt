-- ===== src/Collector/Results/Outcome.antt =====
-- What `HandleResult` makes of a result.
use mathlib.Core.List.{append-nil}
use distributed_job_schedule.Prelude.{
  ℕ, ◌+◌, ◌≡◌, refl, ◌∙◌, inl, inr, Bool, true, not, some, List, [], ◌∷◌, ◌++◌, if◌then◌else◌,
  arith, count, select, Bool-cases, leb, ◌&&◌,
}
use distributed_job_schedule.Models.{Uuid, Job, JobStatus, completed, dead, retrying}
use distributed_job_schedule.Errors.{Result, ok}
use distributed_job_schedule.Repository.Database.{Database, Call, reachable}
use distributed_job_schedule.Repository.Jobs.{job_at, touch, verdict, mark_failed, mark_completed}
use distributed_job_schedule.Repository.Jobs.Rows.{mark_failed_lem, mark_completed_lem}
use distributed_job_schedule.Broker.Messages.{Bytes, ResultMessage, topic_dead_letter}
use distributed_job_schedule.Broker.World.{World, Env, KafkaRecord}
use distributed_job_schedule.Broker.Producer.{publish}
use distributed_job_schedule.Collector.Results.{has_key, settle, deferred, handle_result}

forgotten :
    (id : Uuid) (cache : List (Uuid × Bytes))
    → count (has_key id) (select (λ x. not (has_key id x)) cache) ≡ 0
forgotten id [] = refl
forgotten id (x ∷ cache) = ground (arith, forgotten id cache)

-- After any result that can be decoded, and whether or not the rest of the handler fails, a cache
-- that answers holds no state of its job.
pub handle_result-forgets :
    (env : Env) (r : KafkaRecord) (m : ResultMessage) (w : World)
    → ((n : ℕ) → env.redis n ≡ reachable)
    → env.json.decode_result r.value ≡ some m
    → count (has_key m.job_id) (handle_result env true r w).0.cache ≡ 0
unfolding handle_result
handle_result-forgets env r m w up e =
    rw (e, up (settle env m w).0.calls) (forgotten m.job_id (settle env m w).0.cache)

-- What becomes of a job by a result.
abbrev pub settled : ResultMessage → Job → JobStatus
settled m j = if m.success then completed else if leb 3 j.attempts then dead else retrying

abbrev pub dead_letter : Uuid → Bytes → KafkaRecord
dead_letter id body = record { topic = topic_dead_letter; key = id; value = body }

-- The record that a result sends to the dead letters, if its job dies of it.
abbrev pub letters_of : ResultMessage → Job → Bytes → List KafkaRecord
letters_of m j body =
    if not m.success && leb 3 j.attempts then dead_letter m.job_id body ∷ [] else []

mark_completed-answers :
    (c : Call) (id : Uuid) (db : Database) (j : Job)
    → c.link ≡ reachable
    → job_at id db ≡ some j
    → ((mark_completed c id db).1 ≡ ok tt)
      × (job_at id (mark_completed c id db).0
          ≡ some (touch c.now (record j { status = completed })))
mark_completed-answers c id db j up there =
    let l = mark_completed_lem c id db up in (ground (arith, l.0), ground (arith, l.1 id))

mark_failed-answers :
    (c : Call) (id : Uuid) (db : Database) (j : Job)
    → c.link ≡ reachable
    → job_at id db ≡ some j
    → ((mark_failed c id 3 db).1 ≡ ok (verdict 3 j))
      × (job_at id (mark_failed c id 3 db).0
          ≡ some (touch c.now (record j { status = verdict 3 j })))
mark_failed-answers c id db j up there =
    let l = mark_failed_lem c id 3 db up in (ground (arith, l.0), ground (arith, l.1 id))

module _ (env : Env) (m : ResultMessage) (w : World) (j : Job) (body : Bytes)
    (up : (n : ℕ) → (env.call n).link ≡ reachable) (kafka : (n : ℕ) → env.kafka n ≡ reachable)
    (encodes : env.json.encode_result m ≡ some body) (there : job_at m.job_id w.db ≡ some j) where
  settle_lem :
      let (w', r) = settle env m w in
      (r ≡ ok tt)
      × (job_at m.job_id w'.db
          ≡ some (record j { status = settled m j; updated_at = (env.call w.calls).now }))
      × (w'.log ≡ w.log ++ letters_of m j body)
  unfolding settle publish
  settle_lem = elim (Bool-cases m.success) [
    | inl good ↦ ground (
      arith,
      mark_completed-answers (env.call w.calls) m.job_id w.db j (up w.calls) there,
      append-nil w.log,
    )
    | inr bad ↦ ground (
      arith,
      mark_failed-answers (env.call w.calls) m.job_id w.db j (up w.calls) there,
      kafka (w.calls + 1),
      append-nil w.log,
    )
  ]

pub deferred_keeps :
    (env : Env) (cached : Bool) (id : Uuid) (p : World × Result (Unit {0}))
    → ((deferred env cached id p).1 ≡ p.1)
      × ((deferred env cached id p).0.db ≡ p.0.db)
      × ((deferred env cached id p).0.log ≡ p.0.log)
deferred_keeps env cached id p = ground arith

-- A result of a job that is in the table, with a database and a Kafka that answer, with a cache or
-- without, is handled with no error. The job becomes COMPLETED by a success; by a failure it becomes
-- DEAD if it has had 3 attempts or more and RETRYING if fewer. The result is sent to the dead
-- letters, once and under the job's key, exactly if the job becomes DEAD.
pub handle_result_lem :
    (env : Env) (cached : Bool) (r : KafkaRecord) (m : ResultMessage) (w : World) (j : Job)
    (body : Bytes)
    → ((n : ℕ) → (env.call n).link ≡ reachable)
    → ((n : ℕ) → env.kafka n ≡ reachable)
    → env.json.decode_result r.value ≡ some m
    → env.json.encode_result m ≡ some body
    → job_at m.job_id w.db ≡ some j
    → let (w', answer) = handle_result env cached r w in
      (answer ≡ ok tt)
      × (job_at m.job_id w'.db
          ≡ some (record j { status = settled m j; updated_at = (env.call w.calls).now }))
      × (w'.log ≡ w.log ++ letters_of m j body)
unfolding handle_result
handle_result_lem env cached r m w j body up kafka decodes encodes there =
    let kept = deferred_keeps env cached m.job_id (settle env m w) in
    let done = settle_lem env m w j body up kafka encodes there in
    rw decodes (kept.0 ∙ done.0, rw kept.1 done.1, kept.2 ∙ done.2)
