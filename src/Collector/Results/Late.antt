-- ===== src/Collector/Results/Late.antt =====
-- Results that arrive for a job that is no longer running.
use distributed_job_schedule.Prelude.{ℕ, ◌<◌, ◌≡◌, Bool, true, false, Option, none, some, arith}
use distributed_job_schedule.Models.{Job, dead}
use distributed_job_schedule.Errors.{ok}
use distributed_job_schedule.Repository.Database.{Call, reachable}
use distributed_job_schedule.Repository.Jobs.{job_at, touch, is_cancellable, is_pending, cancel}
use distributed_job_schedule.Repository.Jobs.Rows.{IsKeyed, cancel_lem}
use distributed_job_schedule.Broker.Messages.{Bytes, ResultMessage}
use distributed_job_schedule.Broker.World.{World, Env, KafkaRecord}
use distributed_job_schedule.Collector.Results.{handle_result}
use distributed_job_schedule.Collector.Results.Outcome.{handle_result_lem}

abbrev pub is_pending_row : Option Job → Bool
is_pending_row none = false
is_pending_row (some j) = is_pending j.status

-- A failure that is reported for a job of fewer than 3 attempts makes it pending again, even when the
-- job is COMPLETED or DEAD: a result that Kafka delivers a second time, or after a cancellation, is
-- not told apart. (Database and Kafka answer.)
pub handle_result-revives :
    (env : Env) (cached : Bool) (r : KafkaRecord) (m : ResultMessage) (w : World) (j : Job)
    (body : Bytes)
    → ((n : ℕ) → (env.call n).link ≡ reachable)
    → ((n : ℕ) → env.kafka n ≡ reachable)
    → env.json.decode_result r.value ≡ some m
    → env.json.encode_result m ≡ some body
    → m.success ≡ false
    → job_at m.job_id w.db ≡ some j
    → j.attempts < 3
    → is_pending_row (job_at m.job_id (handle_result env cached r w).0.db) ≡ true
handle_result-revives env cached r m w j body up kafka decodes encodes bad there few =
    ground (arith, (handle_result_lem env cached r m w j body up kafka decodes encodes there).1)

-- A cancellation of a job that is pending or running, with fewer than 3 attempts, is undone by the failure
-- that its worker reports later: `Cancel` answers no error and the job is DEAD, and the result
-- makes it pending again. (Database and Kafka answer.)
pub cancel-handle_result :
    (env : Env) (c : Call) (cached : Bool) (r : KafkaRecord) (m : ResultMessage) (w : World)
    (j : Job) (body : Bytes)
    → ((n : ℕ) → (env.call n).link ≡ reachable)
    → ((n : ℕ) → env.kafka n ≡ reachable)
    → c.link ≡ reachable
    → IsKeyed w.db.jobs
    → env.json.decode_result r.value ≡ some m
    → env.json.encode_result m ≡ some body
    → m.success ≡ false
    → job_at m.job_id w.db ≡ some j
    → is_cancellable j.status ≡ true
    → j.attempts < 3
    → let (db', answer) = cancel c m.job_id w.db in
      (answer ≡ ok tt)
      × (job_at m.job_id db' ≡ some (touch c.now (record j { status = dead })))
      × (is_pending_row (job_at m.job_id (handle_result env cached r (record w { db = db' })).0.db)
          ≡ true)
cancel-handle_result env c cached r m w j body up kafka up' keyed decodes encodes bad there can
      few =
    let cancelled = cancel_lem c m.job_id w.db up' keyed in
    let row : job_at m.job_id (cancel c m.job_id w.db).0
        ≡ some (touch c.now (record j { status = dead })) =
      ground (arith, cancelled.1 m.job_id) in
    (
      ground (arith, cancelled.0),
      row,
      handle_result-revives env cached r m (record w { db = (cancel c m.job_id w.db).0 })
          (touch c.now (record j { status = dead })) body up kafka decodes encodes bad row few,
    )
