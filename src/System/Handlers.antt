-- ===== src/System/Handlers.antt =====
-- What the ticks and the handlers of messages keep of the tables.
use distributed_job_schedule.Prelude.{
  ℕ, ◌≡◌, refl, inl, inr, String, Bool, true, false, Option, none, some, arith, Bool-cases,
}
use distributed_job_schedule.Models.{Uuid, JobStatus}
use distributed_job_schedule.Errors.{Result, ok, err}
use distributed_job_schedule.Repository.Database.{Database}
use distributed_job_schedule.Repository.Jobs
use distributed_job_schedule.Repository.Workers
use distributed_job_schedule.Repository.DeadLetters
use distributed_job_schedule.Repository.Operations.{
  perform, mark_unhealthy, requeue_stale, upsert_heartbeat, mark_completed, mark_failed,
  insert_letter,
}
use distributed_job_schedule.Repository.Operations.Kept.{IsKeptElsewhere}
use distributed_job_schedule.Broker.Messages.{Bytes, ResultMessage, HeartbeatMessage}
use distributed_job_schedule.Broker.World.{World, Env, KafkaRecord, Metrics, query}
use distributed_job_schedule.Broker.Producer.{publish}
use distributed_job_schedule.Scheduler.Monitor
use distributed_job_schedule.Scheduler.Heartbeat
use distributed_job_schedule.Scheduler.Heartbeat.{beat_of, upsert_message}
use distributed_job_schedule.Collector.Results.{
  handle_result, settle, after_failed, and_count, deferred, handle_message, max_attempts,
  count_metric, inc_completed, inc_failed,
}
use distributed_job_schedule.Collector.DeadLetters as Letters
use distributed_job_schedule.Collector.DeadLetters.{letter_of, persist}
use distributed_job_schedule.Worker.{Order, Runner, execute, report_result, send_heartbeat}
use distributed_job_schedule.Worker.Main.{Sample, beat}

publish-db :
    (env : Env) (topic : String) (key : Uuid) (body : Option Bytes) (w : World)
    → (publish env topic key body w).0.db ≡ w.db
unfolding publish
publish-db env topic key body w = ground arith

pub execute-db :
    (env : Env) (me : Uuid) (runners : String → Option Runner) (o : Order) (w : World)
    → (execute env me runners o w).db ≡ w.db
unfolding execute report_result publish
execute-db env me runners o w = ground arith

pub beat-db :
    (env : Env) (me : Uuid) (hostname : String) (x : Sample) (w : World)
    → (beat env me hostname x w).db ≡ w.db
unfolding beat send_heartbeat publish
beat-db env me hostname x w = ground arith

module _ (env : Env) (P : Database → Type 0) (kept : IsKeptElsewhere env.engine P) where
  after_mark_kept : (w : World) (r : Result ℕ) → P w.db → P (Monitor.after_mark env (w, r)).0.db
  unfolding perform
  after_mark_kept w (err x) v = v
  after_mark_kept w (ok n) v =
      kept (env.call w.calls) (requeue_stale Monitor.stale_seconds) w.db tt v

  pub monitor_kept : (w : World) → P w.db → P (Monitor.tick env w).0.db
  unfolding Monitor.tick perform
  monitor_kept w v =
      let r = query env (λ c. Workers.mark_unhealthy c Monitor.stale_seconds) w in
      after_mark_kept r.0 r.1
        (kept (env.call w.calls) (mark_unhealthy Monitor.stale_seconds) w.db tt v)

  upsert_message_kept :
      (o : Option HeartbeatMessage) (w : World) → P w.db → P (upsert_message env o w).0.db
  unfolding perform
  upsert_message_kept none w v = v
  upsert_message_kept (some m) w v =
      kept (env.call w.calls) (upsert_heartbeat m.worker_id (beat_of m)) w.db tt v

  pub heartbeat_kept : (r : KafkaRecord) (w : World) → P w.db → P (Heartbeat.handle env r w).0.db
  unfolding Heartbeat.handle
  heartbeat_kept r w = upsert_message_kept (env.json.decode_heartbeat r.value) w

  and_count_kept :
      (f : Metrics → Metrics) (w : World) (r : Result (Unit {0}))
      → P w.db
      → P (and_count f (w, r)).0.db
  and_count_kept f w (ok u) v = v
  and_count_kept f w (err x) v = v

  after_failed_kept :
      (m : ResultMessage) (w : World) (r : Result JobStatus)
      → P w.db
      → P (after_failed env m (w, r)).0.db
  unfolding publish
  after_failed_kept m w (err x) v = v
  after_failed_kept m w (ok status) v = ground arith

  settle_kept : (m : ResultMessage) (w : World) → P w.db → P (settle env m w).0.db
  unfolding settle perform
  settle_kept m w v = elim (Bool-cases m.success) [
    | inl good ↦
        let r = query env (λ c. Jobs.mark_completed c m.job_id) w in
        simp good (
          and_count_kept inc_completed r.0 r.1
            (kept (env.call w.calls) (mark_completed m.job_id) w.db tt v))
    | inr bad ↦
        let r =
          query env (λ c. Jobs.mark_failed c m.job_id max_attempts) (count_metric inc_failed w) in
        simp bad (
          after_failed_kept m r.0 r.1
            (kept (env.call w.calls) (mark_failed m.job_id max_attempts) w.db refl v))
  ]

  deferred_kept :
      (cached : Bool) (id : Uuid) (r : World × Result (Unit {0}))
      → P r.0.db
      → P (deferred env cached id r).0.db
  deferred_kept false id r v = v
  deferred_kept true id r v = ground arith

  handle_message_kept :
      (cached : Bool) (o : Option ResultMessage) (w : World)
      → P w.db
      → P (handle_message env cached o w).0.db
  handle_message_kept cached none w v = v
  handle_message_kept cached (some m) w v =
      deferred_kept cached m.job_id (settle env m w) (settle_kept m w v)

  pub result_kept :
      (cached : Bool) (r : KafkaRecord) (w : World) → P w.db → P (handle_result env cached r w).0.db
  unfolding handle_result
  result_kept cached r w = handle_message_kept cached (env.json.decode_result r.value) w

  persist_kept : (o : Option ResultMessage) (w : World) → P w.db → P (persist env o w).0.db
  unfolding perform
  persist_kept none w v = v
  persist_kept (some m) w v =
      let r = query env (λ c. DeadLetters.insert env.engine c (letter_of m)) w in
      and_count_kept Letters.inc_persisted r.0 r.1
        (kept (env.call w.calls) (insert_letter (letter_of m)) w.db tt v)

  pub letter_kept : (r : KafkaRecord) (w : World) → P w.db → P (Letters.handle env r w).0.db
  unfolding Letters.handle
  letter_kept r w = persist_kept (env.json.decode_result r.value) w
