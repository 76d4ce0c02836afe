-- ===== src/Worker.antt =====
-- internal/worker: what a worker does with the records of its topic and with one job.
pub mod Outcome
pub mod Orders
pub mod Pool
pub mod Main
use text.Mathlib.Text.{◌==◌ as str_eq}
use distributed_job_schedule.Prelude.{
  ℕ, String, Bool, true, false, Option, none, some, List, [], ◌∷◌, ◌++◌, ◌==◌, if◌then◌else◌,
}
use distributed_job_schedule.Prelude.Int.{ℤ}
use distributed_job_schedule.Models.{Uuid, Time, Payload, Hundredths}
use distributed_job_schedule.Errors.{Result, ok, err, decode_failure, canceled}
use distributed_job_schedule.Broker.Messages.{
  Json, JobMessage, ResultMessage, HeartbeatMessage, topic_results, topic_heartbeats,
}
use distributed_job_schedule.Broker.World.{World, Env, KafkaRecord}
use distributed_job_schedule.Broker.Producer.{publish}

-- The fields that KafkaJobConsumer sets in a models.Job; a worker reads no other.
pub record Order : Type 0 where
  pub id : Uuid
  pub type : String
  pub payload : Payload
  pub priority : ℤ
  pub attempts : ℕ

abbrev pub order_of : JobMessage → Order
order_of m = record {
  id = m.job_id;
  type = m.type;
  payload = m.payload;
  priority = m.priority;
  attempts = m.attempts;
}

-- The channel takes the order, unless the context is done before it has room.
abbrev pub enqueue : Bool → Order → List Order → List Order × Result (Unit {0})
enqueue true o chan = (chan, err canceled)
enqueue false o chan = (chan ++ o ∷ [], ok tt)

abbrev pub accept : Uuid → Bool → Option JobMessage → List Order → List Order × Result (Unit {0})
accept me done none chan = (chan, err decode_failure)
accept me done (some m) chan =
    if m.worker_id == me then enqueue done (order_of m) chan else (chan, ok tt)

-- `KafkaJobConsumer.handle`; the state is all that was sent to the channel, in order.
unfoldable pub handle :
    Json → Uuid → Bool → KafkaRecord → List Order → List Order × Result (Unit {0})
handle json me done r chan = accept me done (json.decode_job r.value) chan

abbrev pub result_of : Uuid → Order → Bool → String → ResultMessage
result_of me o success error = record {
  job_id = o.id;
  worker_id = me;
  success = success;
  error = error;
  job_type = o.type;
  payload = o.payload;
  attempts = o.attempts;
}

abbrev pub reported : Bool → Result (Unit {0}) → Result String
reported success (err x) = err x
reported true (ok _) = ok "COMPLETED"
reported false (ok _) = ok "REPORTED"

-- `KafkaReporter.ReportResult`
unfoldable pub report_result : Env → Uuid → Order → Bool → String → World → World × Result String
report_result env me o success error w =
    let r =
      publish env topic_results o.id (env.json.encode_result (result_of me o success error)) w in
    (r.0, reported success r.1)

-- `KafkaReporter.SendHeartbeat`
unfoldable pub send_heartbeat :
    Env → Uuid → String → Time → Hundredths → Hundredths → ℤ → World → World × Result (Unit {0})
send_heartbeat env me hostname now cpu memory running_jobs w =
    publish env topic_heartbeats me
      (env.json.encode_heartbeat (record {
        worker_id = me;
        hostname = hostname;
        cpu = cpu;
        memory = memory;
        running_jobs = running_jobs;
        timestamp = now;
      }))
      w

-- `JobRunner.Run`: no error, or the text of one.
abbrev pub Runner : Type 0
Runner = Payload → Option String

-- `Executor.fail`; an error of the reporter is only logged.
abbrev pub fail : Env → Uuid → Order → String → World → World
fail env me o error w = (report_result env me o false error w).0

abbrev pub after_run : Env → Uuid → Order → Option String → World → World
after_run env me o none w = (report_result env me o true "" w).0
after_run env me o (some error) w = fail env me o error w

abbrev pub with_runner : Env → Uuid → Order → Option Runner → World → World
with_runner env me o none w = fail env me o "no runner registered for job type" w
with_runner env me o (some runner) w = after_run env me o (runner o.payload) w

-- `Executor.execute`
unfoldable pub execute : Env → Uuid → (String → Option Runner) → Order → World → World
unfolding report_result
execute env me runners o w = with_runner env me o (runners o.type) w
