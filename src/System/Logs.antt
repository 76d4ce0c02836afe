-- ===== src/System/Logs.antt =====
-- Kafka's log under the handlers of messages and the workers.
use distributed_job_schedule.Prelude.{
  ◌≡◌, inl, inr, String, Bool, true, Option, none, some, List, [], ◌∷◌, arith, any, Bool-cases,
  Option-cases,
}
use distributed_job_schedule.Models.{Uuid, JobStatus, dead, same_job_status}
use distributed_job_schedule.Repository.Jobs.{mark_completed, mark_failed}
use distributed_job_schedule.Errors.{Result, ok, err}
use distributed_job_schedule.Broker.Messages.{topic_dead_letter, Bytes, ResultMessage}
use distributed_job_schedule.Broker.World.{World, Env, KafkaRecord, Metrics, query}
use distributed_job_schedule.Broker.Producer.{publish}
use distributed_job_schedule.Scheduler.Dispatcher.Delivery.{any-append}
use distributed_job_schedule.Scheduler.Monitor
use distributed_job_schedule.Scheduler.Heartbeat
use distributed_job_schedule.Collector.Results.{
  inc_dead, inc_completed, inc_failed, count_metric, max_attempts, handle_result, settle,
  after_failed, and_count, deferred, handle_message,
}
use distributed_job_schedule.Collector.DeadLetters as Letters
use distributed_job_schedule.Worker.{Order, Runner, execute, report_result, send_heartbeat}
use distributed_job_schedule.Worker.Main.{Sample, beat}

abbrev pub Grows : List KafkaRecord → List KafkaRecord → Type 0
Grows log log' = (p : KafkaRecord → Bool) → any p log ≡ true → any p log' ≡ true

pub publish-Grows :
    (env : Env) (topic : String) (key : Uuid) (body : Option Bytes) (w : World)
    → Grows w.log (publish env topic key body w).0.log
unfolding publish
publish-Grows env topic key none w p h = ground arith
publish-Grows env topic key (some b) w p h =
    ground (arith, any-append p w.log (record { topic = topic; key = key; value = b } ∷ []))

pub monitor-log : (env : Env) (w : World) → (Monitor.tick env w).0.log ≡ w.log
unfolding Monitor.tick
monitor-log env w = ground arith

pub heartbeat-log :
    (env : Env) (r : KafkaRecord) (w : World) → (Heartbeat.handle env r w).0.log ≡ w.log
unfolding Heartbeat.handle
heartbeat-log env r w = ground arith

pub letter-log : (env : Env) (r : KafkaRecord) (w : World) → (Letters.handle env r w).0.log ≡ w.log
unfolding Letters.handle
letter-log env r w = ground arith

pub execute-Grows :
    (env : Env) (me : Uuid) (runners : String → Option Runner) (o : Order) (w : World)
    → Grows w.log (execute env me runners o w).log
unfolding execute report_result
execute-Grows env me runners o w p h = elim (Option-cases (runners o.type)) [
  | inl e ↦ rw e (publish-Grows env _ o.id _ w p h)
  | inr (runner, e) ↦ elim (Option-cases (runner o.payload)) [
    | inl f ↦ rw (e, f) (publish-Grows env _ o.id _ w p h)
    | inr (error, f) ↦ rw (e, f) (publish-Grows env _ o.id _ w p h)
  ]
]

pub beat-Grows :
    (env : Env) (me : Uuid) (hostname : String) (x : Sample) (w : World)
    → Grows w.log (beat env me hostname x w).log
unfolding beat send_heartbeat
beat-Grows env me hostname x w = publish-Grows env _ me _ w

and_count-log :
    (f : Metrics → Metrics) (r : World × Result (Unit {0})) → (and_count f r).0.log ≡ r.0.log
and_count-log f r = ground arith

after_failed-Grows :
    (env : Env) (m : ResultMessage) (w : World) (r : Result JobStatus)
    → Grows w.log (after_failed env m (w, r)).0.log
after_failed-Grows env m w (err x) p h = h
after_failed-Grows env m w (ok status) p h = elim (Bool-cases (same_job_status status dead)) [
  | inl e ↦
      let sent = publish env topic_dead_letter m.job_id (env.json.encode_result m) w in
      rw (e, and_count-log inc_dead sent)
        (publish-Grows env topic_dead_letter m.job_id (env.json.encode_result m) w p h)
  | inr e ↦ rw e h
]

settle-Grows : (env : Env) (m : ResultMessage) (w : World) → Grows w.log (settle env m w).0.log
unfolding settle
settle-Grows env m w p h = elim (Bool-cases m.success) [
  | inl good ↦
      simp (good, and_count-log inc_completed (query env (λ c. mark_completed c m.job_id) w)) h
  | inr bad ↦
      let r = query env (λ c. mark_failed c m.job_id max_attempts) (count_metric inc_failed w) in
      simp bad (after_failed-Grows env m r.0 r.1 p h)
]

deferred-log :
    (env : Env) (cached : Bool) (id : Uuid) (r : World × Result (Unit {0}))
    → (deferred env cached id r).0.log ≡ r.0.log
deferred-log env cached id r = ground arith

handle_message-Grows :
    (env : Env) (cached : Bool) (o : Option ResultMessage) (w : World)
    → Grows w.log (handle_message env cached o w).0.log
handle_message-Grows env cached none w p h = h
handle_message-Grows env cached (some m) w p h =
    rw (deferred-log env cached m.job_id (settle env m w)) (settle-Grows env m w p h)

pub result-Grows :
    (env : Env) (cached : Bool) (r : KafkaRecord) (w : World)
    → Grows w.log (handle_result env cached r w).0.log
unfolding handle_result
result-Grows env cached r w = handle_message-Grows env cached (env.json.decode_result r.value) w
