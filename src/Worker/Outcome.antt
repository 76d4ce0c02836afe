-- ===== src/Worker/Outcome.antt =====
-- What becomes of a job that a worker has run.
use distributed_job_schedule.Prelude.{
  ℕ, ◌+◌, ◌≡◌, refl, inl, inr, String, Bool, true, false, Option, none, some, [], ◌∷◌, ◌++◌,
  if◌then◌else◌, arith, Option-cases,
}
use distributed_job_schedule.Models.{Uuid, Job, JobStatus, completed}
use distributed_job_schedule.Errors.{ok}
use distributed_job_schedule.Repository.Database.{reachable}
use distributed_job_schedule.Repository.Jobs.{job_at, touch, verdict}
use distributed_job_schedule.Broker.Messages.{Bytes, ResultMessage, topic_results}
use distributed_job_schedule.Broker.World.{World, Env, KafkaRecord}
use distributed_job_schedule.Broker.Producer.{publish}
use distributed_job_schedule.Collector.Results.{handle_result}
use distributed_job_schedule.Collector.Results.Outcome.{handle_result_lem}
use distributed_job_schedule.Worker.{Order, Runner, result_of, report_result, execute}

abbrev pub error_of_runner : Order → Option Runner → Option String
error_of_runner o none = some "no runner registered for job type"
error_of_runner o (some runner) = runner o.payload

-- The error of a run, if there is one.
abbrev pub error_of : (String → Option Runner) → Order → Option String
error_of runners o = error_of_runner o (runners o.type)

abbrev pub succeeded : Option String → Bool
succeeded none = true
succeeded (some error) = false

abbrev pub text_of : Option String → String
text_of none = ""
text_of (some error) = error

-- The message that reports a run.
abbrev pub report : Uuid → Order → Option String → ResultMessage
report me o x = result_of me o (succeeded x) (text_of x)

abbrev pub result_record : Uuid → Bytes → KafkaRecord
result_record id body = record { topic = topic_results; key = id; value = body }

abbrev pub status_after : Option String → Job → JobStatus
status_after x j = if succeeded x then completed else verdict 3 j

pub execute-log :
    (env : Env) (me : Uuid) (runners : String → Option Runner) (o : Order) (w : World)
    (body : Bytes)
    → env.kafka w.calls ≡ reachable
    → env.json.encode_result (report me o (error_of runners o)) ≡ some body
    → execute env me runners o w
      ≡ record w { log = w.log ++ result_record o.id body ∷ []; calls = w.calls + 1 }
unfolding execute report_result publish
execute-log env me runners o w body kafka encodes = elim (Option-cases (runners o.type)) [
  | inl e ↦ ground arith
  | inr (runner, e) ↦ elim (Option-cases (runner o.payload)) [
    | inl f ↦ ground arith
    | inr (error, f) ↦ ground arith
  ]
]

-- The way of a job through worker and collector, with a database and a Kafka that answer: running an
-- order sends one record, and when the collector takes it, the job becomes COMPLETED if its runner
-- returned no error, and otherwise, also if no runner is registered for its type, DEAD from the third
-- attempt on and RETRYING before. The result as sent and as received can be encoded.
pub execute-handle_result :
    (env : Env) (cached : Bool) (me : Uuid) (runners : String → Option Runner) (o : Order)
    (w : World) (j : Job) (body body' : Bytes)
    → ((n : ℕ) → (env.call n).link ≡ reachable)
    → ((n : ℕ) → env.kafka n ≡ reachable)
    → env.json.encode_result (report me o (error_of runners o)) ≡ some body
    → env.json.encode_result
        (report me (record o { payload = env.json.compact o.payload }) (error_of runners o))
      ≡ some body'
    → job_at o.id w.db ≡ some j
    → let sent = execute env me runners o w in
      let (w', answer) = handle_result env cached (result_record o.id body) sent in
      (sent.log ≡ w.log ++ result_record o.id body ∷ [])
      × (answer ≡ ok tt)
      × (job_at o.id w'.db
          ≡ some (
              touch
                (env.call (w.calls + 1)).now
                (record j { status = status_after (error_of runners o) j })))
execute-handle_result env cached me runners o w j body body' up kafka encodes encodes' there =
    let x = error_of runners o in
    let o' = record o { payload = env.json.compact o.payload } in
    let sent = record w { log = w.log ++ result_record o.id body ∷ []; calls = w.calls + 1 } in
    let kept =
      handle_result_lem env cached (result_record o.id body) (report me o' x) sent j body' up kafka
        (env.json.decode-encode_result (report me o x) body encodes) encodes' there in
    rw (execute-log env me runners o w body (kafka w.calls) encodes) (refl, kept.0, kept.1)
