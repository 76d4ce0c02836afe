-- ===== src/Collector/DeadLetters/Persisted.antt =====
-- What `Handle` keeps of a result that was sent to the dead letters.
use distributed_job_schedule.Prelude.{◌≡◌, false, some, arith, any}
use distributed_job_schedule.Models.{Payload}
use distributed_job_schedule.Errors.{ok}
use distributed_job_schedule.Repository.Database.{reachable}
use distributed_job_schedule.Repository.DeadLetters.{has_letter_id, letter_at, new_letter}
use distributed_job_schedule.Repository.DeadLetters.Rows.{insert_lem}
use distributed_job_schedule.Broker.Messages.{Bytes, ResultMessage}
use distributed_job_schedule.Broker.World.{World, Env}
use distributed_job_schedule.Collector.Results.Outcome.{dead_letter}
use distributed_job_schedule.Collector.DeadLetters.{handle, letter_of, or_object, inc_persisted}

-- A result that the collector sent to the dead letters is kept: with a database that answers and a
-- fresh primary key, `Handle` of the record that was published answers no error, counts it, and
-- stores an OPEN dead letter of the same job, worker, type, attempts and error, whose payload is that
-- of the result as JSON passes it on, or `{}` if it is empty.
pub handle-dead_letter :
    (env : Env) (m : ResultMessage) (body : Bytes) (stored : Payload) (w : World)
    → (env.call w.calls).link ≡ reachable
    → env.json.encode_result m ≡ some body
    → env.engine.jsonb (or_object (env.json.compact m.payload)) ≡ some stored
    → any (has_letter_id (env.call w.calls).fresh) w.db.letters ≡ false
    → let c = env.call w.calls in
      let (w', r) = handle env (dead_letter m.job_id body) w in
      (r ≡ ok tt)
      × (letter_at c.fresh w'.db ≡ some (new_letter c (letter_of m) stored))
      × (w'.metrics ≡ inc_persisted w.metrics)
unfolding handle
handle-dead_letter env m body stored w up encodes json free =
    let m' = record m { payload = env.json.compact m.payload } in
    let kept = insert_lem env.engine (env.call w.calls) (letter_of m') stored w.db up json free in
    rw (env.json.decode-encode_result m body encodes)
      (ground (arith, kept.0, kept.1 (env.call w.calls).fresh))
