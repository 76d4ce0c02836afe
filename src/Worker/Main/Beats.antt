-- ===== src/Worker/Main/Beats.antt =====
-- The way of a heartbeat from a worker to the scheduler.
use distributed_job_schedule.Prelude.{
  ℕ, ◌+◌, ◌*◌, ◌<◌, ◌≤◌, ◌≡◌, refl, String, true, Option, none, some, List, [], ◌∷◌, ◌++◌, ◌==◌,
  if◌then◌else◌, arith,
}
use distributed_job_schedule.Prelude.Int.{pos}
use distributed_job_schedule.Models.{Uuid, Time, Worker}
use distributed_job_schedule.Errors.{ok}
use distributed_job_schedule.Repository.Database.{reachable}
use distributed_job_schedule.Repository.Workers.{Beat, fits_int4, worker_at, is_healthy}
use distributed_job_schedule.Repository.Workers.Health.{beaten, upsert_heartbeat_lem}
use distributed_job_schedule.Broker.Messages.{Bytes, HeartbeatMessage, topic_heartbeats}
use distributed_job_schedule.Broker.World.{World, Env, KafkaRecord, append, tick_call}
use distributed_job_schedule.Broker.Producer.{publish}
use distributed_job_schedule.Broker.Consumer.{Round, Commit, fetched, failed, refused, run}
use distributed_job_schedule.Scheduler.Heartbeat.{beat_of, handle}
use distributed_job_schedule.Scheduler.Heartbeat.Poison.{run_large_memory}
use distributed_job_schedule.Worker.{send_heartbeat}
use distributed_job_schedule.Worker.Main.{Sample, memory_of, beat}

-- The message of a sample.
abbrev pub message : Uuid → String → Sample → HeartbeatMessage
message me hostname x = record {
  worker_id = me;
  hostname = hostname;
  cpu = pos 0;
  memory = pos (memory_of x.alloc);
  running_jobs = x.running_jobs;
  timestamp = x.now;
}

abbrev pub heartbeat_record : Uuid → Bytes → KafkaRecord
heartbeat_record me body = record { topic = topic_heartbeats; key = me; value = body }

beat_lem :
    (env : Env) (me : Uuid) (hostname : String) (x : Sample) (w : World) (body : Bytes)
    → env.kafka w.calls ≡ reachable
    → env.json.encode_heartbeat (message me hostname x) ≡ some body
    → beat env me hostname x w ≡ tick_call (append (heartbeat_record me body) w)
unfolding beat send_heartbeat publish
beat_lem env me hostname x w body up encodes = ground arith

small_memory : (alloc : ℕ) → alloc < 999 * 1_048_576 → memory_of alloc ≤ 99_999
small_memory alloc h = omega arith

large_memory : (alloc : ℕ) → 1000 * 1_048_576 ≤ alloc → 99_999 < memory_of alloc
large_memory alloc h = omega arith

beaten-memory :
    (now : Time) (id : Uuid) (b : Beat) (o : Option Worker)
    → (beaten now id b o).memory ≡ some b.memory
beaten-memory now id b none = refl
beaten-memory now id b (some k) = refl

beaten-running_jobs :
    (now : Time) (id : Uuid) (b : Beat) (o : Option Worker)
    → (beaten now id b o).running_jobs ≡ b.running_jobs
beaten-running_jobs now id b none = refl
beaten-running_jobs now id b (some k) = refl

beaten-heard :
    (now : Time) (id : Uuid) (b : Beat) (o : Option Worker)
    → (beaten now id b o).last_heartbeat ≡ some now
beaten-heard now id b none = refl
beaten-heard now id b (some k) = refl

-- A heartbeat of a worker with less than 999 MB, whose number of jobs fits INTEGER, over a Kafka
-- and a database that answer, and if it can be encoded: it is one record, and when the scheduler
-- handles it next, the worker is in the table with the memory and the number of jobs that were
-- measured and the time of the database, and healthy for any positive limit; every other worker's row is as it was.
pub beat-handle :
    (env : Env) (me : Uuid) (hostname : String) (x : Sample) (w : World) (body : Bytes) (stale : ℕ)
    → env.kafka w.calls ≡ reachable
    → (env.call (w.calls + 1)).link ≡ reachable
    → env.json.encode_heartbeat (message me hostname x) ≡ some body
    → x.alloc < 999 * 1_048_576
    → fits_int4 x.running_jobs ≡ true
    → 0 < stale
    → let sent = beat env me hostname x w in
      let (w', answer) = handle env (heartbeat_record me body) sent in
      let c = env.call (w.calls + 1) in
      let mine = beaten c.now me (beat_of (message me hostname x)) (worker_at me w.db) in
      (sent.log ≡ w.log ++ heartbeat_record me body ∷ [])
      × (answer ≡ ok tt)
      × ((i : Uuid) → worker_at i w'.db ≡ (if i == me then some mine else worker_at i w.db))
      × (mine.memory ≡ some (pos (memory_of x.alloc)))
      × (mine.running_jobs ≡ x.running_jobs)
      × (mine.last_heartbeat ≡ some c.now)
      × (is_healthy c.now stale mine ≡ true)
unfolding handle
beat-handle env me hostname x w body stale kafka up encodes small jobs_fit limit =
    let b = beat_of (message me hostname x) in
    let c = env.call (w.calls + 1) in
    let memory_fits = small_memory x.alloc small in
    let kept = upsert_heartbeat_lem c me b w.db stale up (ground arith) limit in
    rw
      (
        beat_lem env me hostname x w body kafka encodes,
        env.json.decode-encode_heartbeat (message me hostname x) body encodes,
      )
      (
        refl,
        kept.0,
        kept.1,
        beaten-memory c.now me b (worker_at me w.db),
        beaten-running_jobs c.now me b (worker_at me w.db),
        beaten-heard c.now me b (worker_at me w.db),
        kept.2,
      )

-- From 1000 MB on, the heartbeat that a worker sends ends the consumer of the scheduler that fetches it:
-- whatever the database answers and whatever else Kafka has, the table stays as it was and the record
-- is not committed. Kafka answers the worker, and the heartbeat can be encoded.
pub beat-large_memory :
    (env : Env) (me : Uuid) (hostname : String) (x : Sample) (w : World) (body : Bytes) (c : Commit)
    (rounds : List Round)
    → env.kafka w.calls ≡ reachable
    → env.json.encode_heartbeat (message me hostname x) ≡ some body
    → 1000 * 1_048_576 ≤ x.alloc
    → let sent = beat env me hostname x w in
      let r = heartbeat_record me body in
      run (handle env) (record { fetch = fetched r; commit = c } ∷ rounds) sent
      ≡ (tick_call sent, refused r ∷ [], failed)
beat-large_memory env me hostname x w body c rounds kafka encodes large =
    run_large_memory env (record { fetch = fetched (heartbeat_record me body); commit = c }) rounds
      (heartbeat_record me body) (message me hostname x) (memory_of x.alloc)
      (beat env me hostname x w) refl
      (env.json.decode-encode_heartbeat (message me hostname x) body encodes) refl
      (large_memory x.alloc large)
