-- ===== src/System/Rounds.antt =====
-- A job whose runner always fails: one more dispatch, run and result.
pub mod Dies
use mathlib.Core.List.{append_assoc}
use mathlib.Core.Path.{subst}
use distributed_job_schedule.Prelude.{
  ℕ, ◌+◌, ◌≡◌, refl, sym, ap, ◌∙◌, inl, inr, String, Bool, true, false, Option, none, some, List,
  [], ◌∷◌, ◌++◌, leb, arith, any, if◌then◌else◌, ◌==◌,
}
use distributed_job_schedule.Prelude.Int.{ℤ, pos, leb_ℤ}
use distributed_job_schedule.Models.{
  Uuid, Time, Payload, Job, Worker, JobStatus, queued, retrying, dead,
}
use distributed_job_schedule.Errors.{ok}
use distributed_job_schedule.Repository.Database.{Database, Engine, Call, reachable}
use distributed_job_schedule.Repository.Jobs.{
  has_id, job_at, touch, is_candidate, is_pending, assign, worker_exists, verdict, max_int4,
}
use distributed_job_schedule.Repository.Jobs.Single.{job_at-appended}
use distributed_job_schedule.Repository.DeadLetters.{has_letter_id, letter_at, new_letter}
use distributed_job_schedule.Repository.Workers.{fetch_healthy}
use distributed_job_schedule.Broker.Messages.{Bytes, JobMessage, ResultMessage}
use distributed_job_schedule.Broker.World.{World, Env, KafkaRecord}
use distributed_job_schedule.Scheduler.Dispatcher.{capacity, tick}
use distributed_job_schedule.Scheduler.Dispatcher.Single.{order_record, tick-single}
use distributed_job_schedule.Collector.Results.{handle_result}
use distributed_job_schedule.Collector.Results.Last.{handle_result-last}
use distributed_job_schedule.Collector.Results.Outcome.{handle_result_lem, dead_letter, letters_of}
use distributed_job_schedule.Collector.DeadLetters as Letters
use distributed_job_schedule.Collector.DeadLetters.{letter_of, or_object}
use distributed_job_schedule.Collector.DeadLetters.Persisted.{handle-dead_letter}
use distributed_job_schedule.Worker.{Order, Runner, handle, execute}
use distributed_job_schedule.Worker.Outcome.{error_of, report, result_record, execute-log}
use distributed_job_schedule.System.Pipeline.{
  fetch_healthy-workers, handle-taken, healthy-worker_exists,
}

-- The order, the message and the failure of the job's attempt `n`.
abbrev pub nth_order : Env → Job → ℕ → Order
nth_order env j n = record {
  id = j.id;
  type = j.type;
  payload = env.json.compact j.payload;
  priority = j.priority;
  attempts = n;
}

abbrev pub nth_message : Uuid → Job → ℕ → JobMessage
nth_message k j n = record {
  job_id = j.id;
  worker_id = k;
  type = j.type;
  payload = j.payload;
  priority = j.priority;
  attempts = n;
}

abbrev pub nth_failure : Env → Uuid → Job → String → ℕ → ResultMessage
nth_failure env k j text n = report k (nth_order env j n) (some text)

abbrev pub compacted : Env → ResultMessage → ResultMessage
compacted env m = record m { payload = env.json.compact m.payload }

abbrev pub execute_all : Env → Uuid → (String → Option Runner) → List Order → World → World
execute_all env k runners [] w = w
execute_all env k runners (o ∷ chan) w = execute_all env k runners chan (execute env k runners o w)

-- A tick, the runs of what the worker's consumer makes of the order that the tick has sent, and the result
-- of the run.
abbrev pub attempt :
    Env → Uuid → (String → Option Runner) → KafkaRecord → KafkaRecord → World → World
attempt env k runners order result w =
    let chan = (handle env.json k false order []).0 in
    (handle_result env true result (execute_all env k runners chan (tick env w).0)).0

-- What does not change while the job is tried.
pub record Setting : Type 0 where
  pub env : Env
  pub worker : Worker
  pub runners : String → Option Runner
  pub tables : Database
  pub others : List Job
  pub job : Job
  pub error : String
  pub order_body : ℕ → Bytes
  pub result_body : ℕ → Bytes
  pub letter_body : ℕ → Bytes

-- The links hold, the worker is the only healthy one and has room, no other job can be picked, every run
-- of the job fails, and its messages can be encoded.
pub record IsFailing (s : Setting) : Type 0 where
  pub up : (n : ℕ) → (s.env.call n).link ≡ reachable
  pub kafka : (n : ℕ) → s.env.kafka n ≡ reachable
  pub healthy :
      (n : ℕ) → (fetch_healthy s.env.engine (s.env.call n) 15 s.tables).1 ≡ ok (s.worker ∷ [])
  pub room : leb_ℤ (capacity s.worker) (pos 0) ≡ false
  pub free : any (has_id s.job.id) s.others ≡ false
  pub settled : (n : ℕ) → any (is_candidate (s.env.call n).locked) s.others ≡ false
  pub unlocked : (n : ℕ) → any (λ i. i == s.job.id) (s.env.call n).locked ≡ false
  pub fails : (o : Order) → error_of s.runners o ≡ some s.error
  pub encodes_order :
      (n : ℕ) → s.env.json.encode_job (nth_message s.worker.id s.job n) ≡ some (s.order_body n)
  pub encodes_result :
      (n : ℕ)
      → s.env.json.encode_result (nth_failure s.env s.worker.id s.job s.error n)
        ≡ some (s.result_body n)
  pub encodes_letter :
      (n : ℕ)
      → s.env.json.encode_result (compacted s.env (nth_failure s.env s.worker.id s.job s.error n))
        ≡ some (s.letter_body n)

module _ (s : Setting) where
  open s use {
    env, worker, runners, tables, others, job, error, order_body, result_body, letter_body,
  }

  -- The row of the job after `n` attempts.
  abbrev pub tried : JobStatus → ℕ → Option Uuid → Time → Job
  tried status n k now = record job {
    status = status;
    attempts = n;
    worker_id = k;
    updated_at = now;
  }

  -- The job is at the end of its table, and the other rows are as they were.
  abbrev pub IsTried : JobStatus → ℕ → World → Type 0
  IsTried status n w =
      (k : Option Uuid) × (now : Time) × (w.db
        ≡ record tables { jobs = others ++ tried status n k now ∷ [] })

  abbrev pub next : ℕ → World → World
  next n =
      attempt env worker.id runners (order_record worker.id (order_body n))
        (result_record job.id (result_body n))

  abbrev pub letters : ℕ → List KafkaRecord
  letters n = if leb 3 n then dead_letter job.id (letter_body n) ∷ [] else []

  -- The records that attempt `n` sends.
  abbrev pub records : ℕ → List KafkaRecord
  records n =
      order_record worker.id (order_body n) ∷ result_record job.id (result_body n) ∷ letters n

  module _ (f : IsFailing s) (status : JobStatus) (n : ℕ) (w : World) (k : Option Uuid) (now : Time)
      (pending : is_pending status ≡ true) (small : leb max_int4 n ≡ false)
      (there : w.db ≡ record tables { jobs = others ++ tried status n k now ∷ [] }) where
    -- The row that the tick leaves, and the world behind the run.
    abbrev taken : Job
    taken = touch (env.call (w.calls + 1)).now (assign worker.id (tried status n k now))

    abbrev ran : World
    ran = record w {
      db = record w.db { jobs = others ++ taken ∷ [] };
      log =
          (w.log ++ order_record worker.id (order_body (n + 1)) ∷ [])
          ++ result_record job.id (result_body (n + 1)) ∷ [];
      calls = w.calls + 1 + 1 + 1 + 1;
    }

    ticks : tick env w ≡ (
      record ran {
        log = w.log ++ order_record worker.id (order_body (n + 1)) ∷ [];
        calls = w.calls + 1 + 1 + 1;
      },
      ok tt,
    )
    ticks =
        tick-single env worker others (tried status n k now) (order_body (n + 1)) w f.up f.kafka
          f.free
          (rw there
            (healthy-worker_exists env.engine (env.call 0) 15 tables worker (f.up 0) (f.healthy 0)))
          small f.room (rw there refl)
          (rw there (
            fetch_healthy-workers env.engine (env.call w.calls) 15 tables
              (others ++ tried status n k now ∷ [])
            ∙ f.healthy w.calls))
          (f.settled (w.calls + 1)) (ground (arith, f.unlocked (w.calls + 1)))
          (f.encodes_order (n + 1))

    received :
        (handle env.json worker.id false (order_record worker.id (order_body (n + 1))) []).0
        ≡ nth_order env job (n + 1) ∷ []
    received =
        ap (λ p. p.0)
          (handle-taken env worker.id taken (order_body (n + 1)) (f.encodes_order (n + 1)))

    runs :
        execute_all env worker.id runners
          (handle env.json worker.id false (order_record worker.id (order_body (n + 1))) []).0
          (tick env w).0
        ≡ ran
    runs =
        ap (λ chan. execute_all env worker.id runners chan (tick env w).0) received
        ∙ ap (λ u. execute env worker.id runners (nth_order env job (n + 1)) u.0) ticks
        ∙ execute-log env worker.id runners (nth_order env job (n + 1))
            (record ran {
              log = w.log ++ order_record worker.id (order_body (n + 1)) ∷ [];
              calls = w.calls + 1 + 1 + 1;
            })
            (result_body (n + 1)) (f.kafka (w.calls + 1 + 1 + 1))
            (rw (f.fails (nth_order env job (n + 1))) (f.encodes_result (n + 1)))

    decodes :
        env.json.decode_result (result_body (n + 1))
        ≡ some (compacted env (nth_failure env worker.id job error (n + 1)))
    decodes =
        env.json.decode-encode_result (nth_failure env worker.id job error (n + 1))
          (result_body (n + 1)) (f.encodes_result (n + 1))

    -- One more attempt.
    pub next_lem :
        IsTried (if leb 3 (n + 1) then dead else retrying) (n + 1) (next (n + 1) w)
        × ((next (n + 1) w).log ≡ w.log ++ records (n + 1))
    next_lem =
        let m = compacted env (nth_failure env worker.id job error (n + 1)) in
        let found = job_at-appended job.id others taken refl f.free in
        let sent =
          handle_result_lem env true (result_record job.id (result_body (n + 1))) m ran taken
            (letter_body (n + 1)) f.up f.kafka decodes (f.encodes_letter (n + 1)) found in
        let left =
          handle_result-last env true (result_record job.id (result_body (n + 1))) m ran others
            taken (f.up ran.calls) decodes refl refl f.free refl in
        let same : letters_of m taken (letter_body (n + 1)) ≡ letters (n + 1) = ground arith in
        let collected = λ (u : World).
          (handle_result env true (result_record job.id (result_body (n + 1))) u).0 in
        subst
          (λ u.
            IsTried (if leb 3 (n + 1) then dead else retrying) (n + 1) (collected u)
            × ((collected u).log ≡ w.log ++ records (n + 1)))
          (sym runs)
          (
            (some worker.id, (env.call ran.calls).now, left ∙ rw there refl),
            sent.2 ∙ ap (λ l. ran.log ++ l) same ∙ simp append_assoc,
          )
