-- ===== src/Scheduler/Dispatcher/Single.antt =====
-- A tick over one worker that has room and one job that waits.
use distributed_job_schedule.Prelude.{
  ℕ, zero, suc, ◌+◌, ◌≡◌, refl, true, false, some, List, [], ◌∷◌, ◌++◌, leb, arith, any,
}
use distributed_job_schedule.Prelude.Int.{ℤ, pos, negsuc, leb_ℤ}
use distributed_job_schedule.Models.{Uuid, Job, Worker}
use distributed_job_schedule.Errors.{ok}
use distributed_job_schedule.Repository.Database.{reachable}
use distributed_job_schedule.Repository.Jobs.{
  has_id, touch, is_candidate, assign, worker_exists, max_int4,
}
use distributed_job_schedule.Repository.Jobs.Single.{fetch_pending-last}
use distributed_job_schedule.Repository.Workers.{fetch_healthy}
use distributed_job_schedule.Broker.Messages.{Bytes, topic_jobs}
use distributed_job_schedule.Broker.World.{World, Env, KafkaRecord}
use distributed_job_schedule.Broker.Producer.{publish_job}
use distributed_job_schedule.Scheduler.Dispatcher.{
  capacity, message_of, dispatch_job, dispatch_jobs, dispatch_worker, dispatch_workers, tick,
}
use distributed_job_schedule.Scheduler.Dispatcher.Kept.{fetch_healthy-db}

abbrev pub order_record : Uuid → Bytes → KafkaRecord
order_record k body = record { topic = topic_jobs; key = k; value = body }

positive : (z : ℤ) → leb_ℤ z (pos 0) ≡ false → (n : ℕ) × (z ≡ pos (suc n))
positive (pos zero) h = cc
positive (pos (suc n)) h = (n, refl)
positive (negsuc n) h = absurd (ground arith)

module _ (env : Env) (k : Worker) (jobs : List Job) (row : Job) (body : Bytes) (w : World)
    (up : (n : ℕ) → (env.call n).link ≡ reachable) (kafka : (n : ℕ) → env.kafka n ≡ reachable)
    (free : any (has_id row.id) jobs ≡ false) (known : worker_exists k.id w.db ≡ true)
    (fits : leb max_int4 row.attempts ≡ false) (room : leb_ℤ (capacity k) (pos 0) ≡ false)
    (there : w.db.jobs ≡ jobs ++ row ∷ []) where
  module _ (others : any (is_candidate (env.call w.calls).locked) jobs ≡ false)
      (own : is_candidate (env.call w.calls).locked row ≡ true)
      (encodes : env.json.encode_job
          (message_of k.id (touch (env.call w.calls).now (assign k.id row)))
        ≡ some body) where
    dispatch_worker-single : dispatch_worker env k w ≡ record w {
      db = record w.db { jobs = jobs ++ touch (env.call w.calls).now (assign k.id row) ∷ [] };
      log = w.log ++ order_record k.id body ∷ [];
      calls = w.calls + 1 + 1;
    }
    unfolding dispatch_worker dispatch_jobs dispatch_job publish_job
    dispatch_worker-single =
        let (n, e) = positive (capacity k) room in
        rw
          (
            room,
            e,
            fetch_pending-last env.engine (env.call w.calls) jobs row w.db others own there k.id n
                (up w.calls) free known fits,
            encodes,
            kafka (w.calls + 1),
          )
          refl

-- The job that waits is at the end of its table, no other can be picked, and one worker is healthy: the
-- tick assigns the job, sends the worker its order, and changes nothing else.
pub tick-single :
    (env : Env) (k : Worker) (jobs : List Job) (row : Job) (body : Bytes) (w : World)
    → ((n : ℕ) → (env.call n).link ≡ reachable)
    → ((n : ℕ) → env.kafka n ≡ reachable)
    → any (has_id row.id) jobs ≡ false
    → worker_exists k.id w.db ≡ true
    → leb max_int4 row.attempts ≡ false
    → leb_ℤ (capacity k) (pos 0) ≡ false
    → w.db.jobs ≡ jobs ++ row ∷ []
    → (fetch_healthy env.engine (env.call w.calls) 15 w.db).1 ≡ ok (k ∷ [])
    → any (is_candidate (env.call (w.calls + 1)).locked) jobs ≡ false
    → is_candidate (env.call (w.calls + 1)).locked row ≡ true
    → env.json.encode_job (message_of k.id (touch (env.call (w.calls + 1)).now (assign k.id row)))
      ≡ some body
    → tick env w ≡ (
      record w {
        db = record w.db {
          jobs = jobs ++ touch (env.call (w.calls + 1)).now (assign k.id row) ∷ [];
        };
        log = w.log ++ order_record k.id body ∷ [];
        calls = w.calls + 1 + 1 + 1;
      },
      ok tt,
    )
unfolding tick dispatch_workers
tick-single env k jobs row body w up kafka free known fits room there healthy others own encodes =
    rw (fetch_healthy-db env.engine (env.call w.calls) 15 w.db, healthy)
      (rw
        (dispatch_worker-single env k jobs row body (record w { calls = w.calls + 1 }) up kafka free
          known fits room there others own encodes)
        refl)
