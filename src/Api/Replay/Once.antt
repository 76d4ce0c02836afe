-- ===== src/Api/Replay/Once.antt =====
-- A dead letter is replayed once.
use text.Mathlib.Text.{◌==◌ as str_eq}
use distributed_job_schedule.Prelude.{ℕ, ◌+◌, ◌≡◌, false, none, some, [], ◌∷◌, ◌++◌, arith, any}
use distributed_job_schedule.Prelude.Int.{pos}
use distributed_job_schedule.Models.{Uuid, Payload, queued, new_job}
use distributed_job_schedule.Repository.Database.{DeadLetter, reachable}
use distributed_job_schedule.Repository.Jobs
use distributed_job_schedule.Repository.Jobs.{has_id, new_row, insert_job}
use distributed_job_schedule.Repository.DeadLetters
use distributed_job_schedule.Repository.DeadLetters.{letter_at}
use distributed_job_schedule.Repository.DeadLetters.Rows.{mark_replayed_lem}
use distributed_job_schedule.Broker.World.{World, Env}
use distributed_job_schedule.Api.{error, reply}
use distributed_job_schedule.Api.Replay.{replay}

-- `Replay` of a dead letter that is there and not REPLAYED, over a database that answers, with a free
-- primary key for the job and a payload that is JSON: the answer is 201 with the key, the tables have
-- one job more, which is QUEUED, of the letter's type and payload, with priority 0 and no attempt, and
-- the letter is REPLAYED into that job.
pub replay_lem :
    (env : Env) (id fresh : Uuid) (w : World) (letter : DeadLetter) (stored : Payload)
    → ((n : ℕ) → (env.call n).link ≡ reachable)
    → letter_at id w.db ≡ some letter
    → str_eq letter.status "REPLAYED" ≡ false
    → any (has_id fresh) w.db.jobs ≡ false
    → env.engine.jsonb letter.payload ≡ some stored
    → let (w', r) = replay env (some id) fresh w in
      (r ≡ reply 201 fresh)
      × (w'.db.jobs
          ≡ w.db.jobs
            ++ record {
              id = fresh;
              status = queued;
              type = letter.job_type;
              payload = stored;
              priority = pos 0;
              attempts = 0;
              worker_id = none;
              created_at = (env.call (w.calls + 1)).now;
              updated_at = (env.call (w.calls + 1)).now;
            }
              ∷ [])
      × (letter_at id w'.db
          ≡ some (record letter {
            status = "REPLAYED";
            replayed_at = some (env.call (w.calls + 1 + 1)).now;
            replayed_job_id = some fresh;
          }))
unfolding replay DeadLetters.get DeadLetters.mark_replayed Jobs.create insert_job new_job
replay_lem env id fresh w letter stored up there pending free json =
    let row =
      new_row (env.call (w.calls + 1)) (new_job fresh letter.job_type letter.payload (pos 0))
        stored in
    let marked =
      mark_replayed_lem (env.call (w.calls + 1 + 1)) id fresh
        (record w.db { jobs = w.db.jobs ++ row ∷ [] }) (up (w.calls + 1 + 1)) in
    rw (up w.calls, there, pending, up (w.calls + 1), json, free, up (w.calls + 1 + 1))
      (ground (arith, marked.0, marked.1 id))

-- `Replay` of a dead letter that is REPLAYED, over a database that answers: the answer is 409, and the
-- tables stay as they were.
pub replay_again :
    (env : Env) (id fresh : Uuid) (w : World) (letter : DeadLetter)
    → ((n : ℕ) → (env.call n).link ≡ reachable)
    → letter_at id w.db ≡ some letter
    → letter.status ≡ "REPLAYED"
    → let (w', r) = replay env (some id) fresh w in
      (r ≡ error 409 "dead letter already replayed") × (w'.db ≡ w.db)
unfolding replay DeadLetters.get
replay_again env id fresh w letter up there done = rw (up w.calls, there, done) (ground arith)
