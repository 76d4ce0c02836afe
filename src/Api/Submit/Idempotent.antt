-- ===== src/Api/Submit/Idempotent.antt =====
-- What a second request with the same key is answered.
use text.Mathlib.Text.{◌==◌ as str_eq}
use text.Mathlib.TextEquality.{eq_iff}
use distributed_job_schedule.Prelude.{
  ℕ, ◌+◌, ◌≡◌, refl, ap, sym, ◌∙◌, String, true, false, none, some, ◌++◌, arith,
}
use distributed_job_schedule.Models.{Uuid, Job}
use distributed_job_schedule.Repository.Database.{reachable, refused}
use distributed_job_schedule.Repository.Jobs
use distributed_job_schedule.Repository.Jobs.{has_id, job_at, new_row, insert_job}
use distributed_job_schedule.Broker.World.{World, Env, IdemEntry}
use distributed_job_schedule.Api.{error, reply}
use distributed_job_schedule.Api.Submit.{
  Hasher, Request, submit_job, idem_key, content_key, payload_hash, entry_at,
}

pub str_eq_refl : (s : String) → str_eq s s ≡ true
str_eq_refl s = (eq_iff s s).1 refl

-- A request `q` behind a request `p` with the same header Idempotency-Key, or both with none, whose type
-- and payload may be others than those of `p` as long as their bytes one behind the other are the same.
-- Where the key of `p` stands for a job that is in its row, with the hash of what `p` contains, and Redis
-- and the database answer: `q` is answered 200 with that job as it is now, and no table changes.
pub submit_job-duplicate :
    (env : Env) (h : Hasher) (fresh : Uuid) (p q : Request) (w : World) (e : IdemEntry) (j : Job)
    → ((n : ℕ) → (env.call n).link ≡ reachable)
    → ((n : ℕ) → env.redis n ≡ reachable)
    → str_eq q.type "" ≡ false
    → q.header ≡ p.header
    → h.bytes_of q.type ++ q.payload ≡ h.bytes_of p.type ++ p.payload
    → entry_at (idem_key h p) w ≡ some e
    → e.payload_hash ≡ payload_hash h p.type p.payload
    → job_at e.job_id w.db ≡ some j
    → let (w', r) = submit_job env h true fresh (some q) w in (r ≡ reply 200 j) × (w'.db ≡ w.db)
unfolding submit_job Jobs.get
submit_job-duplicate env h fresh p q w e j up redis typed headers bytes known_p same_p there =
    let key : idem_key h q ≡ idem_key h p = rw (idem_key, content_key, headers, bytes) refl in
    let known : entry_at (idem_key h q) w ≡ some e = rw key known_p in
    let same : e.payload_hash ≡ payload_hash h q.type q.payload =
      same_p ∙ ap h.digest (sym bytes) in
    rw (typed, redis w.calls, known, redis (w.calls + 1), known, same)
      (ground (arith, up (w.calls + 1 + 1), str_eq_refl (payload_hash h q.type q.payload)))

-- A request whose key stands for no job, over a Redis that answers and a database that does not: the
-- answer is 500, the tables stay as they were, and the key now stands for the number of the job that
-- was not created.
pub submit_job-failed :
    (env : Env) (h : Hasher) (fresh : Uuid) (q : Request) (w : World)
    → ((n : ℕ) → env.redis n ≡ reachable)
    → (env.call (w.calls + 1)).link ≡ refused
    → str_eq q.type "" ≡ false
    → entry_at (idem_key h q) w ≡ none
    → let (w', r) = submit_job env h true fresh (some q) w in
      (r ≡ error 500 "failed to create job")
      × (w'.db ≡ w.db)
      × (entry_at (idem_key h q) w'
          ≡ some (record { job_id = fresh; payload_hash = payload_hash h q.type q.payload }))
unfolding submit_job Jobs.create
submit_job-failed env h fresh q w redis down typed unknown =
    rw (typed, redis w.calls, unknown, down, str_eq_refl (idem_key h q)) (refl, refl, refl)

-- Where a key stands for a number that is in no row, as it does behind a creation that has failed,
-- each request with that key and the same content, over a Redis that answers and whatever the
-- database does, is answered 500 and creates no job.
pub submit_job-stuck :
    (env : Env) (h : Hasher) (fresh : Uuid) (q : Request) (w : World) (e : IdemEntry)
    → ((n : ℕ) → env.redis n ≡ reachable)
    → str_eq q.type "" ≡ false
    → entry_at (idem_key h q) w ≡ some e
    → e.payload_hash ≡ payload_hash h q.type q.payload
    → job_at e.job_id w.db ≡ none
    → let (w', r) = submit_job env h true fresh (some q) w in
      (r ≡ error 500 "failed to fetch existing job") × (w'.db ≡ w.db)
unfolding submit_job Jobs.get
submit_job-stuck env h fresh q w e redis typed known same absent =
    rw (typed, redis w.calls, known, redis (w.calls + 1), known, same)
      (ground (arith, str_eq_refl (payload_hash h q.type q.payload)))
