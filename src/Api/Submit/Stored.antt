-- ===== src/Api/Submit/Stored.antt =====
-- A job that is submitted, read back and submitted again.
use text.Mathlib.Text.{◌==◌ as str_eq}
use distributed_job_schedule.Prelude.{
  ℕ, ◌+◌, ◌≡◌, refl, ap, String, ◌∙◌, inl, inr, true, false, Option, none, some, [], ◌∷◌, ◌++◌, any,
  Option-cases,
}
use distributed_job_schedule.Models.{Uuid, Payload, Job, queued, new_job}
use distributed_job_schedule.Repository.Database.{reachable}
use distributed_job_schedule.Repository.Jobs
use distributed_job_schedule.Repository.Jobs.Single.{job_at-appended}
use distributed_job_schedule.Repository.Jobs.{has_id, job_at, new_row, insert_job}
use distributed_job_schedule.Broker.Messages.{Bytes}
use distributed_job_schedule.Broker.World.{World, Env, IdemEntry}
use distributed_job_schedule.Api.{reply}
use distributed_job_schedule.Api.Submit.{
  Hasher, Request, submit_job, idem_key, payload_hash, entry_at, remember, inc_submitted,
}
use distributed_job_schedule.Api.Submit.Idempotent.{submit_job-duplicate, str_eq_refl}
use distributed_job_schedule.Api.Status.{
  JobResponse, to_job_response, miss, get_job_status, cached_at,
}

-- The row that a request makes, and the world behind its submission.
abbrev pub submitted : Env → Uuid → Request → Payload → World → Job
submitted env fresh q stored w = record {
  id = fresh;
  status = queued;
  type = q.type;
  payload = stored;
  priority = q.priority;
  attempts = 0;
  worker_id = none;
  created_at = (env.call (w.calls + 1)).now;
  updated_at = (env.call (w.calls + 1)).now;
}

abbrev pub with_job : Env → Hasher → Uuid → Request → Payload → World → World
with_job env h fresh q stored w =
    record (remember (idem_key h q)
      (record { job_id = fresh; payload_hash = payload_hash h q.type q.payload }) w) {
        db = record w.db { jobs = w.db.jobs ++ submitted env fresh q stored w ∷ [] };
        metrics = inc_submitted w.metrics;
        calls = w.calls + 1 + 1;
      }

pub submit_job-fresh :
    (env : Env) (h : Hasher) (fresh : Uuid) (q : Request) (w : World) (stored : Payload)
    → ((n : ℕ) → (env.call n).link ≡ reachable)
    → ((n : ℕ) → env.redis n ≡ reachable)
    → str_eq q.type "" ≡ false
    → entry_at (idem_key h q) w ≡ none
    → any (has_id fresh) w.db.jobs ≡ false
    → env.engine.jsonb q.payload ≡ some stored
    → submit_job env h true fresh (some q) w
      ≡ (with_job env h fresh q stored w, reply 201 (submitted env fresh q stored w))
unfolding submit_job Jobs.create insert_job new_job
submit_job-fresh env h fresh q w stored up redis typed unknown free json =
    rw (typed, redis w.calls, unknown, up (w.calls + 1), json, free) refl

remembered : (key : String) (e : IdemEntry) (w : World) → entry_at key (remember key e w) ≡ some e
remembered key e w = rw (str_eq_refl key) refl

entry_at-keys :
    (key : String) (w w' : World) (e : IdemEntry)
    → w'.keys ≡ w.keys
    → entry_at key w ≡ some e
    → entry_at key w' ≡ some e
entry_at-keys key w w' e same h = rw same h

pub get_job_status-cold :
    (encode : JobResponse → Option Bytes) (env : Env) (id : Uuid) (w : World) (j : Job)
    → ((n : ℕ) → (env.call n).link ≡ reachable)
    → ((n : ℕ) → env.redis n ≡ reachable)
    → cached_at id w ≡ none
    → job_at id w.db ≡ some j
    → let (w', r) = get_job_status encode env true (some id) w in
      (r ≡ reply 200 (miss (to_job_response j))) × (w'.db ≡ w.db) × (w'.keys ≡ w.keys)
unfolding get_job_status Jobs.get
get_job_status-cold encode env id w j up redis cold there =
    elim (Option-cases (encode (to_job_response j))) [
      | inl e ↦ rw (redis w.calls, cold, up (w.calls + 1), there, e) (refl, refl, refl)
      | inr (b, e) ↦
          rw (redis w.calls, cold, up (w.calls + 1), there, e, redis (w.calls + 1 + 1))
            (refl, refl, refl)
    ]

-- A request with a key that is new, over a database and a Redis that answer, with a free primary key and
-- a payload that is JSON: it is answered 201 with the one row that the table has more; the status of
-- that job is then answered 200 with the row, from the table, if the cache has no entry of it; and the
-- same request once more is answered 200 with the row, and no table changes.
pub submit_job-get_job_status :
    (encode : JobResponse → Option Bytes) (env : Env) (h : Hasher) (fresh again : Uuid)
    (q : Request) (w : World) (stored : Payload)
    → ((n : ℕ) → (env.call n).link ≡ reachable)
    → ((n : ℕ) → env.redis n ≡ reachable)
    → str_eq q.type "" ≡ false
    → entry_at (idem_key h q) w ≡ none
    → any (has_id fresh) w.db.jobs ≡ false
    → env.engine.jsonb q.payload ≡ some stored
    → cached_at fresh w ≡ none
    → let row = submitted env fresh q stored w in
      let (w1, r1) = submit_job env h true fresh (some q) w in
      let (w2, r2) = get_job_status encode env true (some fresh) w1 in
      let (w3, r3) = submit_job env h true again (some q) w2 in
      (r1 ≡ reply 201 row)
      × (w1.db ≡ record w.db { jobs = w.db.jobs ++ row ∷ [] })
      × (r2 ≡ reply 200 (miss (to_job_response row)))
      × (r3 ≡ reply 200 row)
      × (w3.db ≡ w1.db)
submit_job-get_job_status encode env h fresh again q w stored up redis typed unknown free json
      cold =
    let row = submitted env fresh q stored w in
    let w1 = with_job env h fresh q stored w in
    let there = job_at-appended fresh w.db.jobs row refl free in
    let (seen, same_db, same_keys) =
      get_job_status-cold encode env fresh w1 row up redis cold there in
    let w2 = (get_job_status encode env true (some fresh) w1).0 in
    let entry : IdemEntry = record {
      job_id = fresh;
      payload_hash = payload_hash h q.type q.payload;
    } in
    let (answered, kept) =
      submit_job-duplicate env h again q q w2 entry row up redis typed refl refl
        (entry_at-keys (idem_key h q) w1 w2 entry same_keys (remembered (idem_key h q) entry w))
        refl (ap (job_at fresh) same_db ∙ there) in
    rw (submit_job-fresh env h fresh q w stored up redis typed unknown free json)
      (refl, refl, seen, answered, kept ∙ same_db)
