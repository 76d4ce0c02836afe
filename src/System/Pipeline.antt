-- ===== src/System/Pipeline.antt =====
-- The way of one job through the programs: the API, the scheduler, a worker, the result collector, and the
-- API again.
use text.Mathlib.Text.{◌==◌ as str_eq}
use distributed_job_schedule.Prelude.{
  ℕ, ◌+◌, ◌≡◌, refl, ap, sym, ◌∙◌, String, true, false, Option, none, some, List, [], ◌∷◌, ◌++◌,
  arith, any, if◌then◌else◌, count-none-find, count, count_mono, count_pos-any, ◌==◌, ◌&&◌,
}
use distributed_job_schedule.Prelude.Int.{pos, leb_ℤ}
use distributed_job_schedule.Models.{Uuid, Payload, Job, Worker, completed, retrying}
use distributed_job_schedule.Errors.{ok}
use distributed_job_schedule.Repository.Database.{Database, Engine, Call, reachable}
use distributed_job_schedule.Repository.Jobs.{
  has_id, job_at, touch, is_candidate, assign, worker_exists,
}
use distributed_job_schedule.Repository.Jobs.Single.{job_at-appended}
use distributed_job_schedule.Repository.Workers.{fetch_healthy, is_healthy}
use distributed_job_schedule.Repository.Workers.Health.{fetch_healthy_lem}
use distributed_job_schedule.Broker.Messages.{Bytes}
use distributed_job_schedule.Broker.World.{World, Env}
use distributed_job_schedule.Scheduler.Dispatcher.{capacity, message_of, tick}
use distributed_job_schedule.Scheduler.Dispatcher.Single.{order_record, tick-single}
use distributed_job_schedule.Collector.Results.{has_key, handle_result}
use distributed_job_schedule.Collector.Results.Outcome.{handle_result-forgets}
use distributed_job_schedule.Worker.{Order, Runner, handle, execute}
use distributed_job_schedule.Worker.Outcome.{
  error_of, report, result_record, succeeded, status_after, execute-handle_result,
}
use distributed_job_schedule.Api.{reply}
use distributed_job_schedule.Api.Submit.{Hasher, Request, submit_job, idem_key, entry_at}
use distributed_job_schedule.Api.Submit.Stored.{
  submitted, with_job, submit_job-fresh, get_job_status-cold,
}
use distributed_job_schedule.Api.Status.{
  JobResponse, to_job_response, miss, get_job_status, cached_at,
}

-- The row that the tick makes of a submitted job, and the order that the worker is sent.
abbrev pub assigned : Env → Uuid → Request → Payload → Uuid → World → Job
assigned env fresh q stored k w =
    touch (env.call (w.calls + 1 + 1 + 1)).now (assign k (submitted env fresh q stored w))

abbrev pub ordered : Env → Job → Order
ordered env j = record {
  id = j.id;
  type = j.type;
  payload = env.json.compact j.payload;
  priority = j.priority;
  attempts = j.attempts;
}

pub handle-taken :
    (env : Env) (k : Uuid) (j : Job) (body : Bytes)
    → env.json.encode_job (message_of k j) ≡ some body
    → handle env.json k false (order_record k body) [] ≡ (ordered env j ∷ [], ok tt)
unfolding handle
handle-taken env k j body encodes =
    rw (env.json.decode-encode_job (message_of k j) body encodes) (ground arith)

ok-eq : {A : Type 0} {a b : A} → ok a ≡ ok b → a ≡ b
ok-eq e = cc

pub healthy-worker_exists :
    (e : Engine) (c : Call) (stale : ℕ) (db : Database) (k : Worker)
    → c.link ≡ reachable
    → (fetch_healthy e c stale db).1 ≡ ok (k ∷ [])
    → worker_exists k.id db ≡ true
healthy-worker_exists e c stale db k up healthy =
    let (ks, ran, counted, _) = fetch_healthy_lem e c stale db up in
    let is_k = λ (x : Worker). x.id == k.id in
    let same : ks ≡ k ∷ [] = ok-eq (sym (ap (λ p. p.1) ran) ∙ healthy) in
    let one : count is_k ks ≡ 1 = ap (count is_k) same ∙ ground arith in
    count_pos-any is_k db.workers (
      omega (
        arith,
        one,
        counted is_k,
        count_mono (λ x. is_healthy c.now stale x && is_k x) is_k db.workers (λ x h. ground arith),
      ))

abbrev dispatched : Env → Hasher → Uuid → Request → Payload → Uuid → Bytes → World → World
dispatched env h fresh q stored k order_body w = record (with_job env h fresh q stored w) {
  db = record w.db { jobs = w.db.jobs ++ assigned env fresh q stored k w ∷ [] };
  log = w.log ++ order_record k order_body ∷ [];
  calls = w.calls + 1 + 1 + 1 + 1 + 1;
}

forgotten-cold : (id : Uuid) (w : World) → count (has_key id) w.cache ≡ 0 → cached_at id w ≡ none
forgotten-cold id w h = rw (count-none-find (has_key id) w.cache h) refl

first_status :
    (x : Option String) (j : Job)
    → j.attempts ≡ 1
    → status_after x j ≡ (if succeeded x then completed else retrying)
first_status x j e = ground arith

pub fetch_healthy-workers :
    (e : Engine) (c : Call) (stale : ℕ) (db : Database) (jobs : List Job)
    → (fetch_healthy e c stale (record db { jobs = jobs })).1 ≡ (fetch_healthy e c stale db).1
unfolding fetch_healthy
fetch_healthy-workers e c stale db jobs = ground arith

-- A request with a type, a JSON payload, a key that is new and a free primary key, over a database, a Redis
-- and a Kafka that answer, while no other job can be picked, no transaction locks this one, and exactly
-- one worker is healthy, which has room: the next tick of the dispatcher sends the worker one record; the
-- worker's consumer makes of it one order, of this job with its type, payload and priority and with one
-- attempt; running the order sends one result; the collector takes it; and the status of the job, asked
-- for over HTTP, is then COMPLETED if the runner of its type returned no error, and RETRYING otherwise.
-- The messages on the way can be encoded.
pub submit_job-completes :
    (encode : JobResponse → Option Bytes) (env : Env) (h : Hasher) (fresh : Uuid) (q : Request)
    (w : World) (stored : Payload) (k : Worker) (runners : String → Option Runner)
    (order_body result_body letter_body : Bytes)
    → ((n : ℕ) → (env.call n).link ≡ reachable)
    → ((n : ℕ) → env.redis n ≡ reachable)
    → ((n : ℕ) → env.kafka n ≡ reachable)
    → str_eq q.type "" ≡ false
    → entry_at (idem_key h q) w ≡ none
    → any (has_id fresh) w.db.jobs ≡ false
    → env.engine.jsonb q.payload ≡ some stored
    → (fetch_healthy env.engine (env.call (w.calls + 1 + 1)) 15 w.db).1 ≡ ok (k ∷ [])
    → leb_ℤ (capacity k) (pos 0) ≡ false
    → any (is_candidate (env.call (w.calls + 1 + 1 + 1)).locked) w.db.jobs ≡ false
    → any (λ i. i == fresh) (env.call (w.calls + 1 + 1 + 1)).locked ≡ false
    → let j = assigned env fresh q stored k.id w in
      let o = ordered env j in
      let x = error_of runners o in
      env.json.encode_job (message_of k.id j) ≡ some order_body
      → env.json.encode_result (report k.id o x) ≡ some result_body
      → env.json.encode_result (report k.id (record o { payload = env.json.compact o.payload }) x)
        ≡ some letter_body
      → let w1 = (submit_job env h true fresh (some q) w).0 in
        let (w2, ticked) = tick env w1 in
        let (chan, taken) = handle env.json k.id false (order_record k.id order_body) [] in
        let w3 = execute env k.id runners o w2 in
        let (w4, collected) = handle_result env true (result_record fresh result_body) w3 in
        let row =
          touch
            (env.call (w2.calls + 1)).now
            (record j { status = if succeeded x then completed else retrying }) in
        (ticked ≡ ok tt)
        × (w2.log ≡ w1.log ++ order_record k.id order_body ∷ [])
        × (chan ≡ o ∷ [])
        × (taken ≡ ok tt)
        × (w3.log ≡ w2.log ++ result_record fresh result_body ∷ [])
        × (collected ≡ ok tt)
        × ((get_job_status encode env true (some fresh) w4).1
            ≡ reply 200 (miss (to_job_response row)))
submit_job-completes encode env h fresh q w stored k runners order_body result_body letter_body up
      redis kafka typed unknown free json healthy room others unlocked encodes_job encodes_result
      encodes_letter =
    let w1 = with_job env h fresh q stored w in
    let w2 = dispatched env h fresh q stored k.id order_body w in
    let j = assigned env fresh q stored k.id w in
    let o = ordered env j in
    let x = error_of runners o in
    let known =
      healthy-worker_exists env.engine (env.call (w.calls + 1 + 1)) 15 w.db k (up (w.calls + 1 + 1))
        healthy in
    let ticks : tick env w1 ≡ (w2, ok tt) =
      tick-single env k w.db.jobs (submitted env fresh q stored w) order_body w1 up kafka free known
        refl room refl
        (fetch_healthy-workers env.engine (env.call (w.calls + 1 + 1)) 15 w.db w1.db.jobs ∙ healthy)
        others (rw unlocked refl) encodes_job in
    let there = job_at-appended fresh w.db.jobs j refl free in
    let (sent, answered, settled) =
      execute-handle_result env true k.id runners o w2 j result_body letter_body up kafka
        encodes_result encodes_letter there in
    let w4 =
      (handle_result env true (result_record fresh result_body)
        (execute env k.id runners o w2)).0 in
    let cold = forgotten-cold fresh w4 (
      handle_result-forgets env (result_record fresh result_body)
        (record (report k.id o x) { payload = env.json.compact o.payload })
        (execute env k.id runners o w2) redis
        (env.json.decode-encode_result (report k.id o x) result_body encodes_result)) in
    let row =
      touch (env.call (w2.calls + 1)).now
        (record j { status = if succeeded x then completed else retrying }) in
    let stored_row : job_at fresh w4.db ≡ some row =
      settled
      ∙ ap (λ s. some (touch (env.call (w2.calls + 1)).now (record j { status = s })))
          (first_status x j refl) in
    let seen = get_job_status-cold encode env fresh w4 row up redis cold stored_row in
    rw (submit_job-fresh env h fresh q w stored up redis typed unknown free json) (
      rw ticks (
        rw (handle-taken env k.id j order_body encodes_job)
          (refl, refl, refl, refl, sent, answered, seen.0)))
