-- ===== src/Tests/Requests.antt =====
-- The theorems on the handlers at small inputs.
use distributed_job_schedule.Prelude.{◌≡◌, refl, true, none, some, [], ◌∷◌}
use distributed_job_schedule.Prelude.Int.{pos}
use distributed_job_schedule.Strings.{codes}
use distributed_job_schedule.Repository.Database.{refused}
use distributed_job_schedule.Repository.DeadLetters.{letter_at, replayed}
use distributed_job_schedule.Broker.World.{World, Env}
use distributed_job_schedule.Api.{error, reply}
use distributed_job_schedule.Api.Replay.{replay}
use distributed_job_schedule.Api.Replay.Once.{replay_lem}
use distributed_job_schedule.Api.Submit.{cancel_job, Hasher, Request, submit_job}
use distributed_job_schedule.Api.Submit.Idempotent.{submit_job-duplicate, submit_job-stuck}
use distributed_job_schedule.Api.Submit.Stored.{submitted, submit_job-get_job_status}
use distributed_job_schedule.Api.Status.{get_job_status, hit}
use distributed_job_schedule.Api.Status.Stale.{get_job_status-stale}
use distributed_job_schedule.Tests.Tables.{tables-IsKeyed}
use distributed_job_schedule.Tests.Instances.{env, world, tables, letter, job_low, call}

replay_example :
    letter_at 70 (replay env (some 70) 800 world).0.db
    ≡ some (record letter {
      status = "REPLAYED";
      replayed_at = some 100_000_000;
      replayed_job_id = some 800;
    })
replay_example =
    (replay_lem env 70 800 world letter letter.payload (λ n. refl) refl refl refl refl).2

abbrev replayed_world : World
replayed_world = record world { db = record tables { letters = replayed 1 800 letter ∷ [] } }

abbrev hasher : Hasher
hasher = record { digest = λ bytes. "digest"; bytes_of = λ s. []; prefixed = λ s. s }

abbrev request : Request
request = record { type = "echo"; payload = b'1' ∷ []; priority = pos 0; header = "key" }

abbrev known : World
known = record world { keys = ("key", record { job_id = 1; payload_hash = "digest" }) ∷ [] }

-- The type "e" with the payload "cho1" has the bytes of the type "echo" with the payload "1".
abbrev reading : Hasher
reading = record { digest = λ bytes. "digest"; bytes_of = codes; prefixed = λ s. s }

abbrev moved_request : Request
moved_request = record request { type = "e"; payload = b'c' ∷ b'h' ∷ b'o' ∷ b'1' ∷ [] }

submit_job-duplicate_example :
    (submit_job env reading true 800 (some moved_request) known).1 ≡ reply 200 job_low
submit_job-duplicate_example =
    (submit_job-duplicate env reading 800 request moved_request known
      (record { job_id = 1; payload_hash = "digest" }) job_low (λ n. refl) (λ n. refl) refl refl
      refl refl refl refl).0

abbrev env_refusing : Env
env_refusing = record env { call = λ n. record (call n) { link = refused } }

abbrev stuck : World
stuck = record world { keys = ("key", record { job_id = 800; payload_hash = "digest" }) ∷ [] }

submit_job-stuck_example :
    (submit_job env hasher true 801 (some request) stuck).1
    ≡ error 500 "failed to fetch existing job"
submit_job-stuck_example =
    (submit_job-stuck env hasher 801 request stuck
      (record { job_id = 800; payload_hash = "digest" }) (λ n. refl) refl refl refl refl).0

get_job_status-stale_example :
    let first = (get_job_status (λ r. some []) env true (some 1) world).0 in
    let cancelled = (cancel_job env (some 1) first).0 in
    (get_job_status (λ r. some []) env true (some 1) cancelled).1 ≡ reply 200 (hit [])
get_job_status-stale_example =
    (get_job_status-stale (λ r. some []) env 1 world job_low [] (λ n. refl) (λ n. refl)
      tables-IsKeyed refl refl refl refl).3

abbrev stored_request : Request
stored_request = record request { payload = b'1' ∷ [] }

submit_job-get_job_status_example :
    (submit_job env hasher true 801
      (some stored_request)
      (get_job_status
        (λ r. none)
        env
        true
        (some 800)
        (submit_job env hasher true 800 (some stored_request) world).0).0).1
    ≡ reply 200 (submitted env 800 stored_request (b'1' ∷ []) world)
submit_job-get_job_status_example =
    (submit_job-get_job_status (λ r. none) env hasher 800 801 stored_request world (b'1' ∷ [])
      (λ n. refl) (λ n. refl) refl refl refl refl refl).3
