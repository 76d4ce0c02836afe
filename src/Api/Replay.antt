-- ===== src/Api/Replay.antt =====
-- The handlers of dead letters in internal/api/http/handler/dead_letter_handler.go. An id is
-- what `uuid.Parse` makes of the text in the URL.
pub mod Once
use text.Mathlib.Text.{◌==◌ as str_eq}
use distributed_job_schedule.Prelude.{ℕ, ◌+◌, String, Option, none, some, List, if◌then◌else◌}
use distributed_job_schedule.Prelude.Int.{ℤ, pos}
use distributed_job_schedule.Models.{Uuid, Job, new_job}
use distributed_job_schedule.Errors.{Result, ok, err, not_found}
use distributed_job_schedule.Repository.Database.{DeadLetter}
use distributed_job_schedule.Repository.Jobs
use distributed_job_schedule.Repository.DeadLetters
use distributed_job_schedule.Broker.World.{World, Env, Metrics, query}
use distributed_job_schedule.Api.{Response, error, reply}
use distributed_job_schedule.Api.Paging.{Query, page_limit, page_offset}

abbrev pub answer_get : World × Result DeadLetter → World × Response DeadLetter
answer_get (w, ok letter) = (w, reply 200 letter)
answer_get (w, err not_found) = (w, error 404 "dead letter not found")
answer_get (w, err _) = (w, error 500 "failed to get dead letter")

-- `Get`
unfoldable pub get_letter : Env → Option Uuid → World → World × Response DeadLetter
get_letter env none w = (w, error 400 "invalid dead letter id")
get_letter env (some id) w = answer_get (query env (λ c. DeadLetters.get c id) w)

abbrev pub answer_delete : World × Result (Unit {0}) → World × Response (Unit {0})
answer_delete (w, ok _) = (w, reply 204 tt)
answer_delete (w, err not_found) = (w, error 404 "dead letter not found")
answer_delete (w, err _) = (w, error 500 "failed to delete dead letter")

-- `Delete`
unfoldable pub delete_letter : Env → Option Uuid → World → World × Response (Unit {0})
delete_letter env none w = (w, error 400 "invalid dead letter id")
delete_letter env (some id) w = answer_delete (query env (λ c. DeadLetters.delete c id) w)

abbrev pub inc_replayed : Metrics → Metrics
inc_replayed m = record m { jobs_replayed = m.jobs_replayed + 1 }

abbrev pub after_marked : Uuid → World × Result (Unit {0}) → World × Response Uuid
after_marked created (w, err _) = (w, error 500 "failed to mark dead letter replayed")
after_marked created (w, ok _) = (record w { metrics = inc_replayed w.metrics }, reply 201 created)

abbrev pub after_create : Env → Uuid → World × Result Job → World × Response Uuid
after_create env id (w, err _) = (w, error 500 "failed to replay dead letter")
after_create env id (w, ok created) =
    after_marked created.id (query env (λ c. DeadLetters.mark_replayed c id created.id) w)

-- `fresh` is what `uuid.New` draws for the new job.
abbrev pub after_get : Env → Uuid → Uuid → World × Result DeadLetter → World × Response Uuid
after_get env id fresh (w, err not_found) = (w, error 404 "dead letter not found")
after_get env id fresh (w, err _) = (w, error 500 "failed to get dead letter")
after_get env id fresh (w, ok letter) =
    if str_eq letter.status "REPLAYED"
    then (w, error 409 "dead letter already replayed")
    else after_create env id (
        query env
          (λ c. Jobs.create env.engine c (new_job fresh letter.job_type letter.payload (pos 0))) w)

-- `Replay`
unfoldable pub replay : Env → Option Uuid → Uuid → World → World × Response Uuid
replay env none fresh w = (w, error 400 "invalid dead letter id")
replay env (some id) fresh w = after_get env id fresh (query env (λ c. DeadLetters.get c id) w)

pub record LettersPage : Type 0 where
  pub dead_letters : List DeadLetter
  pub limit : ℤ
  pub offset : ℤ

abbrev pub answer_list : Query → World × Result (List DeadLetter) → World × Response LettersPage
answer_list q (w, err _) = (w, error 500 "failed to list dead letters")
answer_list q (w, ok items) =
    (w, reply 200 (record { dead_letters = items; limit = page_limit q; offset = page_offset q }))

-- `List`
unfoldable pub list_letters : Env → Query → World → World × Response LettersPage
list_letters env q w =
    answer_list q (query env (λ c. DeadLetters.list env.engine c (page_limit q) (page_offset q)) w)
