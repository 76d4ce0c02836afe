-- ===== src/Collector/Results.antt =====
-- internal/collector/result_collector.go.
pub mod Outcome
pub mod Late
pub mod Last
use distributed_job_schedule.Prelude.{
  ℕ, ◌+◌, Bool, true, false, not, Option, none, some, List, ◌==◌, if◌then◌else◌, select,
}
use distributed_job_schedule.Models.{Uuid, JobStatus, dead, same_job_status}
use distributed_job_schedule.Errors.{Result, ok, err, decode_failure}
use distributed_job_schedule.Repository.Database.{Link, reachable, refused, lost}
use distributed_job_schedule.Repository.Jobs.{mark_completed, mark_failed}
use distributed_job_schedule.Broker.Messages.{Bytes, ResultMessage, Json, topic_dead_letter}
use distributed_job_schedule.Broker.World.{World, Env, KafkaRecord, Metrics, query, tick_call}
use distributed_job_schedule.Broker.Producer.{publish}

abbrev pub max_attempts : ℕ
max_attempts = 3

abbrev pub has_key : Uuid → Uuid × Bytes → Bool
has_key id entry = entry.0 == id

abbrev pub forget_job : Uuid → World → World
forget_job id w = record w { cache = select (λ x. not (has_key id x)) w.cache }

-- `StatusCache.Invalidate`, of which the collector ignores the error.
abbrev pub invalidate : Link → Uuid → World → World
invalidate reachable id w = tick_call (forget_job id w)
invalidate refused id w = tick_call w
invalidate lost id w = tick_call (forget_job id w)

abbrev pub count_metric : (Metrics → Metrics) → World → World
count_metric f w = record w { metrics = f w.metrics }

abbrev pub inc_completed : Metrics → Metrics
inc_completed m = record m { jobs_completed = m.jobs_completed + 1 }

abbrev pub inc_failed : Metrics → Metrics
inc_failed m = record m { jobs_failed = m.jobs_failed + 1 }

abbrev pub inc_retried : Metrics → Metrics
inc_retried m = record m { jobs_retried = m.jobs_retried + 1 }

abbrev pub inc_dead : Metrics → Metrics
inc_dead m = record m { jobs_dead = m.jobs_dead + 1 }

-- Counts a success, and passes an error on.
abbrev pub and_count : (Metrics → Metrics) → World × Result (Unit {0}) → World × Result (Unit {0})
and_count f (w, err x) = (w, err x)
and_count f (w, ok _) = (count_metric f w, ok tt)

abbrev pub after_failed : Env → ResultMessage → World × Result JobStatus → World × Result (Unit {0})
after_failed env m (w, err x) = (w, err x)
after_failed env m (w, ok status) =
    if same_job_status status dead
    then and_count inc_dead (publish env topic_dead_letter m.job_id (env.json.encode_result m) w)
    else (count_metric inc_retried w, ok tt)

-- The body of `HandleResult` behind the decoding, without the deferred invalidation.
unfoldable pub settle : Env → ResultMessage → World → World × Result (Unit {0})
settle env m w =
    if m.success
    then and_count inc_completed (query env (λ c. mark_completed c m.job_id) w)
    else after_failed env m
        (query env (λ c. mark_failed c m.job_id max_attempts) (count_metric inc_failed w))

-- The deferred function runs on every return; `cached` is whether there is a StatusCache.
abbrev pub deferred : Env → Bool → Uuid → World × Result (Unit {0}) → World × Result (Unit {0})
deferred env false id r = r
deferred env true id r = (invalidate (env.redis r.0.calls) id r.0, r.1)

abbrev pub handle_message : Env → Bool → Option ResultMessage → World → World × Result (Unit {0})
handle_message env cached none w = (w, err decode_failure)
handle_message env cached (some m) w = deferred env cached m.job_id (settle env m w)

-- `HandleResult`
unfoldable pub handle_result : Env → Bool → KafkaRecord → World → World × Result (Unit {0})
unfolding settle
handle_result env cached r w = handle_message env cached (env.json.decode_result r.value) w
