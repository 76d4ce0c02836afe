-- ===== src/Scheduler/Monitor.antt =====
-- internal/scheduler/heartbeat_monitor.go.
pub mod Sweep
use distributed_job_schedule.Prelude.{ℕ}
use distributed_job_schedule.Errors.{Result, ok, err}
use distributed_job_schedule.Repository.Jobs.{requeue_stale}
use distributed_job_schedule.Repository.Workers.{mark_unhealthy}
use distributed_job_schedule.Broker.World.{World, Env, query}

abbrev pub stale_seconds : ℕ
stale_seconds = 15

-- The counts are only logged.
abbrev pub forget : Result ℕ → Result (Unit {0})
forget (err x) = err x
forget (ok n) = ok tt

abbrev pub after_requeue : World × Result ℕ → World × Result (Unit {0})
after_requeue r = (r.0, forget r.1)

abbrev pub after_mark : Env → World × Result ℕ → World × Result (Unit {0})
after_mark env (w, err x) = (w, err x)
after_mark env (w, ok unhealthy) = after_requeue (query env (λ c. requeue_stale c stale_seconds) w)

unfoldable pub tick : Env → World → World × Result (Unit {0})
tick env w = after_mark env (query env (λ c. mark_unhealthy c stale_seconds) w)
