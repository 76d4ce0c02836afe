-- ===== src/System/Recovery.antt =====
-- A job of a worker that has fallen silent.
use distributed_job_schedule.Prelude.{Bool, ◌&&◌, List, ◌==◌, any, update}
use distributed_job_schedule.Models.{Uuid, Time, Worker}
use distributed_job_schedule.Repository.Jobs.{is_silent}
use distributed_job_schedule.Repository.Workers.{is_lapsed, lapse}
use distributed_job_schedule.Broker.World.{World}
use distributed_job_schedule.Scheduler.Dispatcher
use distributed_job_schedule.Scheduler.Monitor

-- The worker with the primary key `id` was last heard of more than 15 seconds before `now`.
abbrev pub fell_silent : Time → Uuid → List Worker → Bool
fell_silent now id workers = any (λ k. (k.id == id) && is_silent now 15 k.last_heartbeat) workers

-- The workers behind the first statement of a sweep.
abbrev pub marked : Time → List Worker → List Worker
marked now workers = update (is_lapsed now 15) lapse workers
