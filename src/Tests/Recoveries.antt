-- ===== src/Tests/Recoveries.antt =====
-- A job of a silent worker.
use distributed_job_schedule.Prelude.{some, [], ◌∷◌}
use distributed_job_schedule.Models.{Job, completed}
use distributed_job_schedule.Broker.World.{World}
use distributed_job_schedule.Scheduler.Dispatcher
use distributed_job_schedule.Scheduler.Monitor
use distributed_job_schedule.Tests.Instances.{world, tables, job_low, job_running}

abbrev finished : Job
finished = record job_low { status = completed }

abbrev lost_job : Job
lost_job = record job_running { worker_id = some 51 }

abbrev losing : World
losing = record world { db = record tables { jobs = finished ∷ lost_job ∷ [] } }
