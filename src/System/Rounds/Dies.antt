-- ===== src/System/Rounds/Dies.antt =====
-- A job whose runner always fails, to its end.
use distributed_job_schedule.Broker.World.{World}
use distributed_job_schedule.Collector.DeadLetters as Letters
