-- ===== src/System.antt =====
-- The programs over the one database, Kafka and Redis that they share, as steps on the shared state: a
-- tick or a message of the scheduler, a message of the result collector, a job or a heartbeat of a
-- worker, or a request to the API. A step is a whole handler.
pub mod Handlers
pub mod Reads
pub mod Requests
pub mod Tables
pub mod Retries
pub mod Pipeline
pub mod Rounds
pub mod Recovery
pub mod Logs
pub mod RequestLogs
pub mod Covered
pub mod Sent
pub mod Moments
pub mod Loops
use distributed_job_schedule.Prelude.{String, Bool, Option}
use distributed_job_schedule.Models.{Uuid}
use distributed_job_schedule.Broker.World.{World, Env, KafkaRecord}
use distributed_job_schedule.Scheduler.Dispatcher
use distributed_job_schedule.Scheduler.Monitor
use distributed_job_schedule.Scheduler.Heartbeat
use distributed_job_schedule.Collector.Results.{handle_result}
use distributed_job_schedule.Collector.DeadLetters
use distributed_job_schedule.Worker.{Order, Runner, execute}
use distributed_job_schedule.Worker.Main.{Sample, beat}
use distributed_job_schedule.Api.Router.{Server, HttpRequest, handle_request}

-- The environment answers each call of a program by the number that the call has.
pub data Step (env : Env) (w : World) : World → Type 0 where
  dispatches : Step env w (Dispatcher.tick env w).0
  monitors : Step env w (Monitor.tick env w).0
  hears : (r : KafkaRecord) → Step env w (Heartbeat.handle env r w).0
  collects : (cached : Bool) (r : KafkaRecord) → Step env w (handle_result env cached r w).0
  keeps_letter : (r : KafkaRecord) → Step env w (DeadLetters.handle env r w).0
  executes :
      (me : Uuid) (runners : String → Option Runner) (o : Order)
      → Step env w (execute env me runners o w)
  beats : (me : Uuid) (hostname : String) (x : Sample) → Step env w (beat env me hostname x w)
  answers : (s : Server) (q : HttpRequest) → Step env w (handle_request env s q w).0

pub data Reaches (env : Env) (w : World) : World → Type 0 where
  here : Reaches env w w
  step : (u v : World) → Reaches env w u → Step env u v → Reaches env w v
