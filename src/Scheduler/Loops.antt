-- ===== src/Scheduler/Loops.antt =====
-- The loops `Run` of internal/scheduler/dispatcher.go and heartbeat_monitor.go.
use distributed_job_schedule.Prelude.{List, [], ◌∷◌}
use distributed_job_schedule.Errors.{Result}
use distributed_job_schedule.Broker.World.{World, Env}
use distributed_job_schedule.Scheduler.Dispatcher
use distributed_job_schedule.Scheduler.Monitor

-- The arm of the select that is taken: the context is done, or the ticker has fired. What other programs
-- have made of the shared state since the last tick is `meanwhile`.
pub data Arm : Type 0 where
  done : Arm
  ticks : (meanwhile : World → World) → Arm

-- The error of a tick is logged, and the loop goes on.
abbrev loop : (World → World × Result (Unit {0})) → List Arm → World → World
loop tick [] w = w
loop tick (done ∷ arms) w = w
loop tick (ticks meanwhile ∷ arms) w = loop tick arms (tick (meanwhile w)).0

-- `Dispatcher.Run`
unfoldable pub dispatcher_run : Env → List Arm → World → World
dispatcher_run env = loop (Dispatcher.tick env)

-- `HeartbeatMonitor.Run`
unfoldable pub monitor_run : Env → List Arm → World → World
monitor_run env = loop (Monitor.tick env)
