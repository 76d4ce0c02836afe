-- ===== src/System/Loops.antt =====
-- The scheduler's loops as steps of the system.
use distributed_job_schedule.Prelude.{List, [], ◌∷◌}
use distributed_job_schedule.Broker.World.{World, Env}
use distributed_job_schedule.Scheduler.Dispatcher
use distributed_job_schedule.Scheduler.Monitor
use distributed_job_schedule.Scheduler.Loops.{Arm, done, ticks, dispatcher_run, monitor_run}
use distributed_job_schedule.System.{dispatches, monitors, Reaches, step}

-- What the other programs do between two ticks are steps of the system.
abbrev pub AreSteps : Env → List Arm → Type 0
AreSteps env [] = Unit
AreSteps env (done ∷ arms) = Unit
AreSteps env (ticks meanwhile ∷ arms) =
    ((u w : World) → Reaches env u w → Reaches env u (meanwhile w)) × AreSteps env arms

pub dispatcher_run-Reaches :
    (env : Env) (arms : List Arm) (u w : World)
    → AreSteps env arms
    → Reaches env u w
    → Reaches env u (dispatcher_run env arms w)
unfolding dispatcher_run
dispatcher_run-Reaches env [] u w a r = r
dispatcher_run-Reaches env (done ∷ arms) u w a r = r
dispatcher_run-Reaches env (ticks meanwhile ∷ arms) u w (m, a) r =
    dispatcher_run-Reaches env arms u (Dispatcher.tick env (meanwhile w)).0 a
      (step (meanwhile w) (Dispatcher.tick env (meanwhile w)).0 (m u w r) dispatches)

pub monitor_run-Reaches :
    (env : Env) (arms : List Arm) (u w : World)
    → AreSteps env arms
    → Reaches env u w
    → Reaches env u (monitor_run env arms w)
unfolding monitor_run
monitor_run-Reaches env [] u w a r = r
monitor_run-Reaches env (done ∷ arms) u w a r = r
monitor_run-Reaches env (ticks meanwhile ∷ arms) u w (m, a) r =
    monitor_run-Reaches env arms u (Monitor.tick env (meanwhile w)).0 a
      (step (meanwhile w) (Monitor.tick env (meanwhile w)).0 (m u w r) monitors)
