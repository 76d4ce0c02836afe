-- ===== src/Tests/Pipelines.antt =====
-- The theorems on the way of a job, on consumers and on a worker's end at small inputs.
use distributed_job_schedule.Prelude.{
  ℕ, ◌+◌, ◌≤◌, ◌≡◌, ◌≢◌, inl, refl, true, false, none, List, [], ◌∷◌, arith, length,
}
use distributed_job_schedule.Prelude.Int.{pos, leb_ℤ}
use distributed_job_schedule.Errors.{Result, ok}
use distributed_job_schedule.Broker.World.{World, KafkaRecord}
use distributed_job_schedule.Broker.Consumer.{Round, fetched, accepted, Event, Exit, run}
use distributed_job_schedule.Broker.Consumer.Errors.{Failure}
use distributed_job_schedule.Broker.Consumer.Offsets as Group
use distributed_job_schedule.Broker.Consumer.Offsets.{resume, offset_after, accepted_of}
use distributed_job_schedule.Broker.Consumer.Offsets.Delivered.{Reaches-accepted, Reaches-poisoned}
use distributed_job_schedule.Scheduler.Dispatcher.{capacity}
use distributed_job_schedule.Scheduler.Heartbeat as Beats
use distributed_job_schedule.Worker.{Order}
use distributed_job_schedule.Worker.Main.Shutdown
use distributed_job_schedule.Worker.Main.Shutdown.{
  Process, begin, stop, end, notice, waited, Reaches-drained, Reaches-abandons,
}
use distributed_job_schedule.Worker.Pool
use distributed_job_schedule.Worker.Pool.{Pool, start}
use distributed_job_schedule.Worker.Pool.Counter.{running_jobs, Reaches-overcount}
use distributed_job_schedule.Tests.Instances.{env, world, worker_idle}

abbrev order : Order
order = record { id = 3; type = "echo"; payload = []; priority = pos 1; attempts = 1 }

abbrev jobs : List Order
jobs = order ∷ order ∷ order ∷ order ∷ order ∷ []

Reaches-overcount_example :
    (s : Pool) × Pool.Reaches (start jobs) s
    × (s.executing ≡ [])
    × (s.slots ≡ 0)
    × (s.running_count ≡ length jobs)
    × (leb_ℤ (capacity (record worker_idle { running_jobs = running_jobs s })) (pos 0) ≡ true)
Reaches-overcount_example = Reaches-overcount jobs worker_idle (omega arith)

abbrev stopping : Process
stopping = waited (notice (stop (begin jobs)))

stopping_reached : Shutdown.Reaches (begin jobs) stopping
stopping_reached =
    Shutdown.step (notice (stop (begin jobs))) stopping
      (Shutdown.step (stop (begin jobs)) (notice (stop (begin jobs)))
        (Shutdown.step (begin jobs) (stop (begin jobs)) Shutdown.here (Shutdown.stops refl))
        (Shutdown.notices refl refl refl refl))
      (Shutdown.waits refl refl refl)

Reaches-drained_example : stopping.pool.executing ≡ []
Reaches-drained_example = (Reaches-drained jobs stopping stopping_reached refl).0

-- One job executes.
abbrev t1 : Pool
t1 = record (start (order ∷ [])) { queue = []; hand = Pool.took order }

abbrev t2 : Pool
t2 = record t1 { hand = Pool.slotted order; slots = 1 }

abbrev t3 : Pool
t3 = record t2 { hand = Pool.grouped order; group = 1 }

abbrev t4 : Pool
t4 = record t3 { hand = Pool.counted order; running_count = 1 }

abbrev t5 : Pool
t5 = record t4 { hand = Pool.free; executing = order ∷ [] }

abbrev at : Pool → Process
at s = record (begin (order ∷ [])) { pool = s }

works :
    (s t : Pool)
    → Shutdown.Reaches (begin (order ∷ [])) (at s)
    → Pool.Step s t
    → Shutdown.Reaches (begin (order ∷ [])) (at t)
works s t r next = Shutdown.step (at s) (at t) r (Shutdown.works t refl next (inl refl))

executing_reached : Shutdown.Reaches (begin (order ∷ [])) (at t5)
executing_reached =
    works t4 t5
      (works t3 t4
        (works t2 t3
          (works t1 t2 (works (start (order ∷ [])) t1 Shutdown.here (Pool.receive t1 order []))
            (Pool.acquire t1 order (omega arith)))
          (Pool.join t2 order))
        (Pool.increment t3 order))
      (Pool.spawn t4 order)

-- A heartbeat that is no JSON, and a good one.
abbrev bad : KafkaRecord
bad = record { topic = "heartbeats"; key = 50; value = [] }

abbrev good : KafkaRecord
good = record { topic = "heartbeats"; key = 50; value = 50 ∷ 1 ∷ 2 ∷ 0 ∷ 7 ∷ [] }

abbrev rounds : List Round
rounds =
    record { fetch = fetched good; commit = accepted }
    ∷ record { fetch = fetched bad; commit = accepted }
    ∷ []

abbrev partition : List KafkaRecord
partition = good ∷ bad ∷ good ∷ []

abbrev heard : World × List Event × Exit
heard = run (Beats.handle env) rounds world

heard_reached :
    Group.Reaches
      (Beats.handle env)
      partition
      world
      (offset_after 0 none heard.1)
      heard.0
      (accepted_of heard.1)
heard_reached = Group.started none world [] Group.here rounds (refl, (refl, tt))

Reaches-accepted_example : resume (offset_after 0 none heard.1) ≤ 3
Reaches-accepted_example =
    (Reaches-accepted (Beats.handle env) partition world (offset_after 0 none heard.1) heard.0
      (accepted_of heard.1) heard_reached).0

refuses_bad : (w : World) → (Beats.handle env bad w).1 ≢ ok tt
unfolding Beats.handle
refuses_bad w h = ground arith

Reaches-poisoned_example : resume (offset_after 0 none heard.1) ≤ 1
Reaches-poisoned_example =
    Reaches-poisoned (Beats.handle env) (good ∷ []) (good ∷ []) bad world
      (offset_after 0 none heard.1) heard.0 (accepted_of heard.1) refuses_bad heard_reached

-- `context.Canceled`
abbrev canceled : Failure
canceled = record { is_canceled = true; is_deadline = false; temporary = none }

-- A handler that accepts everything and counts.
abbrev count_up : KafkaRecord → ℕ → ℕ × Result (Unit {0})
count_up r n = (n + 1, ok tt)
