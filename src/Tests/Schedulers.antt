-- ===== src/Tests/Schedulers.antt =====
-- The theorems on the programs as wholes at small inputs.
use distributed_job_schedule.Prelude.{
  ℕ, ◌≡◌, ◌≢◌, ◌⊎◌, refl, ap, true, false, none, some, List, [], ◌∷◌, if◌then◌else◌, ◌==◌, arith,
  count,
}
use distributed_job_schedule.Prelude.Int.{pos}
use distributed_job_schedule.Errors.{ok}
use distributed_job_schedule.Repository.Database.{no_rows, reachable}
use distributed_job_schedule.Repository.Jobs.{job_at}
use distributed_job_schedule.Broker.Messages.{Bytes, topic_jobs}
use distributed_job_schedule.Broker.World.{World, KafkaRecord}
use distributed_job_schedule.Broker.Consumer.{Round, fetched, accepted, failed, run}
use distributed_job_schedule.Strings.{codes, atoi, split}
use distributed_job_schedule.Config.{Environ, Config, load}
use distributed_job_schedule.Migrate
use distributed_job_schedule.Migrate.{
  Migrator, no_change, changed, version_is, printed, none_to_apply, complete,
}
use distributed_job_schedule.Migrate.Commands.{IsOfCommand, run-schema}
use distributed_job_schedule.Scheduler.Dispatcher
use distributed_job_schedule.Scheduler.Heartbeat.{handle}
use distributed_job_schedule.Scheduler.Leader.{Conn, campaign}
use distributed_job_schedule.Scheduler.Main
use distributed_job_schedule.Scheduler.Main.{
  Scheduler, begin, on_tick, on_loop_done, signal, looping,
}
use distributed_job_schedule.Scheduler.Main.Once.{IsOnce, Reaches-IsOnce}
use distributed_job_schedule.Scheduler.Main.Shutdown.{signal-keeps}
use distributed_job_schedule.System
use distributed_job_schedule.System.Tables.{IsLater, Reaches-IsLater}
use distributed_job_schedule.Worker.{Order}
use distributed_job_schedule.Worker as Jobs
use distributed_job_schedule.Worker.Main.{Sample, beat}
use distributed_job_schedule.Worker.Main.Beats.{heartbeat_record, beat-handle, beat-large_memory}
use distributed_job_schedule.Worker.Orders.{received}
use distributed_job_schedule.Worker.Pool
use distributed_job_schedule.Worker.Pool.{Pool, start}
use distributed_job_schedule.Worker.Pool.Finishes.{left, Reaches-finishes, received-over}
use distributed_job_schedule.Tests.Instances.{env, json, world, job_low}
use distributed_job_schedule.Tests.Tables.{tables-IsValid}

abbrev dispatched : World
dispatched = (Dispatcher.tick env world).0

dispatched_reached : System.Reaches env world dispatched
dispatched_reached = System.step world dispatched System.here System.dispatches

Reaches-IsLater_example : IsLater job_low (job_at 1 dispatched.db)
Reaches-IsLater_example =
    Reaches-IsLater env world dispatched 1 job_low tables-IsValid refl dispatched_reached

abbrev empty_world : World
empty_world = record world { db = no_rows }

abbrev listed : World
listed = (Dispatcher.tick env empty_world).0

listed_reached : System.Reaches env empty_world listed
listed_reached = System.step empty_world listed System.here System.dispatches

abbrev leading : Scheduler
leading = on_tick (some 7) reachable (begin none)

leading_reached : Main.Reaches (begin none) leading
leading_reached =
    Main.step (begin none) leading Main.here (Main.ticks (begin none) (some 7) reachable refl)

Reaches-IsOnce_example : IsOnce leading
Reaches-IsOnce_example = Reaches-IsOnce none leading leading_reached

leading_looping : leading.phase ≡ looping
unfolding on_tick campaign
leading_looping = refl

leading_session : leading.elector ≡ some 7
unfolding on_tick campaign
leading_session = refl

abbrev mine : Conn
mine = 7

abbrev other : Conn
other = 8

apart : mine ≢ other
apart h = omega arith

signal-keeps_example :
    (campaign (some 8) reachable (on_loop_done (signal leading)).lock none).1 ≡ ok false
signal-keeps_example =
    (signal-keeps none leading (on_loop_done (signal leading)) mine other reachable leading_reached
      leading_looping leading_session Main.here apart).4

abbrev order : Order
order = record { id = 3; type = "echo"; payload = []; priority = pos 1; attempts = 1 }

abbrev first : Pool
first = start (order ∷ [])

abbrev taken : Pool
taken = record first { queue = []; hand = Pool.took order }

one_step : Pool.Reaches first taken
one_step = Pool.step first taken Pool.here (Pool.receive first order [])

Reaches-finishes_example :
    ((left taken ≡ 0) × (count (λ o. true) taken.over ≡ 1)) ⊎ ((t : Pool) × Pool.Step taken t)
Reaches-finishes_example = (Reaches-finishes (order ∷ []) taken (λ o. true) one_step).1

abbrev slotted : Pool
slotted = record taken { hand = Pool.slotted order; slots = 1 }

abbrev grouped : Pool
grouped = record slotted { hand = Pool.grouped order; group = 1 }

abbrev counted : Pool
counted = record grouped { hand = Pool.counted order; running_count = 1 }

abbrev executing : Pool
executing = record counted { hand = Pool.free; executing = order ∷ [] }

abbrev released : Pool
released = record executing { executing = []; released = order ∷ []; slots = 0 }

abbrev leaving : Pool
leaving = record released { released = []; leaving = order ∷ []; group = 0 }

abbrev over : Pool
over = record leaving { leaving = []; over = order ∷ []; running_count = 0 }

five_steps : Pool.Reaches first executing
five_steps =
    Pool.step counted executing
      (Pool.step grouped counted
        (Pool.step slotted grouped
          (Pool.step taken slotted one_step (Pool.acquire taken order (omega arith)))
          (Pool.join slotted order))
        (Pool.increment grouped order))
      (Pool.spawn counted order)

eight_steps : Pool.Reaches first over
eight_steps =
    Pool.step leaving over
      (Pool.step released leaving
        (Pool.step executing released five_steps (Pool.release executing [] [] order))
        (Pool.finish released [] [] order))
      (Pool.decrement leaving [] [] order)

abbrev order_record : KafkaRecord
order_record = record { topic = topic_jobs; key = 50; value = 3 ∷ 50 ∷ 1 ∷ 1 ∷ [] }

abbrev rounds : List Round
rounds = record { fetch = fetched order_record; commit = accepted } ∷ []

received-over_example :
    count (λ o. true) over.over
    ≡ count (λ o. true) (received json 50 (run (Jobs.handle json 50 false) rounds []).1)
unfolding run Jobs.handle
received-over_example = received-over json 50 rounds over (λ o. true) eight_steps refl

abbrev small : Sample
small = record { now = 5; alloc = 10_485_760; running_jobs = pos 1 }

abbrev body : Bytes
body = 50 ∷ 0 ∷ 1000 ∷ 1 ∷ 5 ∷ []

beat-handle_example :
    (handle env (heartbeat_record 50 body) (beat env 50 "node" small world)).1 ≡ ok tt
beat-handle_example =
    (beat-handle env 50 "node" small world body 15 refl refl refl (omega arith) refl
      (omega arith)).1

abbrev large : Sample
large = record { now = 5; alloc = 1_048_576_000; running_jobs = pos 1 }

abbrev large_body : Bytes
large_body = 50 ∷ 0 ∷ 100_000 ∷ 1 ∷ 5 ∷ []

beat-large_memory_example :
    (run
      (handle env)
      (record { fetch = fetched (heartbeat_record 50 large_body); commit = accepted } ∷ [])
      (beat env 50 "node" large world)).2
    ≡ failed
beat-large_memory_example =
    ap (λ o. o.2)
      (beat-large_memory env 50 "node" large world large_body accepted [] refl refl (omega arith))

-- A migrator with two migrations, which can be forced to no version above them.
abbrev migrator : Migrator ℕ
migrator = record {
  parses = λ dsn. true;
  has_driver = λ s. true;
  opens = λ path s. true;
  up = λ s. (2, if s == 2 then no_change else changed);
  down = λ s. (0, if s == 0 then no_change else changed);
  force = λ n s. (s, Migrate.failed);
  version = λ s. version_is s false;
}

abbrev environ : Environ
environ name = codes "1"

abbrev config : Config
config = record {
  postgres_dsn = codes "1";
  http_port = pos 1;
  kafka_brokers = codes "1" ∷ [];
  redis_addr = codes "1";
  api_key = codes "1";
}

run-schema_example :
    IsOfCommand migrator
      (codes "down" ∷ [])
      2
      (Migrate.run migrator environ (codes "down" ∷ []) 2).0
run-schema_example = run-schema migrator environ (codes "down" ∷ []) 2

loads : load environ ≡ ok config
unfolding load atoi split
loads = refl

one : atoi (codes "1") ≡ some (pos 1)
unfolding atoi
one = refl
