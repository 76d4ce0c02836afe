-- ===== src/Tests/Workers.antt =====
-- The theorems on the worker and on the election at small inputs.
use distributed_job_schedule.Prelude.{
  ℕ, ◌≡◌, refl, String, true, Option, some, List, [], ◌∷◌, arith,
}
use distributed_job_schedule.Prelude.Int.{pos}
use distributed_job_schedule.Repository.Database.{reachable}
use distributed_job_schedule.Broker.Messages.{topic_jobs}
use distributed_job_schedule.Broker.World.{KafkaRecord}
use distributed_job_schedule.Broker.Consumer.{Round, fetched, accepted, Fetch}
use distributed_job_schedule.Worker.{Order, Runner}
use distributed_job_schedule.Worker.Pool
use distributed_job_schedule.Worker.Pool.{
  Pool, IsSafe, start, Reaches, here, step, receive, acquire, join, increment, spawn, release,
  finish, Reaches-IsSafe, Reaches-wait,
}
use distributed_job_schedule.Scheduler.Leader
use distributed_job_schedule.Scheduler.Leader.Exclusive
use distributed_job_schedule.Scheduler.Leader.Exclusive.{
  Electors, at_first, campaign_at, ends, Reaches-one_leader, ends-two_leaders,
}
use distributed_job_schedule.Scheduler.Leader.{is_leader}

abbrev order : Order
order = record { id = 3; type = "echo"; payload = []; priority = pos 1; attempts = 1 }

-- A runner of the jobs "echo" that always fails.
abbrev runners : String → Option Runner
runners type = some (λ payload. some "boom")

abbrev order_record : KafkaRecord
order_record = record { topic = topic_jobs; key = 50; value = 3 ∷ 50 ∷ 1 ∷ 1 ∷ [] }

abbrev rounds : List Round
rounds =
    record { fetch = fetched order_record; commit = accepted }
    ∷ record { fetch = Fetch.canceled; commit = accepted }
    ∷ []

abbrev first : Pool
first = start (order ∷ [])

abbrev taken : Pool
taken = record first { queue = []; hand = Pool.took order }

one_step : Pool.Reaches first taken
one_step = Pool.step first taken Pool.here (Pool.receive first order [])

Reaches-IsSafe_example : IsSafe (order ∷ []) taken
Reaches-IsSafe_example = Reaches-IsSafe (order ∷ []) taken one_step

abbrev led : Electors
led = campaign_at 1 (some 7) reachable at_first

led_reached : Exclusive.Reaches at_first led
led_reached =
    Exclusive.step at_first led Exclusive.here
      (Exclusive.campaigns at_first 1 (some 7) reachable (λ k c h. ground arith))

led_by_one : is_leader (led.elector 1) ≡ true
unfolding Leader.campaign
led_by_one = refl

abbrev leader : ℕ
leader = 1

Reaches-one_leader_example : leader ≡ leader
Reaches-one_leader_example = Reaches-one_leader led leader leader led_reached led_by_one led_by_one

led_session : led.elector 1 ≡ some 7
unfolding Leader.campaign
led_session = refl
