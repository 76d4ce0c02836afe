-- ===== src/Worker/Main.antt =====
-- cmd/worker/main.go: its runners and its heartbeats. The gauge `worker_running_jobs` is left out.
pub mod Beats
pub mod Shutdown
use text.Mathlib.Text.{◌==◌ as str_eq}
use Prim.Native.Nat.{◌/◌}
use distributed_job_schedule.Prelude.{
  ℕ, ◌+◌, ◌*◌, String, Bool, true, false, Option, none, some, List, [], ◌∷◌, if◌then◌else◌,
}
use distributed_job_schedule.Prelude.Int.{ℤ, pos}
use distributed_job_schedule.Models.{Uuid, Time, Payload}
use distributed_job_schedule.Errors.{Result}
use distributed_job_schedule.Broker.World.{World, Env}
use distributed_job_schedule.Worker.{Runner, send_heartbeat}

-- `m.Alloc / 1024 / 1024` in hundredths, as the column keeps it: rounded, halves up.
abbrev pub memory_of : ℕ → ℕ
memory_of alloc = (alloc * 100 + 524_288) / 1_048_576

-- What the closure `sendHeartbeat` reads: the clock, `m.Alloc` and `executor.RunningJobs()`.
pub record Sample : Type 0 where
  pub now : Time
  pub alloc : ℕ
  pub running_jobs : ℤ

-- `sendHeartbeat`; the error is logged.
unfoldable pub beat : Env → Uuid → String → Sample → World → World
unfolding send_heartbeat
beat env me hostname x w =
    (send_heartbeat env me hostname x.now (pos 0) (pos (memory_of x.alloc)) x.running_jobs w).0

-- The goroutine: one heartbeat at once, and one for each tick until the context is done.
unfoldable pub beats : Env → Uuid → String → Sample → List Sample → World → World
unfolding beat
beats env me hostname x [] w = beat env me hostname x w
beats env me hostname x (y ∷ ticks) w = beats env me hostname y ticks (beat env me hostname x w)

-- `EchoRunner.Run`
abbrev pub echo_runner : Runner
echo_runner payload = none

-- What `json.Unmarshal` makes of a payload: the text of its error, or the field `duration`, which is empty
-- if it is not there.
pub data Decoded : Type 0 where
  refused duration : String → Decoded

-- `parse_duration` is `time.ParseDuration` in nanoseconds; `ended` is whether the context is done before
-- so many have passed.
module _ (decode : Payload → Decoded) (parse_duration : String → Option ℤ) (ended : ℤ → Bool) where
  abbrev pub or_two_seconds : Option ℤ → ℤ
  or_two_seconds none = pos 2_000_000_000
  or_two_seconds (some d) = d

  abbrev pub sleep : ℤ → Option String
  sleep d = if ended d then some "context canceled" else none

  abbrev pub sleep_decoded : Decoded → Option String
  sleep_decoded (refused error) = some error
  sleep_decoded (duration text) = sleep (or_two_seconds (parse_duration text))

  -- `SleepRunner.Run`
  abbrev pub sleep_runner : Runner
  sleep_runner payload = sleep_decoded (decode payload)

  -- The map `runners`.
  unfoldable pub runners : String → Option Runner
  runners type =
      if str_eq type "echo"
      then some echo_runner
      else if str_eq type "sleep"
      then some sleep_runner
      else none
