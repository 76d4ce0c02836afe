-- ===== src/Scheduler/Main.antt =====
-- The loop of cmd/scheduler/main.go: the election every three seconds, and what ends the program.
pub mod Once
pub mod Shutdown
use distributed_job_schedule.Prelude.{ℕ, ◌+◌, ◌≡◌, Bool, true, false, Option, none, some}
use distributed_job_schedule.Errors.{Result, ok, err}
use distributed_job_schedule.Repository.Database.{Link}
use distributed_job_schedule.Scheduler.Leader.{Conn, Lock, Elector, campaign, resign}
use distributed_job_schedule.Scheduler.Leader.Exclusive.{session_of}

-- The loop goes on, or it has returned from the arm of `ctx.Done` or from that of `loopCtx.Done`.
pub data Phase : Type 0 where
  looping shut_down stopped : Phase

-- `ctx_done` and `loop_done` are the two contexts'; `dispatchers` and `monitors` count the goroutines
-- that were started; `lock` is the lock in PostgreSQL.
pub record Scheduler : Type 0 where
  pub elector : Elector
  pub lock : Lock
  pub running : Bool
  pub dispatchers : ℕ
  pub monitors : ℕ
  pub ctx_done : Bool
  pub loop_done : Bool
  pub phase : Phase

-- The program before the loop, at a lock that another scheduler may hold.
abbrev pub begin : Lock → Scheduler
begin l = record {
  elector = none;
  lock = l;
  running = false;
  dispatchers = 0;
  monitors = 0;
  ctx_done = false;
  loop_done = false;
  phase = looping;
}

-- A signal ends `ctx`, and `loopCtx`, which is its child.
abbrev pub signal : Scheduler → Scheduler
signal s = record s { ctx_done = true; loop_done = true }

-- `cancelLoops`, which the goroutine of the heartbeat consumer calls if its `Run` fails.
abbrev pub cancel_loops : Scheduler → Scheduler
cancel_loops s = record s { loop_done = true }

-- The arm of `ctx.Done`; the error of `Resign` is logged.
abbrev pub on_done : Link → Scheduler → Scheduler
on_done link s =
    let r = resign link s.lock s.elector in
    record (cancel_loops s) { lock = r.0.0; elector = r.0.1; phase = shut_down }

-- The arm of `loopCtx.Done`.
abbrev pub on_loop_done : Scheduler → Scheduler
on_loop_done s = record s { phase = stopped }

abbrev pub after_campaign : (Lock × Elector) × Result Bool → Scheduler → Scheduler
after_campaign (r, err x) s = record s { lock = r.0; elector = r.1 }
after_campaign (r, ok false) s = record s { lock = r.0; elector = r.1 }
after_campaign (r, ok true) s = record s {
  lock = r.0;
  elector = r.1;
  running = true;
  dispatchers = s.dispatchers + 1;
  monitors = s.monitors + 1;
}

abbrev pub unless_running : Bool → Option Conn → Link → Scheduler → Scheduler
unless_running true acquired link s = s
unless_running false acquired link s = after_campaign (campaign acquired link s.lock s.elector) s

-- The arm of the ticker.
unfoldable pub on_tick : Option Conn → Link → Scheduler → Scheduler
on_tick acquired link s = unless_running s.running acquired link s

-- A `select` takes any arm that is ready. Between its turns a signal comes, the heartbeat consumer
-- fails, or others change the lock, which they cannot take from the session of this elector.
pub data Step : Scheduler → Scheduler → Type 0 where
  signals : (s : Scheduler) → Step s (signal s)
  heartbeats_fail : (s : Scheduler) → Step s (cancel_loops s)
  elsewhere :
      (s : Scheduler) (l : Lock)
      → ((c : Conn) → s.elector ≡ some c → session_of l ≡ some c)
      → Step s (record s { lock = l })
  done :
      (s : Scheduler) (link : Link)
      → s.phase ≡ looping
      → s.ctx_done ≡ true
      → Step s (on_done link s)
  loop_done : (s : Scheduler) → s.phase ≡ looping → s.loop_done ≡ true → Step s (on_loop_done s)
  ticks :
      (s : Scheduler) (acquired : Option Conn) (link : Link)
      → s.phase ≡ looping
      → Step s (on_tick acquired link s)

pub data Reaches (s : Scheduler) : Scheduler → Type 0 where
  here : Reaches s s
  step : (t u : Scheduler) → Reaches s t → Step t u → Reaches s u
