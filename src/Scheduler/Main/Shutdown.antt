-- ===== src/Scheduler/Main/Shutdown.antt =====
-- What the scheduler's loop leaves when it returns.
use distributed_job_schedule.Prelude.{◌≡◌, ◌≢◌, refl, true, false, none, some, arith}
use distributed_job_schedule.Errors.{ok}
use distributed_job_schedule.Repository.Database.{Link, reachable}
use distributed_job_schedule.Scheduler.Leader.{Conn, Lock, Elector, campaign}
use distributed_job_schedule.Scheduler.Leader.Exclusive.{session_of}
use distributed_job_schedule.Scheduler.Main.{
  Scheduler, looping, stopped, on_done, on_loop_done, signal, Step, signals, heartbeats_fail,
  elsewhere, done, loop_done, ticks, Reaches, here, step, begin,
}
use distributed_job_schedule.Scheduler.Main.Once.{
  IsOnce, step-IsOnce, Reaches-IsOnce, resign-elector,
}

run-IsOnce : (s t : Scheduler) → Reaches s t → IsOnce s → IsOnce t
run-IsOnce s t here i = i
run-IsOnce s t (step u v before next) i = step-IsOnce u t next (run-IsOnce s u before i)

abbrev IsStopped : Elector → Scheduler → Type 0
IsStopped e s = (s.phase ≡ stopped) × (s.elector ≡ e)

step-IsStopped : (e : Elector) (s t : Scheduler) → Step s t → IsStopped e s → IsStopped e t
step-IsStopped e s t (signals u) h = h
step-IsStopped e s t (heartbeats_fail u) h = h
step-IsStopped e s t (elsewhere u l keeps) h = h
step-IsStopped e s t (done u link p d) h = absurd (ground arith)
step-IsStopped e s t (loop_done u p d) h = (refl, h.1)
step-IsStopped e s t (ticks u acquired link p) h = absurd (ground arith)

run-IsStopped : (e : Elector) (s t : Scheduler) → Reaches s t → IsStopped e s → IsStopped e t
run-IsStopped e s t here h = h
run-IsStopped e s t (step u v before next) h =
    step-IsStopped e u t next (run-IsStopped e s u before h)

campaign-turned_down :
    (d c : Conn) (l : Lock)
    → session_of l ≡ some c
    → c ≢ d
    → (campaign (some d) reachable l none).1 ≡ ok false
unfolding campaign
campaign-turned_down d c none h other = ground arith
campaign-turned_down d c (some held) h other = ground arith

-- When `loopCtx` is done while the scheduler leads, as it is once the consumer of heartbeats has failed,
-- the loop may return by the arm of `loopCtx.Done`; whatever comes then, the elector keeps the connection,
-- and a campaign over any other session is turned down.
pub loop_done-keeps :
    (l : Lock) (s t : Scheduler) (c d : Conn)
    → Reaches (begin l) s
    → s.phase ≡ looping
    → s.loop_done ≡ true
    → s.elector ≡ some c
    → Reaches (on_loop_done s) t
    → c ≢ d
    → Step s (on_loop_done s)
      × (t.elector ≡ some c)
      × ((campaign (some d) reachable t.lock none).1 ≡ ok false)
loop_done-keeps l s t c d r p over e later other =
    let stays = run-IsStopped (some c) (on_loop_done s) t later (refl, e) in
    let last = loop_done s p over in
    let i = step-IsOnce s (on_loop_done s) last (Reaches-IsOnce l s r) in
    let j = run-IsOnce (on_loop_done s) t later i in
    (last, stays.1, campaign-turned_down d c t.lock (j.locked c stays.1) other)

-- A scheduler that leads and is told to shut down may return in two ways: by the arm of `ctx.Done`,
-- with the connection given back whatever PostgreSQL answers; or by the arm of `loopCtx.Done`,
-- which is ready too, and then the elector keeps the connection from there on, and a campaign over
-- any other session is turned down. (No session of PostgreSQL ends on its own.)
pub signal-keeps :
    (l : Lock) (s t : Scheduler) (c d : Conn) (link : Link)
    → Reaches (begin l) s
    → s.phase ≡ looping
    → s.elector ≡ some c
    → Reaches (on_loop_done (signal s)) t
    → c ≢ d
    → Step (signal s) (on_done link (signal s))
      × ((on_done link (signal s)).elector ≡ none)
      × Step (signal s) (on_loop_done (signal s))
      × (t.elector ≡ some c)
      × ((campaign (some d) reachable t.lock none).1 ≡ ok false)
signal-keeps l s t c d link r p e later other =
    let told = step s (signal s) r (signals s) in
    let (last, keeps, down) = loop_done-keeps l (signal s) t c d told p refl e later other in
    (done (signal s) link p refl, resign-elector link s.lock s.elector, last, keeps, down)
