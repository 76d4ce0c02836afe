-- ===== src/Scheduler/Leader.antt =====
-- internal/scheduler/leader.go: the election by an advisory lock of PostgreSQL.
pub mod Exclusive
use distributed_job_schedule.Prelude.{
  ℕ, ◌+◌, ◌-◌, Bool, true, false, Option, none, some, ◌==◌, if◌then◌else◌, leb,
}
use distributed_job_schedule.Errors.{Result, ok, err, db_failure}
use distributed_job_schedule.Repository.Database.{Link, reachable, refused, lost}

-- A connection, which is a session of PostgreSQL.
abbrev pub Conn : Type 0
Conn = ℕ

-- The lock with the number `schedulerLockID`: the session that holds it, and how many times.
pub record Held : Type 0 where
  pub session : Conn
  pub times : ℕ

abbrev pub Lock : Type 0
Lock = Option Held

-- `pg_try_advisory_lock`: a session may take its own lock again.
abbrev pub try_lock : Conn → Lock → Lock × Bool
try_lock c none = (some (record { session = c; times = 1 }), true)
try_lock c (some h) =
    if h.session == c then (some (record h { times = h.times + 1 }), true) else (some h, false)

-- `pg_advisory_unlock`
abbrev pub unlock : Conn → Lock → Lock
unlock c none = none
unlock c (some h) =
    if h.session == c
    then (if leb h.times 1 then none else some (record h { times = h.times - 1 }))
    else some h

-- `LeaderElector.conn`, and the answer of a call.
abbrev pub Elector : Type 0
Elector = Option Conn

abbrev pub after_lock : Conn → Lock × Bool → (Lock × Elector) × Result Bool
after_lock c (l, true) = ((l, some c), ok true)
after_lock c (l, false) = ((l, none), ok false)

-- The query over a connection that holds, is refused, or is lost behind the statement.
abbrev pub try_over : Link → Conn → Lock → (Lock × Elector) × Result Bool
try_over reachable c l = after_lock c (try_lock c l)
try_over refused c l = ((l, none), err db_failure)
try_over lost c l = (((try_lock c l).0, none), err db_failure)

abbrev pub with_conn : Option Conn → Link → Lock → (Lock × Elector) × Result Bool
with_conn none link l = ((l, none), err db_failure)
with_conn (some c) link l = try_over link c l

-- `Campaign`; `acquired` is what the pool gives.
unfoldable pub campaign : Option Conn → Link → Lock → Elector → (Lock × Elector) × Result Bool
campaign acquired link l (some c) = ((l, some c), ok true)
campaign acquired link l none = with_conn acquired link l

-- `Isleader`
abbrev pub is_leader : Elector → Bool
is_leader none = false
is_leader (some c) = true

abbrev pub unlock_over : Link → Conn → Lock → Lock × Result (Unit {0})
unlock_over reachable c l = (unlock c l, ok tt)
unlock_over refused c l = (l, err db_failure)
unlock_over lost c l = (unlock c l, err db_failure)

-- `Resign`: the connection goes back to the pool, also when the statement fails.
unfoldable pub resign : Link → Lock → Elector → (Lock × Elector) × Result (Unit {0})
resign link l none = ((l, none), ok tt)
resign link l (some c) = let r = unlock_over link c l in ((r.0, none), r.1)
