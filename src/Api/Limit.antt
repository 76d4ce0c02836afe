-- ===== src/Api/Limit.antt =====
-- internal/cache/ratelimit.go and internal/api/http/middleware/ratelimit.go. The number of the window
-- is part of a counter's key; that old counters expire is left out.
pub mod Counted
pub mod Forwarded
use Prim.Native.Nat.{◌/◌}
use distributed_job_schedule.Prelude.{
  ℕ, ◌+◌, ◌-◌, String, Bool, true, false, ◌&&◌, Option, none, some, List, [], ◌∷◌, ◌==◌, leb,
  if◌then◌else◌,
}
use distributed_job_schedule.Errors.{Result, ok, err, redis_failure}
use distributed_job_schedule.Repository.Database.{Link, reachable, refused, lost}
use distributed_job_schedule.Strings.{Text, is_empty, same, trim_space, split, split_host_port}
use distributed_job_schedule.Broker.World.{World, Env, Slot, tick_call}

abbrev pub same_slot : Slot → Slot → Bool
same_slot a b = same a.key b.key && a.window == b.window

-- The counter of a slot, 0 if Redis has none.
abbrev pub counter : Slot → List (Slot × ℕ) → ℕ
counter s [] = 0
counter s ((t, n) ∷ rates) = if same_slot t s then n else counter s rates

-- `INCR`
abbrev pub bump : Slot → List (Slot × ℕ) → List (Slot × ℕ)
bump s [] = (s, 1) ∷ []
bump s ((t, n) ∷ rates) = if same_slot t s then (t, n + 1) ∷ rates else (t, n) ∷ bump s rates

abbrev bumped : Slot → World → World
bumped s w = record w { rates = bump s w.rates }

abbrev increment : Link → Slot → World → World × Result ℕ
increment refused s w = (tick_call w, err redis_failure)
increment lost s w = (tick_call (bumped s w), err redis_failure)
increment reachable s w = (tick_call (bumped s w), ok (counter s (bump s w.rates)))

-- NewRateLimiter's limit and window; the window is in seconds.
pub record Limiter : Type 0 where
  pub limit : ℕ
  pub window : ℕ

-- `Expire` of the first request in a window is one more call, whose answer is ignored.
abbrev after_increment : Limiter → World × Result ℕ → World × Result (Bool × ℕ)
after_increment l (w, err x) = (w, err x)
after_increment l (w, ok n) = (if n == 1 then tick_call w else w, ok (leb n l.limit, l.limit - n))

-- `Allow` at a second of the API's clock: whether the request may pass, and how many more may.
unfoldable pub allow : Env → Limiter → ℕ → Text → World → World × Result (Bool × ℕ)
allow env l second key w =
    let slot : Slot = record { key = key; window = second / l.window } in
    after_increment l (increment (env.redis w.calls) slot w)

-- The header X-Forwarded-For and the address of the connection.
pub record Origin : Type 0 where
  pub forwarded_for : Text
  pub remote_addr : Text

abbrev first_of : List Text → Text
first_of [] = []
first_of (p ∷ ps) = p

abbrev host_of : Option Text → Text → Text
host_of none addr = addr
host_of (some host) addr = host

-- `extractIP`
unfoldable pub extract_ip : Origin → Text
extract_ip o =
    if is_empty o.forwarded_for
    then host_of (split_host_port o.remote_addr) o.remote_addr
    else trim_space (first_of (split b',' o.forwarded_for))

-- What `RateLimit` does before the next handler: it may refuse, with a code and a text.
abbrev pub refusal_of : World × Result (Bool × ℕ) → World × Option (ℕ × String)
refusal_of (w, err x) = (w, some (500, "rate limit check failed"))
refusal_of (w, ok (true, remaining)) = (w, none)
refusal_of (w, ok (false, remaining)) = (w, some (429, "rate limit exceeded"))

unfoldable pub rate_limit : Env → Limiter → ℕ → Origin → World → World × Option (ℕ × String)
rate_limit env l second o w = refusal_of (allow env l second (extract_ip o) w)
