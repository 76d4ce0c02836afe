-- ===== src/Scheduler/Main/Once.antt =====
-- What the scheduler's loop has started.
use distributed_job_schedule.Prelude.{
  ℕ, ◌≡◌, refl, ap, ◌∙◌, inl, inr, Bool, true, false, Option, none, some, arith, Option-cases,
  Bool-cases,
}
use distributed_job_schedule.Errors.{Result, ok, err}
use distributed_job_schedule.Repository.Database.{Link, reachable, refused, lost}
use distributed_job_schedule.Scheduler.Leader.{Conn, Lock, Elector, campaign, resign, is_leader}
use distributed_job_schedule.Scheduler.Leader.Exclusive.{session_of}
use distributed_job_schedule.Scheduler.Main.{
  Scheduler, Phase, looping, shut_down, stopped, after_campaign, Step, signals, heartbeats_fail,
  elsewhere, done, loop_done, ticks, Reaches, here, step, begin, on_tick,
}

abbrev pub started : Bool → ℕ
started true = 1
started false = 0

-- What the elector has in a phase.
abbrev pub leads_in : Phase → Bool → Bool
leads_in shut_down running = false
leads_in looping running = running
leads_in stopped running = running

pub record IsOnce (s : Scheduler) : Type 0 where
  pub dispatchers_once : s.dispatchers ≡ started s.running
  pub monitors_once : s.monitors ≡ started s.running
  pub leads : is_leader s.elector ≡ leads_in s.phase s.running
  pub locked : (c : Conn) → s.elector ≡ some c → session_of s.lock ≡ some c

abbrev granted : Result Bool → Bool
granted (ok b) = b
granted (err x) = false

campaign-granted :
    (acquired : Option Conn) (link : Link) (l : Lock)
    → let r = campaign acquired link l none in
      (is_leader r.0.1 ≡ granted r.1) × ((c : Conn) → r.0.1 ≡ some c → session_of r.0.0 ≡ some c)
unfolding campaign
campaign-granted none link l = (refl, λ c h. ground arith)
campaign-granted (some d) refused l = (refl, λ c h. ground arith)
campaign-granted (some d) lost l = (refl, λ c h. ground arith)
campaign-granted (some d) reachable none = (refl, λ c h. ground arith)
campaign-granted (some d) reachable (some h) = (ground arith, λ c h. ground arith)

after_campaign-IsOnce :
    (s : Scheduler) (r : (Lock × Elector) × Result Bool)
    → s.phase ≡ looping
    → s.running ≡ false
    → (is_leader r.0.1 ≡ granted r.1) × ((c : Conn) → r.0.1 ≡ some c → session_of r.0.0 ≡ some c)
    → IsOnce s
    → IsOnce (after_campaign r s)
after_campaign-IsOnce s (r, err x) p e h i = record {
  dispatchers_once = i.dispatchers_once;
  monitors_once = i.monitors_once;
  leads = rw (p, e) (h.0);
  locked = h.1;
}
after_campaign-IsOnce s (r, ok false) p e h i = record {
  dispatchers_once = i.dispatchers_once;
  monitors_once = i.monitors_once;
  leads = rw (p, e) (h.0);
  locked = h.1;
}
after_campaign-IsOnce s (r, ok true) p e h i = record {
  dispatchers_once = ground (arith, i.dispatchers_once);
  monitors_once = ground (arith, i.monitors_once);
  leads = rw p (h.0);
  locked = h.1;
}

on_tick-IsOnce :
    (s : Scheduler) (acquired : Option Conn) (link : Link)
    → s.phase ≡ looping
    → IsOnce s
    → IsOnce (on_tick acquired link s)
unfolding on_tick
on_tick-IsOnce s acquired link p i = elim (Bool-cases s.running) [
  | inl e ↦ simp e i
  | inr e ↦ elim (Option-cases s.elector) [
    | inl f ↦
        simp (e, f)
          (after_campaign-IsOnce s (campaign acquired link s.lock none) p e
            (campaign-granted acquired link s.lock) i)
    | inr (c, f) ↦ absurd (ground (arith, i.leads))
  ]
]

pub resign-elector : (link : Link) (l : Lock) (e : Elector) → (resign link l e).0.1 ≡ none
unfolding resign
resign-elector link l none = refl
resign-elector link l (some c) = refl

pub step-IsOnce : (s t : Scheduler) → Step s t → IsOnce s → IsOnce t
step-IsOnce s t (signals u) i = record {
  dispatchers_once = i.dispatchers_once;
  monitors_once = i.monitors_once;
  leads = i.leads;
  locked = i.locked;
}
step-IsOnce s t (heartbeats_fail u) i = record {
  dispatchers_once = i.dispatchers_once;
  monitors_once = i.monitors_once;
  leads = i.leads;
  locked = i.locked;
}
step-IsOnce s t (elsewhere u l keeps) i = record {
  dispatchers_once = i.dispatchers_once;
  monitors_once = i.monitors_once;
  leads = i.leads;
  locked = keeps;
}
step-IsOnce s t (done u link p d) i =
    let out = resign-elector link u.lock u.elector in
    record {
      dispatchers_once = i.dispatchers_once;
      monitors_once = i.monitors_once;
      leads = rw out refl;
      locked = λ c h. ground (arith, out);
    }
step-IsOnce s t (loop_done u p d) i = record {
  dispatchers_once = i.dispatchers_once;
  monitors_once = i.monitors_once;
  leads = i.leads ∙ ap (λ v. leads_in v u.running) p;
  locked = i.locked;
}
step-IsOnce s t (ticks u acquired link p) i = on_tick-IsOnce u acquired link p i

begin-IsOnce : (l : Lock) → IsOnce (begin l)
begin-IsOnce l = record {
  dispatchers_once = refl;
  monitors_once = refl;
  leads = refl;
  locked = λ c h. ground arith;
}

-- From any lock, in whatever order signals, failures, ticks and other schedulers come, as long as
-- no session of PostgreSQL ends on its own: one dispatcher and one monitor are started if the
-- elector has led, and none if not; until the loop returns the elector leads exactly if they are
-- started, and behind the arm of `ctx.Done` it does not; and a leader's session has the lock.
pub Reaches-IsOnce : (l : Lock) (s : Scheduler) → Reaches (begin l) s → IsOnce s
Reaches-IsOnce l s here = begin-IsOnce l
Reaches-IsOnce l s (step t u before next) = step-IsOnce t s next (Reaches-IsOnce l t before)
