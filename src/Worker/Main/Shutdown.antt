-- ===== src/Worker/Main/Shutdown.antt =====
-- How a worker ends: `main` of cmd/worker/main.go with the arm `<-ctx.Done()` of `Executor.Run`, around the
-- goroutines of the pool.
use mathlib.Core.Path.{subst}
use distributed_job_schedule.Prelude.{
  ◌+◌, ◌≡◌, refl, ap, ◌⊎◌, inl, inr, Bool, true, false, List, [], ◌∷◌, ◌++◌, arith, count, length,
}
use distributed_job_schedule.Worker.{Order}
use distributed_job_schedule.Worker.Pool
use distributed_job_schedule.Worker.Pool.{
  Pool, Hand, free, took, slotted, grouped, counted, start, receive, acquire, join, increment,
  spawn, release, finish, decrement, IsSafe, Reaches-IsSafe, Reaches-wait, held,
}

-- `Executor.Run` is in its loop, in `wg.Wait`, or has returned.
pub data Executor : Type 0 where
  looping waiting stopped : Executor

-- `done` is whether the context is done, `ended` whether `main` has returned, and with it the process.
pub record Process : Type 0 where
  pub pool : Pool
  pub executor : Executor
  pub done : Bool
  pub ended : Bool

abbrev pub begin : List Order → Process
begin jobs = record { pool = start jobs; executor = looping; done = false; ended = false }

-- A signal, or `stop` when the consumer of the jobs has failed.
abbrev pub stop : Process → Process
stop p = record p { done = true }

-- The arm `<-ctx.Done()` of the select, which leaves the loop for `wg.Wait`.
abbrev pub notice : Process → Process
notice p = record p { executor = waiting }

-- `wg.Wait` returns, and so does `Executor.Run`.
abbrev pub waited : Process → Process
waited p = record p { executor = stopped }

-- `main` is behind `<-ctx.Done()`.
abbrev pub end : Process → Process
end p = record p { ended = true }

-- A process that has ended makes no step.
pub data Step (p : Process) : Process → Type 0 where
  works :
      (t : Pool)
      → p.ended ≡ false
      → Pool.Step p.pool t
      → (p.executor ≡ looping) ⊎ (t.queue ≡ p.pool.queue)
      → Step p (record p { pool = t })
  stops : p.ended ≡ false → Step p (stop p)
  notices :
      p.ended ≡ false
      → p.executor ≡ looping
      → p.done ≡ true
      → p.pool.hand ≡ free
      → Step p (notice p)
  waits : p.ended ≡ false → p.executor ≡ waiting → p.pool.group ≡ 0 → Step p (waited p)
  ends : p.ended ≡ false → p.done ≡ true → Step p (end p)

pub data Reaches (p : Process) : Process → Type 0 where
  here : Reaches p p
  step : (q r : Process) → Reaches p q → Step q r → Reaches p r

-- No job is between the channel and the end of its run.
IsDrained : Pool → Type 0
IsDrained s = (s.hand ≡ free) × (s.executing ≡ []) × (s.released ≡ [])

not_empty : (xs ys : List Order) (o : Order) → xs ++ o ∷ ys ≡ [] → ⊥
not_empty [] ys o h = absurd (omega (arith, ap length h))
not_empty (x ∷ xs) ys o h = absurd (omega (arith, ap length h))

IsDrained-kept : (s t : Pool) → Pool.Step s t → t.queue ≡ s.queue → IsDrained s → IsDrained t
unfolding IsDrained
IsDrained-kept s t (receive u o rest) same d = absurd (omega (arith, ap length same))
IsDrained-kept s t (acquire u o fits) same d = cc
IsDrained-kept s t (join u o) same d = cc
IsDrained-kept s t (increment u o) same d = cc
IsDrained-kept s t (spawn u o) same d = cc
IsDrained-kept s t (release u xs ys o) same d = absurd (not_empty xs ys o d.1)
IsDrained-kept s t (finish u xs ys o) same d = absurd (not_empty xs ys o d.2)
IsDrained-kept s t (decrement u xs ys o) same d = d

free-kept : (s t : Pool) → Pool.Step s t → t.queue ≡ s.queue → s.hand ≡ free → t.hand ≡ free
free-kept s t (receive u o rest) same d = absurd (omega (arith, ap length same))
free-kept s t (acquire u o fits) same d = cc
free-kept s t (join u o) same d = cc
free-kept s t (increment u o) same d = cc
free-kept s t (spawn u o) same d = cc
free-kept s t (release u xs ys o) same d = d
free-kept s t (finish u xs ys o) same d = d
free-kept s t (decrement u xs ys o) same d = d

-- What holds of the pool where the executor is.
IsAt : Executor → Pool → Type 0
IsAt looping s = Unit
IsAt waiting s = s.hand ≡ free
IsAt stopped s = IsDrained s

IsAt-kept :
    (x : Executor) (s t : Pool)
    → Pool.Step s t
    → (x ≡ looping) ⊎ (t.queue ≡ s.queue)
    → IsAt x s
    → IsAt x t
unfolding IsAt
IsAt-kept looping s t next h a = tt
IsAt-kept waiting s t next (inl h) a = cc
IsAt-kept waiting s t next (inr same) a = free-kept s t next same a
IsAt-kept stopped s t next (inl h) a = cc
IsAt-kept stopped s t next (inr same) a = IsDrained-kept s t next same a

IsRunning : List Order → Process → Type 0
IsRunning jobs p = Pool.Reaches (start jobs) p.pool × IsAt p.executor p.pool

Reaches-IsRunning : (jobs : List Order) (p : Process) → Reaches (begin jobs) p → IsRunning jobs p
unfolding IsRunning IsAt IsDrained
Reaches-IsRunning jobs p here = (Pool.here, tt)
Reaches-IsRunning jobs _ (step q _ before (works t alive next calm)) =
    let (r, a) = Reaches-IsRunning jobs q before in
    (Pool.step q.pool t r next, IsAt-kept q.executor q.pool t next calm a)
Reaches-IsRunning jobs _ (step q _ before (stops alive)) = Reaches-IsRunning jobs q before
Reaches-IsRunning jobs _ (step q _ before (notices alive at done hand)) =
    let (r, a) = Reaches-IsRunning jobs q before in (r, hand)
Reaches-IsRunning jobs _ (step q _ before (waits alive at none)) =
    let (r, a) = Reaches-IsRunning jobs q before in
    let (executing, released) = Reaches-wait jobs q.pool r none in
    (r, (subst (λ x. IsAt x q.pool) at a, executing, released))
Reaches-IsRunning jobs _ (step q _ before (ends alive done)) = Reaches-IsRunning jobs q before

-- When `Executor.Run` has returned, whatever the order of the steps before: no goroutine executes a job,
-- and every job that was ever sent to the channel is once in one of three places. It is still in the
-- channel, its goroutine is behind `execute` and has only the counter to leave, or it is over. Whether
-- its result has been sent is not said: the context of the reporter is done by then.
pub Reaches-drained :
    (jobs : List Order) (p : Process)
    → Reaches (begin jobs) p
    → p.executor ≡ stopped
    → (p.pool.executing ≡ [])
      × ((f : Order → Bool)
          → count f jobs ≡ count f p.pool.queue + count f p.pool.leaving + count f p.pool.over)
unfolding IsRunning IsAt IsDrained
Reaches-drained jobs p reached at =
    let (r, a) = Reaches-IsRunning jobs p reached in
    let (hand, executing, released) = subst (λ x. IsAt x p.pool) at a in
    let i = Reaches-IsSafe jobs p.pool r in
    (
      executing,
      λ f.
          omega
            (arith, i.jobs_kept f, ap (held f) hand, ap (count f) executing, ap (count f) released),
    )

Step-alive : (q r : Process) → Step q r → q.ended ≡ false
Step-alive q _ (works t alive next calm) = alive
Step-alive q _ (stops alive) = alive
Step-alive q _ (notices alive at done hand) = alive
Step-alive q _ (waits alive at none) = alive
Step-alive q _ (ends alive done) = alive

ended-stays : (q r : Process) → q.ended ≡ true → Reaches q r → r ≡ q
ended-stays q _ e here = refl
ended-stays q r e (step u _ before next) =
    let over = ap (λ x. x.ended) (ended-stays q u e before) in
    let alive = Step-alive u r next in ground arith

-- At any moment of a worker that runs, a signal can end it there: `main` returns once the context is done
-- and does not wait for `Executor.Run`. The process makes no step from then on, and the jobs that its
-- goroutines were executing stay where they were.
pub Reaches-abandons :
    (jobs : List Order) (p : Process)
    → Reaches (begin jobs) p
    → p.ended ≡ false
    → let q = end (stop p) in
      Reaches (begin jobs) q × (q.pool ≡ p.pool) × ((r : Process) → Reaches q r → r ≡ q)
Reaches-abandons jobs p reached alive = (
  step (stop p) (end (stop p)) (step p (stop p) reached (stops alive)) (ends alive refl),
  refl,
  λ r later. ended-stays (end (stop p)) r refl later,
)
