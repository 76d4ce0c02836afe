-- ===== src/Worker/Pool/Counter.antt =====
-- The counter of running jobs, which heartbeats report, against the jobs that run.
use mathlib.Core.Path.{subst}
use distributed_job_schedule.Prelude.{
  ℕ, suc, ◌+◌, ◌≤◌, ◌≡◌, true, refl, List, [], ◌∷◌, arith, length,
}
use distributed_job_schedule.Prelude.Int.{ℤ, pos, leb_ℤ, ◌-ℤ◌}
use distributed_job_schedule.Models.{Worker}
use distributed_job_schedule.Scheduler.Dispatcher.{capacity}
use distributed_job_schedule.Worker.{Order}
use distributed_job_schedule.Worker.Pool.{
  free, took, slotted, grouped, counted, Pool, start, receive, acquire, join, increment, spawn,
  release, finish, Reaches, here, step,
}

-- `Executor.RunningJobs`
abbrev pub running_jobs : Pool → ℤ
running_jobs s = pos s.running_count

-- Nothing runs, `rest` is in the channel, and the goroutines of the jobs `leaving` are to decrement the
-- counter, which is at `n`.
abbrev lagging : List Order → List Order → ℕ → Pool
lagging rest leaving n = record {
  queue = rest;
  hand = free;
  executing = [];
  released = [];
  leaving = leaving;
  over = [];
  slots = 0;
  group = 0;
  running_count = n;
}

pass :
    (s : Pool) (o : Order) (rest leaving : List Order) (n : ℕ)
    → Reaches s (lagging (o ∷ rest) leaving n)
    → Reaches s (lagging rest (o ∷ leaving) (n + 1))
pass s o rest leaving n r =
    let a0 = lagging (o ∷ rest) leaving n in
    let a1 = record (lagging rest leaving n) { hand = took o } in
    let a2 = record a1 { hand = slotted o; slots = 1 } in
    let a3 = record a2 { hand = grouped o; group = 1 } in
    let a4 = record a3 { hand = counted o; running_count = n + 1 } in
    let a5 = record a4 { hand = free; executing = o ∷ [] } in
    let a6 = record a5 { executing = []; released = o ∷ []; slots = 0 } in
    let r1 = step a0 a1 r (receive a0 o rest) in
    let r2 = step a1 a2 r1 (acquire a1 o (omega arith)) in
    let r3 = step a2 a3 r2 (join a2 o) in
    let r4 = step a3 a4 r3 (increment a3 o) in
    let r5 = step a4 a5 r4 (spawn a4 o) in
    let r6 = step a5 a6 r5 (release a5 [] [] o) in
    step a6 (lagging rest (o ∷ leaving) (n + 1)) r6 (finish a6 [] [] o)

pass_all :
    (s : Pool) (rest leaving : List Order) (n : ℕ)
    → Reaches s (lagging rest leaving n)
    → (left : List Order) × Reaches s (lagging [] left (n + length rest))
pass_all s [] leaving n r =
    let same : n ≡ n + 0 = omega arith in
    (leaving, subst (λ m. Reaches s (lagging [] leaving m)) same r)
pass_all s (o ∷ rest) leaving n r =
    let (left, reached) = pass_all s rest (o ∷ leaving) (n + 1) (pass s o rest leaving n r) in
    let same : n + 1 + length rest ≡ n + suc (length rest) = omega arith in
    (left, subst (λ m. Reaches s (lagging [] left m)) same reached)

-- If a worker is sent five jobs or more, there is an order of steps after which none of them executes and
-- no slot is taken, and the counter still has all of them: a goroutine gives its slot back before it
-- decrements the counter. The dispatcher sends no job to a worker that reports this counter.
pub Reaches-overcount :
    (jobs : List Order) (k : Worker)
    → 5 ≤ length jobs
    → (s : Pool) × Reaches (start jobs) s
      × (s.executing ≡ [])
      × (s.slots ≡ 0)
      × (s.running_count ≡ length jobs)
      × (leb_ℤ (capacity (record k { running_jobs = running_jobs s })) (pos 0) ≡ true)
unfolding ◌-ℤ◌
Reaches-overcount jobs k many =
    let (left, reached) = pass_all (start jobs) jobs [] 0 here in
    (lagging [] left (0 + length jobs), reached, refl, refl, omega arith, ground arith)
