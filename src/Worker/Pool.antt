-- ===== src/Worker/Pool.antt =====
-- The goroutines of `Executor.Run` in internal/worker/executor.go, as steps of a shared state: the
-- loop that receives the jobs, one goroutine for each job that is started, and the semaphore, the
-- WaitGroup and the counter between them. A step is one atomic operation on one of these.
pub mod Finishes
pub mod Counter
use distributed_job_schedule.Prelude.{
  ℕ, ◌+◌, ◌-◌, ◌≤◌, ◌<◌, ◌≡◌, refl, Bool, true, List, [], ◌∷◌, ◌++◌, arith, count, count-append,
}
use distributed_job_schedule.Worker.{Order}

abbrev pub max_concurr : ℕ
max_concurr = 5

-- Where the loop is: in its select, or with a job before `sem <-`, `wg.Add`, `runningCount.Add`, `go`.
pub data Hand : Type 0 where
  free : Hand
  took slotted grouped counted : Order → Hand

-- `running_count` is an atomic.Int32, and here a number that does not wrap; the steps keep it small.
-- The goroutines are in `execute`, behind `<-sem`, behind `wg.Done`, or over.
pub record Pool : Type 0 where
  pub queue : List Order
  pub hand : Hand
  pub executing : List Order
  pub released : List Order
  pub leaving : List Order
  pub over : List Order
  pub slots : ℕ
  pub group : ℕ
  pub running_count : ℕ

abbrev pub start : List Order → Pool
start jobs = record {
  queue = jobs;
  hand = free;
  executing = [];
  released = [];
  leaving = [];
  over = [];
  slots = 0;
  group = 0;
  running_count = 0;
}

-- The goroutines go on in any order: each step picks one of its list.
pub data Step : Pool → Pool → Type 0 where
  receive :
      (s : Pool) (o : Order) (rest : List Order)
      → Step (record s { queue = o ∷ rest; hand = free }) (record s { queue = rest; hand = took o })
  acquire :
      (s : Pool) (o : Order)
      → s.slots < max_concurr
      → Step (record s { hand = took o }) (record s { hand = slotted o; slots = s.slots + 1 })
  join :
      (s : Pool) (o : Order)
      → Step (record s { hand = slotted o }) (record s { hand = grouped o; group = s.group + 1 })
  increment :
      (s : Pool) (o : Order)
      → Step
          (record s { hand = grouped o })
          (record s { hand = counted o; running_count = s.running_count + 1 })
  spawn :
      (s : Pool) (o : Order)
      → Step (record s { hand = counted o }) (record s { hand = free; executing = o ∷ s.executing })
  release :
      (s : Pool) (xs ys : List Order) (o : Order)
      → Step
          (record s { executing = xs ++ o ∷ ys })
          (record s { executing = xs ++ ys; released = o ∷ s.released; slots = s.slots - 1 })
  finish :
      (s : Pool) (xs ys : List Order) (o : Order)
      → Step
          (record s { released = xs ++ o ∷ ys })
          (record s { released = xs ++ ys; leaving = o ∷ s.leaving; group = s.group - 1 })
  decrement :
      (s : Pool) (xs ys : List Order) (o : Order)
      → Step
          (record s { leaving = xs ++ o ∷ ys })
          (record s { leaving = xs ++ ys; over = o ∷ s.over; running_count = s.running_count - 1 })

pub data Reaches (s : Pool) : Pool → Type 0 where
  here : Reaches s s
  step : (t u : Pool) → Reaches s t → Step t u → Reaches s u

abbrev any_order : Order → Bool
any_order o = true

-- How many of the jobs with `p` are where.
abbrev pub held : (Order → Bool) → Hand → ℕ
held p free = 0
held p (took o) = count p (o ∷ [])
held p (slotted o) = count p (o ∷ [])
held p (grouped o) = count p (o ∷ [])
held p (counted o) = count p (o ∷ [])

abbrev has_slot : Hand → ℕ
has_slot free = 0
has_slot (took o) = 0
has_slot _ = 1

abbrev has_joined : Hand → ℕ
has_joined (grouped o) = 1
has_joined (counted o) = 1
has_joined _ = 0

abbrev has_counted : Hand → ℕ
has_counted (counted o) = 1
has_counted _ = 0

pub record IsSafe (jobs : List Order) (s : Pool) : Type 0 where
  pub slots_held : s.slots ≡ count any_order s.executing + has_slot s.hand
  pub slots_fit : s.slots ≤ max_concurr
  pub group_held :
      s.group ≡ count any_order s.executing + count any_order s.released + has_joined s.hand
  pub count_held :
      s.running_count
      ≡ count any_order s.executing
        + count any_order s.released
        + count any_order s.leaving
        + has_counted s.hand
  pub jobs_kept :
      (p : Order → Bool)
      → count p jobs
        ≡ count p s.queue
          + held p s.hand
          + count p s.executing
          + count p s.released
          + count p s.leaving
          + count p s.over

pub moved :
    (p : Order → Bool) (o : Order) (xs ys : List Order)
    → count p (xs ++ o ∷ ys) ≡ count p (xs ++ ys) + count p (o ∷ [])
moved p o xs ys = omega (arith, count-append p xs (o ∷ ys), count-append p xs ys)

step-IsSafe : (jobs : List Order) (s t : Pool) → Step s t → IsSafe jobs s → IsSafe jobs t
step-IsSafe jobs s t (receive u o rest) i = record {
  slots_held = ground (arith, i.slots_held);
  slots_fit = ground (arith, i.slots_fit);
  group_held = ground (arith, i.group_held);
  count_held = ground (arith, i.count_held);
  jobs_kept = λ p. ground (arith, i.jobs_kept p);
}
step-IsSafe jobs s t (acquire u o fits) i = record {
  slots_held = ground (arith, i.slots_held);
  slots_fit = ground (arith, i.slots_fit);
  group_held = ground (arith, i.group_held);
  count_held = ground (arith, i.count_held);
  jobs_kept = λ p. ground (arith, i.jobs_kept p);
}
step-IsSafe jobs s t (join u o) i = record {
  slots_held = ground (arith, i.slots_held);
  slots_fit = ground (arith, i.slots_fit);
  group_held = ground (arith, i.group_held);
  count_held = ground (arith, i.count_held);
  jobs_kept = λ p. ground (arith, i.jobs_kept p);
}
step-IsSafe jobs s t (increment u o) i = record {
  slots_held = ground (arith, i.slots_held);
  slots_fit = ground (arith, i.slots_fit);
  group_held = ground (arith, i.group_held);
  count_held = ground (arith, i.count_held);
  jobs_kept = λ p. ground (arith, i.jobs_kept p);
}
step-IsSafe jobs s t (spawn u o) i = record {
  slots_held = ground (arith, i.slots_held);
  slots_fit = ground (arith, i.slots_fit);
  group_held = ground (arith, i.group_held);
  count_held = ground (arith, i.count_held);
  jobs_kept = λ p. ground (arith, i.jobs_kept p);
}
step-IsSafe jobs s t (release u xs ys o) i = record {
  slots_held = ground (arith, i.slots_held, moved any_order o xs ys);
  slots_fit = ground (arith, i.slots_fit);
  group_held = ground (arith, i.group_held, moved any_order o xs ys);
  count_held = ground (arith, i.count_held, moved any_order o xs ys);
  jobs_kept = λ p. ground (arith, i.jobs_kept p, moved p o xs ys);
}
step-IsSafe jobs s t (finish u xs ys o) i = record {
  slots_held = ground (arith, i.slots_held, moved any_order o xs ys);
  slots_fit = ground (arith, i.slots_fit);
  group_held = ground (arith, i.group_held, moved any_order o xs ys);
  count_held = ground (arith, i.count_held, moved any_order o xs ys);
  jobs_kept = λ p. ground (arith, i.jobs_kept p, moved p o xs ys);
}
step-IsSafe jobs s t (decrement u xs ys o) i = record {
  slots_held = ground (arith, i.slots_held, moved any_order o xs ys);
  slots_fit = ground (arith, i.slots_fit);
  group_held = ground (arith, i.group_held, moved any_order o xs ys);
  count_held = ground (arith, i.count_held, moved any_order o xs ys);
  jobs_kept = λ p. ground (arith, i.jobs_kept p, moved p o xs ys);
}

-- Whatever the goroutines' order of steps: at most 5 jobs execute at a time, each on a slot of the
-- semaphore; the WaitGroup and the counter hold what has joined them and not left; and every job that
-- was sent is once in the queue, in the loop, in a goroutine or over: none is lost and none runs twice.
pub Reaches-IsSafe : (jobs : List Order) (s : Pool) → Reaches (start jobs) s → IsSafe jobs s
Reaches-IsSafe jobs s here = record {
  slots_held = refl;
  slots_fit = ground arith;
  group_held = refl;
  count_held = refl;
  jobs_kept = λ p. ground arith;
}
Reaches-IsSafe jobs s (step t u before next) =
    step-IsSafe jobs t s next (Reaches-IsSafe jobs t before)

count_zero : (xs : List Order) → count any_order xs ≡ 0 → xs ≡ []
count_zero [] h = refl
count_zero (x ∷ xs) h = absurd (omega arith)

-- When the WaitGroup is at 0, so that `wg.Wait` returns, no goroutine executes a job, and none that has
-- executed one is still to leave the group.
pub Reaches-wait :
    (jobs : List Order) (s : Pool)
    → Reaches (start jobs) s
    → s.group ≡ 0
    → (s.executing ≡ []) × (s.released ≡ [])
Reaches-wait jobs s r e =
    let i = Reaches-IsSafe jobs s r in
    (
      count_zero s.executing (ground (arith, i.group_held)),
      count_zero s.released (ground (arith, i.group_held)),
    )
