-- ===== src/Worker/Pool/Finishes.antt =====
-- How many steps the goroutines of `Executor.Run` take, if each `execute` ends.
use distributed_job_schedule.Prelude.{
  ℕ, ◌+◌, ◌*◌, ◌≤◌, ◌≡◌, ◌⊎◌, refl, ap, ◌∙◌, false, inl, inr, Bool, List, [], ◌∷◌, arith, count,
}
use distributed_job_schedule.Models.{Uuid}
use distributed_job_schedule.Broker.Messages.{Json}
use distributed_job_schedule.Broker.Consumer.{Round, run}
use distributed_job_schedule.Worker.{Order, handle}
use distributed_job_schedule.Worker.Orders.{received, run-received}
use distributed_job_schedule.Worker.Pool.{
  Hand, free, took, slotted, grouped, counted, Pool, start, Step, receive, acquire, join, increment,
  spawn, release, finish, decrement, Reaches, here, step, any_order, held, IsSafe, Reaches-IsSafe,
  moved,
}

-- The steps that a job in the loop's hand has before it.
abbrev hand_left : Hand → ℕ
hand_left free = 0
hand_left (took o) = 7
hand_left (slotted o) = 6
hand_left (grouped o) = 5
hand_left (counted o) = 4

-- The steps that the jobs have before them.
abbrev pub left : Pool → ℕ
left s =
    8 * count any_order s.queue
    + hand_left s.hand
    + 3 * count any_order s.executing
    + 2 * count any_order s.released
    + count any_order s.leaving

abbrev pub steps : (s t : Pool) → Reaches s t → ℕ
steps s t here = 0
steps s t (step u v before next) = steps s u before + 1

step-left : (s t : Pool) → Step s t → left t + 1 ≡ left s
step-left s t (receive u o rest) = ground arith
step-left s t (acquire u o fits) = ground arith
step-left s t (join u o) = ground arith
step-left s t (increment u o) = ground arith
step-left s t (spawn u o) = ground arith
step-left s t (release u xs ys o) = ground (arith, moved any_order o xs ys)
step-left s t (finish u xs ys o) = ground (arith, moved any_order o xs ys)
step-left s t (decrement u xs ys o) = ground (arith, moved any_order o xs ys)

-- A pool whose parts are at hand.
abbrev pool :
    List Order → Hand → List Order → List Order → List Order → List Order → ℕ → ℕ → ℕ → Pool
pool queue hand executing released leaving over slots group running_count = record {
  queue = queue;
  hand = hand;
  executing = executing;
  released = released;
  leaving = leaving;
  over = over;
  slots = slots;
  group = group;
  running_count = running_count;
}

progress :
    (jobs q : List Order) (h : Hand) (e r l o : List Order) (s g c : ℕ)
    → IsSafe jobs (pool q h e r l o s g c)
    → (left (pool q h e r l o s g c) ≡ 0) ⊎ ((t : Pool) × Step (pool q h e r l o s g c) t)
progress jobs q h (x ∷ e) r l o s g c i = inr (_, release (pool q h (x ∷ e) r l o s g c) [] e x)
progress jobs q h [] (x ∷ r) l o s g c i = inr (_, finish (pool q h [] (x ∷ r) l o s g c) [] r x)
progress jobs q h [] [] (x ∷ l) o s g c i =
    inr (_, decrement (pool q h [] [] (x ∷ l) o s g c) [] l x)
progress jobs q (took x) [] [] [] o s g c i =
    inr (_, acquire (pool q (took x) [] [] [] o s g c) x (ground (arith, i.slots_held)))
progress jobs q (slotted x) [] [] [] o s g c i =
    inr (_, join (pool q (slotted x) [] [] [] o s g c) x)
progress jobs q (grouped x) [] [] [] o s g c i =
    inr (_, increment (pool q (grouped x) [] [] [] o s g c) x)
progress jobs q (counted x) [] [] [] o s g c i =
    inr (_, spawn (pool q (counted x) [] [] [] o s g c) x)
progress jobs [] free [] [] [] o s g c i = inl refl
progress jobs (x ∷ q) free [] [] [] o s g c i =
    inr (_, receive (pool (x ∷ q) free [] [] [] o s g c) x q)

Reaches-steps :
    (jobs : List Order) (s : Pool) (r : Reaches (start jobs) s)
    → steps (start jobs) s r + left s ≡ 8 * count any_order jobs
Reaches-steps jobs s here = ground arith
Reaches-steps jobs s (step u v before next) =
    omega (arith, step-left u s next, Reaches-steps jobs u before)

count_le : (p : Order → Bool) (xs : List Order) → count p xs ≤ count any_order xs
count_le p [] = omega arith
count_le p (x ∷ xs) = ground (arith, count_le p xs)

held_zero : (p : Order → Bool) (h : Hand) → hand_left h ≡ 0 → held p h ≡ 0
held_zero p free e = refl
held_zero p (took o) e = absurd (omega arith)
held_zero p (slotted o) e = absurd (omega arith)
held_zero p (grouped o) e = absurd (omega arith)
held_zero p (counted o) e = absurd (omega arith)

all_over :
    (jobs : List Order) (s : Pool) (p : Order → Bool)
    → IsSafe jobs s
    → left s ≡ 0
    → count p s.over ≡ count p jobs
all_over jobs s p i e = omega (
  arith,
  i.jobs_kept p,
  held_zero p s.hand (omega arith),
  count_le p s.queue,
  count_le p s.executing,
  count_le p s.released,
  count_le p s.leaving,
)

-- However the goroutines take turns, and if each `execute` ends, each job costs 8 steps: the steps
-- taken and those that are left are together 8 for each job that was sent. And the goroutines never
-- block each other: there is a next step as long as steps are left; when none is left, every job is
-- over, and as often as it was sent.
pub Reaches-finishes :
    (jobs : List Order) (s : Pool) (p : Order → Bool) (r : Reaches (start jobs) s)
    → (steps (start jobs) s r + left s ≡ 8 * count any_order jobs)
      × (((left s ≡ 0) × (count p s.over ≡ count p jobs)) ⊎ ((t : Pool) × Step s t))
Reaches-finishes jobs s p r =
    let i = Reaches-IsSafe jobs s r in
    (
      Reaches-steps jobs s r,
      elim (progress jobs s.queue s.hand s.executing s.released s.leaving s.over s.slots s.group
          s.running_count i) [ inl e ↦ inl (e, all_over jobs s p i e) | inr t ↦ inr t ],
    )

-- The consumer and the executor of a worker together: whatever Kafka answers, once no step is left each
-- order for the worker in the records that its consumer handled is over, and as often as it was
-- handled, whatever is asked of the orders.
pub received-over :
    (json : Json) (me : Uuid) (rounds : List Round) (s : Pool) (p : Order → Bool)
    → Reaches (start (run (handle json me false) rounds []).0) s
    → left s ≡ 0
    → count p s.over ≡ count p (received json me (run (handle json me false) rounds []).1)
received-over json me rounds s p r none_left =
    let jobs = (run (handle json me false) rounds []).0 in
    all_over jobs s p (Reaches-IsSafe jobs s r) none_left
    ∙ ap (count p) (run-received json me false rounds [])
