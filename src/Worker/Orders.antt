-- ===== src/Worker/Orders.antt =====
-- Which orders the consumer of a worker passes on to its executor.
use distributed_job_schedule.Prelude.{
  ◌≡◌, refl, sym, ap, ◌∙◌, Bool, true, false, Option, none, some, List, [], ◌∷◌, ◌++◌, ◌==◌,
  if◌then◌else◌, arith,
}
use distributed_job_schedule.Models.{Uuid}
use distributed_job_schedule.Errors.{Result, ok, err, Error}
use distributed_job_schedule.Broker.Messages.{Json, JobMessage}
use distributed_job_schedule.Broker.World.{KafkaRecord}
use distributed_job_schedule.Broker.Consumer.{
  Round, Event, handled, refused, committed, run, Fetch, fetched, canceled, Commit, accepted, Exit,
  stopped, failed, after_fetch, after_handler, after_commit,
}
use distributed_job_schedule.Worker.{Order, order_of, accept, handle}

-- The order in a record, if it can be decoded and is for this worker.
abbrev pub mine : Uuid → Option JobMessage → List Order
mine me none = []
mine me (some m) = if m.worker_id == me then order_of m ∷ [] else []

-- The orders for this worker in the records that were handled, in their order.
abbrev pub received : Json → Uuid → List Event → List Order
received json me [] = []
received json me (handled r ∷ events) = mine me (json.decode_job r.value) ++ received json me events
received json me (refused r ∷ events) = received json me events
received json me (committed r ∷ events) = received json me events

append_assoc : {A : Type 0} (xs ys zs : List A) → ((xs ++ ys) ++ zs) ≡ (xs ++ (ys ++ zs))
append_assoc [] ys zs = refl
append_assoc (x ∷ xs) ys zs = ap (λ l. x ∷ l) (append_assoc xs ys zs)

append-[] : {A : Type 0} (xs : List A) → xs ≡ (xs ++ [])
append-[] [] = refl
append-[] (x ∷ xs) = ap (λ l. x ∷ l) (append-[] xs)

accept-mine :
    (me : Uuid) (done : Bool) (o : Option JobMessage) (chan : List Order)
    → (accept me done o chan).1 ≡ ok tt
    → (accept me done o chan).0 ≡ chan ++ mine me o
accept-mine me done none chan h = ground arith
accept-mine me true (some m) chan h = ground (arith, append-[] chan)
accept-mine me false (some m) chan h = ground (arith, append-[] chan)

accept-refused :
    (me : Uuid) (done : Bool) (o : Option JobMessage) (chan : List Order) (x : Error)
    → (accept me done o chan).1 ≡ err x
    → (accept me done o chan).0 ≡ chan
accept-refused me done none chan x h = refl
accept-refused me true (some m) chan x h = ground arith
accept-refused me false (some m) chan x h = ground arith

module _ (json : Json) (me : Uuid) (done : Bool) where
  abbrev IsReceived : List Order → List Order × List Event × Exit → Type 0
  IsReceived chan o = o.0 ≡ chan ++ received json me o.1

  behind :
      (r : KafkaRecord) (chan chan' : List Order) (o : List Order × List Event × Exit)
      → chan' ≡ chan ++ mine me (json.decode_job r.value)
      → IsReceived chan' o
      → o.0 ≡ chan ++ (mine me (json.decode_job r.value) ++ received json me o.1)
  behind r chan chan' o e ih =
      ih
      ∙ ap (λ l. l ++ received json me o.1) e
      ∙ append_assoc chan (mine me (json.decode_job r.value)) (received json me o.1)

  after_commit-IsReceived :
      (r : KafkaRecord) (c : Commit) (loop : List Order → List Order × List Event × Exit)
      (chan chan' : List Order)
      → chan' ≡ chan ++ mine me (json.decode_job r.value)
      → ((l : List Order) → IsReceived l (loop l))
      → IsReceived chan (after_commit (handle json me done) r c loop chan')
  unfolding after_commit
  after_commit-IsReceived r accepted loop chan chan' e ih =
      behind r chan chan' (loop chan') e (ih chan')
  after_commit-IsReceived r (Commit.temporary false false) loop chan chan' e ih =
      behind r chan chan' (loop chan') e (ih chan')
  after_commit-IsReceived r (Commit.temporary true false) loop chan chan' e ih =
      behind r chan chan' (loop chan') e (ih chan')
  after_commit-IsReceived r (Commit.temporary false true) loop chan chan' e ih =
      behind r chan chan' (chan', [], stopped) e (append-[] chan')
  after_commit-IsReceived r (Commit.temporary true true) loop chan chan' e ih =
      behind r chan chan' (chan', [], stopped) e (append-[] chan')
  after_commit-IsReceived r (Commit.broken false) loop chan chan' e ih =
      behind r chan chan' (chan', [], failed) e (append-[] chan')
  after_commit-IsReceived r (Commit.broken true) loop chan chan' e ih =
      behind r chan chan' (chan', [], failed) e (append-[] chan')

  after_handler-IsReceived :
      (r : KafkaRecord) (c : Commit) (loop : List Order → List Order × List Event × Exit)
      (chan : List Order) (p : List Order × Result (Unit {0}))
      → handle json me done r chan ≡ p
      → ((l : List Order) → IsReceived l (loop l))
      → IsReceived chan (after_handler (handle json me done) r c loop p)
  unfolding after_handler handle
  after_handler-IsReceived r c loop chan (chan', ok u) e ih =
      after_commit-IsReceived r c loop chan chan'
        (sym (ap (λ q. q.0) e)
          ∙ accept-mine me done (json.decode_job r.value) chan (ap (λ q. q.1) e))
        ih
  after_handler-IsReceived r c loop chan (chan', err x) e ih =
      sym (ap (λ q. q.0) e)
      ∙ accept-refused me done (json.decode_job r.value) chan x (ap (λ q. q.1) e)
      ∙ append-[] chan

  after_fetch-IsReceived :
      (f : Fetch) (c : Commit) (loop : List Order → List Order × List Event × Exit)
      (chan : List Order)
      → ((l : List Order) → IsReceived l (loop l))
      → IsReceived chan (after_fetch (handle json me done) f c loop chan)
  unfolding after_fetch
  after_fetch-IsReceived (fetched r) c loop chan ih =
      after_handler-IsReceived r c loop chan (handle json me done r chan) refl ih
  after_fetch-IsReceived canceled c loop chan ih = append-[] chan
  after_fetch-IsReceived (Fetch.temporary false) c loop chan ih = ih chan
  after_fetch-IsReceived (Fetch.temporary true) c loop chan ih = append-[] chan
  after_fetch-IsReceived Fetch.broken c loop chan ih = append-[] chan

-- Whatever Kafka answers, the executor is given exactly the orders for its worker in the records that
-- the consumer handled, in their order; records for other workers are handled and passed over.
pub run-received :
    (json : Json) (me : Uuid) (done : Bool) (rounds : List Round) (chan : List Order)
    → let (chan', events, exit) = run (handle json me done) rounds chan in
      chan' ≡ chan ++ received json me events
unfolding run
run-received json me done [] chan = append-[] chan
run-received json me done (x ∷ rounds) chan =
    after_fetch-IsReceived json me done x.fetch x.commit (run (handle json me done) rounds) chan
      (run-received json me done rounds)
