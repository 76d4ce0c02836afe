-- ===== src/Broker/Consumer/Errors.antt =====
-- internal/broker/consumer.go: what the loop makes of an error of kafka-go, with `isTemporary` and `sleep`.
use distributed_job_schedule.Prelude.{
  ◌≡◌, refl, Bool, true, false, Option, none, some, List, [], ◌∷◌, ◌||◌, if◌then◌else◌,
}
use distributed_job_schedule.Errors.{Result, ok, err, canceled as context_canceled}
use distributed_job_schedule.Broker.World.{KafkaRecord}
use distributed_job_schedule.Broker.Consumer.{
  Fetch, fetched, canceled, Commit, Round, stopped, failed, unanswered, run,
}

-- What the code asks an error: `errors.Is` of the context's two errors, and the method `Temporary` of the
-- first error of its chain that has one.
pub record Failure : Type 0 where
  pub is_canceled : Bool
  pub is_deadline : Bool
  pub temporary : Option Bool

abbrev or_no : Option Bool → Bool
or_no none = false
or_no (some b) = b

-- `isTemporary`
unfoldable pub is_temporary : Failure → Bool
is_temporary e = or_no e.temporary

-- `sleep`; whether the context is done before the timer.
unfoldable pub sleep : (done_first : Bool) → Result (Unit {0})
sleep true = err context_canceled
sleep false = ok tt

abbrev interrupted : Result (Unit {0}) → Bool
interrupted (ok _) = false
interrupted (err x) = true

unfoldable pub fetch_of : Failure → (done_first : Bool) → Fetch
unfolding is_temporary sleep
fetch_of e done_first =
    if e.is_canceled || e.is_deadline
    then canceled
    else if is_temporary e
    then Fetch.temporary (interrupted (sleep done_first))
    else Fetch.broken

unfoldable pub commit_of : Failure → (applied done_first : Bool) → Commit
unfolding is_temporary sleep
commit_of e applied done_first =
    if is_temporary e
    then Commit.temporary applied (interrupted (sleep done_first))
    else Commit.broken applied

-- The context is canceled while the loop waits in kafka-go, and the error is `context.Canceled`, which has
-- no method `Temporary`. If the loop waits for the next record, it returns nil and has done nothing. If it
-- waits for a commit, it returns an error, behind a record that the handler has accepted, and whether Kafka
-- has applied the commit or not.
pub run-canceled :
    {S : Type 0} (handler : KafkaRecord → S → S × Result (Unit {0})) (e : Failure)
    (applied done_first : Bool) (c : Commit) (r : KafkaRecord) (rounds : List Round) (s t : S)
    → e.is_canceled ≡ true
    → e.temporary ≡ none
    → handler r s ≡ (t, ok tt)
    → (run handler (record { fetch = fetch_of e done_first; commit = c } ∷ rounds) s
        ≡ (s, [], stopped))
      × (run handler
            (record { fetch = fetched r; commit = commit_of e applied done_first } ∷ rounds)
            s
          ≡ (t, unanswered handler r applied, failed))
unfolding run fetch_of commit_of
run-canceled handler e applied done_first c r rounds s t h no_method accepts =
    (rw h refl, rw accepts (rw no_method refl))
