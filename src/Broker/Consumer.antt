-- ===== src/Broker/Consumer.antt =====
-- internal/broker/consumer.go: the loop `Consumer.Run` over whatever Kafka answers.
pub mod Errors
pub mod Offsets
pub mod Trace
use distributed_job_schedule.Prelude.{
  ℕ, ◌≡◌, refl, ap, Bool, true, false, Option, none, some, List, [], ◌∷◌, if◌then◌else◌,
}
use distributed_job_schedule.Errors.{Result, ok, err}
use distributed_job_schedule.Broker.World.{KafkaRecord}

-- What `FetchMessage` answers: a record, the end of the context, an error that `isTemporary`
-- accepts with whether the sleep of a second that follows is interrupted, or another error.
pub data Fetch : Type 0 where
  fetched : KafkaRecord → Fetch
  canceled : Fetch
  temporary : (interrupted : Bool) → Fetch
  broken : Fetch

-- What `CommitMessages` answers; behind an error Kafka may have applied the commit all the same.
pub data Commit : Type 0 where
  accepted : Commit
  temporary : (applied interrupted : Bool) → Commit
  broken : (applied : Bool) → Commit

pub record Round : Type 0 where
  pub fetch : Fetch
  pub commit : Commit

-- `Run` returned nil, returned an error, or is still in its loop when the rounds are over.
pub data Exit : Type 0 where
  stopped failed looping : Exit

-- What became of a record: whether Kafka has applied its commit is not always known to the loop.
pub data Event : Type 0 where
  handled refused committed : KafkaRecord → Event

module _ {S : Type 0} (handler : KafkaRecord → S → S × Result (Unit {0})) where
  abbrev Outcome : Type 0
  Outcome = S × List Event × Exit

  abbrev note : List Event → Outcome → Outcome
  note [] o = o
  note (x ∷ xs) o = let (s, events, exit) = note xs o in (s, x ∷ events, exit)

  abbrev pub unanswered : KafkaRecord → (applied : Bool) → List Event
  unanswered r true = handled r ∷ committed r ∷ []
  unanswered r false = handled r ∷ []

  unfoldable pub after_commit : KafkaRecord → Commit → (S → Outcome) → S → Outcome
  after_commit r accepted loop s = note (handled r ∷ committed r ∷ []) (loop s)
  after_commit r (temporary applied false) loop s = note (unanswered r applied) (loop s)
  after_commit r (temporary applied true) loop s = (s, unanswered r applied, stopped)
  after_commit r (broken applied) loop s = (s, unanswered r applied, failed)

  unfoldable pub after_handler :
      KafkaRecord → Commit → (S → Outcome) → S × Result (Unit {0}) → Outcome
  unfolding after_commit
  after_handler r c loop (s, ok _) = after_commit r c loop s
  after_handler r c loop (s, err _) = (s, refused r ∷ [], failed)

  unfoldable pub after_fetch : Fetch → Commit → (S → Outcome) → S → Outcome
  unfolding after_handler
  after_fetch (fetched r) c loop s = after_handler r c loop (handler r s)
  after_fetch canceled c loop s = (s, [], stopped)
  after_fetch (temporary false) c loop s = loop s
  after_fetch (temporary true) c loop s = (s, [], stopped)
  after_fetch broken c loop s = (s, [], failed)

  unfoldable pub run : List Round → S → Outcome
  unfolding after_fetch
  run [] s = (s, [], looping)
  run (x ∷ rounds) s = after_fetch x.fetch x.commit (run rounds) s
