-- ===== src/Broker/Consumer/Offsets.antt =====
-- internal/broker/consumer.go: the offset of a consumer group on a partition, over every restart of the
-- consumer.
pub mod Session
pub mod Delivered
use mathlib.Core.Path.{subst}
use mathlib.Core.List.{Sublistᴰ}
use distributed_job_schedule.Prelude.{
  ℕ, zero, suc, ◌+◌, ◌-◌, ◌≤◌, ◌<◌, ◌≡◌, ◌≢◌, refl, ap, sym, inl, inr, true, false, Option, none,
  some, List, [], ◌∷◌, ◌++◌, arith, length, take, drop, leb, Bool-cases,
}
use distributed_job_schedule.Errors.{Result, ok, err}
use distributed_job_schedule.Broker.World.{KafkaRecord}
use distributed_job_schedule.Broker.Consumer.{
  Fetch, fetched, canceled, Commit, accepted, Round, Exit, Event, handled, refused, committed, run,
  after_fetch, after_handler, after_commit,
}

-- Where a new reader of the group begins: `StartOffset: kafka.FirstOffset` in `NewConsumer`, which serves
-- while the group has committed nothing.
abbrev pub resume : Option ℕ → ℕ
resume none = 0
resume (some offset) = offset

abbrev pub ServesFetch : Fetch → List KafkaRecord → (List KafkaRecord → Type 0) → Type 0
ServesFetch (fetched r) [] next = ⊥
ServesFetch (fetched r) (q ∷ rest) next = (r ≡ q) × next rest
ServesFetch _ rest next = next rest

-- Kafka hands the records of a partition out in their order, each once to one reader.
abbrev pub Serves : List KafkaRecord → List Round → Type 0
Serves rest [] = Unit
Serves rest (x ∷ rounds) = ServesFetch x.fetch rest (λ rest'. Serves rest' rounds)

-- The offset of the group behind the events, for a reader at `at`: the commit of a record sets it to the
-- one behind that record.
abbrev pub offset_after : ℕ → Option ℕ → List Event → Option ℕ
offset_after at offset [] = offset
offset_after at offset (handled r ∷ events) = offset_after (suc at) offset events
offset_after at offset (refused r ∷ events) = offset_after (suc at) offset events
offset_after at offset (committed r ∷ events) = offset_after at (some at) events

-- The records that the handler has accepted, in order.
abbrev pub accepted_of : List Event → List KafkaRecord
accepted_of [] = []
accepted_of (handled r ∷ events) = r ∷ accepted_of events
accepted_of (refused r ∷ events) = accepted_of events
accepted_of (committed r ∷ events) = accepted_of events

module _ {S : Type 0} (handler : KafkaRecord → S → S × Result (Unit {0})) where
  -- The handler accepts the record in some state.
  abbrev pub Accepts : KafkaRecord → Type 0
  Accepts r = (s : S) × (t : S) × (handler r s ≡ (t, ok tt))

  -- The consumer is started, again and again, on one partition with the records `log`, each time from the
  -- group's offset: what the offset is, the state, and the records that the handler has accepted.
  pub data Reaches (log : List KafkaRecord) (first : S)
      : Option ℕ → S → List KafkaRecord → Type 0 where
    here : Reaches log first none first []
    started :
        (offset : Option ℕ) (s : S) (done : List KafkaRecord)
        → Reaches log first offset s done
        → (rounds : List Round) → Serves (drop (resume offset) log) rounds
        → Reaches log first
            (offset_after (resume offset) offset (run handler rounds s).1)
            (run handler rounds s).0
            (done ++ accepted_of (run handler rounds s).1)
