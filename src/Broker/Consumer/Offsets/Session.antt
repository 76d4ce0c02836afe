-- ===== src/Broker/Consumer/Offsets/Session.antt =====
-- One run of the loop: how far it comes in the partition.
use mathlib.Core.Path.{subst}
use distributed_job_schedule.Prelude.{
  ℕ, suc, ◌+◌, ◌≤◌, ◌≡◌, refl, ap, true, false, Option, some, List, [], ◌∷◌, ◌++◌, arith, length,
}
use distributed_job_schedule.Prelude.Sublists.{All}
use distributed_job_schedule.Errors.{Result, ok, err}
use distributed_job_schedule.Broker.World.{KafkaRecord}
use distributed_job_schedule.Broker.Consumer.{
  Fetch, fetched, canceled, Commit, accepted, Round, Exit, Event, handled, committed, run,
  after_fetch, after_handler, after_commit,
}
use distributed_job_schedule.Broker.Consumer.Offsets.{
  resume, ServesFetch, Serves, offset_after, accepted_of, Accepts,
}

-- What a reader does that is at `at` with `rest` before it, while the group's offset is `offset`.
pub record Advances (at : ℕ) (offset : Option ℕ) (rest : List KafkaRecord) (events : List Event)
    : Type 0 where
  pub behind : List KafkaRecord
  pub split : rest ≡ accepted_of events ++ behind
  pub grown : resume offset ≤ resume (offset_after at offset events)
  pub within : resume (offset_after at offset events) ≤ at + length (accepted_of events)

stays :
    (at : ℕ) (offset : Option ℕ) (rest : List KafkaRecord)
    → resume offset ≤ at
    → Advances at offset rest []
stays at offset rest h = record {
  behind = rest;
  split = refl;
  grown = omega arith;
  within = omega arith;
}

-- The record at `at` is handled, and the group's offset is `offset'` behind it.
advances :
    (at : ℕ) (offset offset' : Option ℕ) (r : KafkaRecord) (rest : List KafkaRecord)
    (events : List Event)
    → resume offset ≤ resume offset'
    → Advances (suc at) offset' rest events
    → (behind : List KafkaRecord) × (r ∷ rest ≡ r ∷ accepted_of events ++ behind)
      × (resume offset ≤ resume (offset_after (suc at) offset' events))
      × (resume (offset_after (suc at) offset' events) ≤ at + suc (length (accepted_of events)))
advances at offset offset' r rest events h a =
    let g = a.grown in
    let w = a.within in (a.behind, ap (λ l. r ∷ l) a.split, omega arith, omega arith)

module _ {S : Type 0} (handler : KafkaRecord → S → S × Result (Unit {0})) where
  abbrev IsAdvancing : (S → S × List Event × Exit) → (List KafkaRecord → Type 0) → Type 0
  IsAdvancing loop next =
      (at : ℕ) (offset : Option ℕ) (rest : List KafkaRecord) (s : S)
      → next rest
      → resume offset ≤ at
      → Advances at offset rest (loop s).1

  committed-Advances :
      (r : KafkaRecord) (loop : S → S × List Event × Exit) (next : List KafkaRecord → Type 0)
      (at : ℕ) (offset : Option ℕ) (rest : List KafkaRecord) (s : S)
      → IsAdvancing loop next
      → next rest
      → resume offset ≤ at
      → Advances at offset (r ∷ rest) (handled r ∷ committed r ∷ (loop s).1)
  committed-Advances r loop next at offset rest s ih n h =
      let (b, e, g, w) =
        advances at offset (some (suc at)) r rest (loop s).1 (omega arith)
          (ih (suc at) (some (suc at)) rest s n (omega arith)) in
      record { behind = b; split = e; grown = g; within = w }

  after_commit-Advances :
      (r : KafkaRecord) (c : Commit) (loop : S → S × List Event × Exit)
      (next : List KafkaRecord → Type 0) (at : ℕ) (offset : Option ℕ) (rest : List KafkaRecord)
      (s : S)
      → IsAdvancing loop next
      → next rest
      → resume offset ≤ at
      → Advances at offset (r ∷ rest) (after_commit handler r c loop s).1
  unfolding after_commit
  after_commit-Advances r accepted loop next at offset rest s ih n h =
      committed-Advances r loop next at offset rest s ih n h
  after_commit-Advances r (Commit.temporary false false) loop next at offset rest s ih n h =
      let (b, e, g, w) =
        advances at offset offset r rest (loop s).1 (omega arith)
          (ih (suc at) offset rest s n (omega arith)) in
      record { behind = b; split = e; grown = g; within = w }
  after_commit-Advances r (Commit.temporary true false) loop next at offset rest s ih n h =
      committed-Advances r loop next at offset rest s ih n h
  after_commit-Advances r (Commit.temporary false true) loop next at offset rest s ih n h = record {
    behind = rest;
    split = refl;
    grown = omega arith;
    within = omega arith;
  }
  after_commit-Advances r (Commit.temporary true true) loop next at offset rest s ih n h = record {
    behind = rest;
    split = refl;
    grown = omega arith;
    within = omega arith;
  }
  after_commit-Advances r (Commit.broken false) loop next at offset rest s ih n h = record {
    behind = rest;
    split = refl;
    grown = omega arith;
    within = omega arith;
  }
  after_commit-Advances r (Commit.broken true) loop next at offset rest s ih n h = record {
    behind = rest;
    split = refl;
    grown = omega arith;
    within = omega arith;
  }

  after_handler-Advances :
      (r : KafkaRecord) (c : Commit) (loop : S → S × List Event × Exit)
      (next : List KafkaRecord → Type 0) (at : ℕ) (offset : Option ℕ) (rest : List KafkaRecord)
      (p : S × Result (Unit {0}))
      → IsAdvancing loop next
      → next rest
      → resume offset ≤ at
      → Advances at offset (r ∷ rest) (after_handler handler r c loop p).1
  unfolding after_handler
  after_handler-Advances r c loop next at offset rest (s, ok u) ih n h =
      after_commit-Advances r c loop next at offset rest s ih n h
  after_handler-Advances r c loop next at offset rest (s, err x) ih n h = record {
    behind = r ∷ rest;
    split = refl;
    grown = omega arith;
    within = omega arith;
  }

  after_fetch-Advances :
      (f : Fetch) (c : Commit) (loop : S → S × List Event × Exit) (next : List KafkaRecord → Type 0)
      (at : ℕ) (offset : Option ℕ) (rest : List KafkaRecord) (s : S)
      → IsAdvancing loop next
      → ServesFetch f rest next
      → resume offset ≤ at
      → Advances at offset rest (after_fetch handler f c loop s).1
  unfolding after_fetch
  after_fetch-Advances (fetched r) c loop next at offset [] s ih n h = absurd n
  after_fetch-Advances (fetched r) c loop next at offset (q ∷ rest) s ih n h =
      subst (λ x. Advances at offset (x ∷ rest) (after_handler handler r c loop (handler r s)).1)
        n.0 (after_handler-Advances r c loop next at offset rest (handler r s) ih n.1 h)
  after_fetch-Advances canceled c loop next at offset rest s ih n h = stays at offset rest h
  after_fetch-Advances (Fetch.temporary false) c loop next at offset rest s ih n h =
      ih at offset rest s n h
  after_fetch-Advances (Fetch.temporary true) c loop next at offset rest s ih n h =
      stays at offset rest h
  after_fetch-Advances Fetch.broken c loop next at offset rest s ih n h = stays at offset rest h

  pub run-Advances :
      (rounds : List Round) (at : ℕ) (offset : Option ℕ) (rest : List KafkaRecord) (s : S)
      → Serves rest rounds
      → resume offset ≤ at
      → Advances at offset rest (run handler rounds s).1
  unfolding run
  run-Advances [] at offset rest s n h = stays at offset rest h
  run-Advances (x ∷ rounds) at offset rest s n h =
      after_fetch-Advances x.fetch x.commit (run handler rounds) (λ r. Serves r rounds) at offset
        rest s (run-Advances rounds) n h

  after_commit-Accepts :
      (r : KafkaRecord) (c : Commit) (loop : S → S × List Event × Exit) (s : S)
      → Accepts handler r
      → ((t : S) → All (Accepts handler) (accepted_of (loop t).1))
      → All (Accepts handler) (accepted_of (after_commit handler r c loop s).1)
  unfolding after_commit
  after_commit-Accepts r accepted loop s a ih = (a, ih s)
  after_commit-Accepts r (Commit.temporary false false) loop s a ih = (a, ih s)
  after_commit-Accepts r (Commit.temporary true false) loop s a ih = (a, ih s)
  after_commit-Accepts r (Commit.temporary false true) loop s a ih = (a, tt)
  after_commit-Accepts r (Commit.temporary true true) loop s a ih = (a, tt)
  after_commit-Accepts r (Commit.broken false) loop s a ih = (a, tt)
  after_commit-Accepts r (Commit.broken true) loop s a ih = (a, tt)

  after_handler-Accepts :
      (r : KafkaRecord) (c : Commit) (loop : S → S × List Event × Exit) (s : S)
      (p : S × Result (Unit {0}))
      → handler r s ≡ p
      → ((t : S) → All (Accepts handler) (accepted_of (loop t).1))
      → All (Accepts handler) (accepted_of (after_handler handler r c loop p).1)
  unfolding after_handler
  after_handler-Accepts r c loop s (t, ok u) e ih = after_commit-Accepts r c loop t (s, t, e) ih
  after_handler-Accepts r c loop s (t, err x) e ih = tt

  after_fetch-Accepts :
      (f : Fetch) (c : Commit) (loop : S → S × List Event × Exit) (s : S)
      → ((t : S) → All (Accepts handler) (accepted_of (loop t).1))
      → All (Accepts handler) (accepted_of (after_fetch handler f c loop s).1)
  unfolding after_fetch
  after_fetch-Accepts (fetched r) c loop s ih =
      after_handler-Accepts r c loop s (handler r s) refl ih
  after_fetch-Accepts canceled c loop s ih = tt
  after_fetch-Accepts (Fetch.temporary false) c loop s ih = ih s
  after_fetch-Accepts (Fetch.temporary true) c loop s ih = tt
  after_fetch-Accepts Fetch.broken c loop s ih = tt

  pub run-Accepts :
      (rounds : List Round) (s : S) → All (Accepts handler) (accepted_of (run handler rounds s).1)
  unfolding run
  run-Accepts [] s = tt
  run-Accepts (x ∷ rounds) s =
      after_fetch-Accepts x.fetch x.commit (run handler rounds) s (run-Accepts rounds)
