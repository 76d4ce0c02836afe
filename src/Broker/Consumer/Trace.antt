-- ===== src/Broker/Consumer/Trace.antt =====
-- In which order the loop handles and commits, and what state it leaves.
use distributed_job_schedule.Prelude.{◌≡◌, refl, sym, ap, ◌∙◌, true, false, List, [], ◌∷◌}
use distributed_job_schedule.Errors.{Result, ok, err}
use distributed_job_schedule.Broker.World.{KafkaRecord}
use distributed_job_schedule.Broker.Consumer.{
  Fetch, fetched, canceled, Commit, accepted, Round, Exit, stopped, failed, looping, Event, handled,
  refused, committed, run, after_fetch, after_handler, after_commit,
}

-- A commit follows the handling of its own record at once, and a record that the handler refuses is
-- the last and is not committed.
pub data IsTrace : List Event → Exit → Type 0 where
  over : (x : Exit) → IsTrace [] x
  done :
      (r : KafkaRecord) {rest : List Event} {x : Exit}
      → IsTrace rest x
      → IsTrace (handled r ∷ committed r ∷ rest) x
  left :
      (r : KafkaRecord) {rest : List Event} {x : Exit}
      → IsTrace rest x
      → IsTrace (handled r ∷ rest) x
  dropped : (r : KafkaRecord) → IsTrace (refused r ∷ []) failed

module _ {S : Type 0} (handler : KafkaRecord → S → S × Result (Unit {0})) where
  -- The state after the handler ran on the records of a trace, in its order.
  abbrev pub replay : List Event → S → S
  replay [] s = s
  replay (handled r ∷ events) s = replay events (handler r s).0
  replay (refused r ∷ events) s = replay events (handler r s).0
  replay (committed r ∷ events) s = replay events s

  abbrev IsFaithful : S → S × List Event × Exit → Type 0
  IsFaithful s o = IsTrace o.1 o.2 × (o.0 ≡ replay o.1 s)

  after_commit-IsFaithful :
      (r : KafkaRecord) (c : Commit) (loop : S → S × List Event × Exit) (s s' : S)
      → (handler r s).0 ≡ s'
      → ((t : S) → IsFaithful t (loop t))
      → IsFaithful s (after_commit handler r c loop s')
  unfolding after_commit
  after_commit-IsFaithful r accepted loop s s' e ih =
      (done r (ih s').0, (ih s').1 ∙ ap (replay (loop s').1) (sym e))
  after_commit-IsFaithful r (Commit.temporary false false) loop s s' e ih =
      (left r (ih s').0, (ih s').1 ∙ ap (replay (loop s').1) (sym e))
  after_commit-IsFaithful r (Commit.temporary true false) loop s s' e ih =
      (done r (ih s').0, (ih s').1 ∙ ap (replay (loop s').1) (sym e))
  after_commit-IsFaithful r (Commit.temporary false true) loop s s' e ih =
      (left r (over stopped), sym e)
  after_commit-IsFaithful r (Commit.temporary true true) loop s s' e ih =
      (done r (over stopped), sym e)
  after_commit-IsFaithful r (Commit.broken false) loop s s' e ih = (left r (over failed), sym e)
  after_commit-IsFaithful r (Commit.broken true) loop s s' e ih = (done r (over failed), sym e)

  after_handler-IsFaithful :
      (r : KafkaRecord) (c : Commit) (loop : S → S × List Event × Exit) (s : S)
      (p : S × Result (Unit {0}))
      → handler r s ≡ p
      → ((t : S) → IsFaithful t (loop t))
      → IsFaithful s (after_handler handler r c loop p)
  unfolding after_handler
  after_handler-IsFaithful r c loop s (s', ok u) e ih =
      after_commit-IsFaithful r c loop s s' (ap (λ q. q.0) e) ih
  after_handler-IsFaithful r c loop s (s', err x) e ih = (dropped r, sym (ap (λ q. q.0) e))

  after_fetch-IsFaithful :
      (f : Fetch) (c : Commit) (loop : S → S × List Event × Exit) (s : S)
      → ((t : S) → IsFaithful t (loop t))
      → IsFaithful s (after_fetch handler f c loop s)
  unfolding after_fetch
  after_fetch-IsFaithful (fetched r) c loop s ih =
      after_handler-IsFaithful r c loop s (handler r s) refl ih
  after_fetch-IsFaithful canceled c loop s ih = (over stopped, refl)
  after_fetch-IsFaithful (Fetch.temporary false) c loop s ih = ih s
  after_fetch-IsFaithful (Fetch.temporary true) c loop s ih = (over stopped, refl)
  after_fetch-IsFaithful Fetch.broken c loop s ih = (over failed, refl)

-- Whatever Kafka answers, the loop commits a record only right after its handler has accepted that
-- record, never goes on behind a record that the handler refuses and does not commit it, and leaves
-- the state that the handler makes of the records in the order of the trace.
pub run-IsTrace :
    {S : Type 0} (handler : KafkaRecord → S → S × Result (Unit {0})) (rounds : List Round) (s : S)
    → let (s', events, exit) = run handler rounds s in
      IsTrace events exit × (s' ≡ replay handler events s)
unfolding run
run-IsTrace handler [] s = (over looping, refl)
run-IsTrace handler (x ∷ rounds) s =
    after_fetch-IsFaithful handler x.fetch x.commit (run handler rounds) s
      (run-IsTrace handler rounds)
