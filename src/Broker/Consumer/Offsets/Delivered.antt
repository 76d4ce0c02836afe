-- ===== src/Broker/Consumer/Offsets/Delivered.antt =====
-- What the committed offset promises.
use mathlib.Core.Path.{subst}
use mathlib.Core.List.{Sublistᴰ}
use distributed_job_schedule.Prelude.{
  ℕ, ◌+◌, ◌-◌, ◌≤◌, ◌≡◌, ◌≢◌, ap, sym, inl, inr, Option, List, ◌∷◌, ◌++◌, arith, length, take, drop,
  leb, Bool-cases,
}
use distributed_job_schedule.Prelude.Sublists.{
  Sublistᴰ-append, take-append-Sublistᴰ, take-add, length-append, length-drop, All, All-append,
  All-Sublistᴰ, All-take_reached,
}
use distributed_job_schedule.Errors.{Result, ok}
use distributed_job_schedule.Broker.World.{KafkaRecord}
use distributed_job_schedule.Broker.Consumer.{run}
use distributed_job_schedule.Broker.Consumer.Offsets.{
  resume, offset_after, accepted_of, Accepts, Reaches, here, started,
}
use distributed_job_schedule.Broker.Consumer.Offsets.Session.{run-Advances, run-Accepts}

-- The offset keeps behind what the handler has accepted.
IsBehind : List KafkaRecord → ℕ → List KafkaRecord → Type 0
IsBehind log n done = (n ≤ length log) × Sublistᴰ (take n log) done

IsBehind-moves :
    (log done front behind : List KafkaRecord) (n m : ℕ)
    → IsBehind log n done
    → drop n log ≡ front ++ behind
    → n ≤ m
    → m ≤ n + length front
    → IsBehind log m (done ++ front)
unfolding IsBehind
IsBehind-moves log done front behind n m (fits, within) split low high =
    let e : n + (m - n) ≡ m = omega arith in
    (
      omega (arith, length-drop n log fits, ap length split, length-append front behind),
      subst (λ k. Sublistᴰ (take k log) (done ++ front)) e
          (subst (λ l. Sublistᴰ l (done ++ front)) (sym (take-add n (m - n) log))
            (Sublistᴰ-append within (
              subst (λ l. Sublistᴰ (take (m - n) l) front) (sym split)
                (take-append-Sublistᴰ (m - n) front behind (omega arith))))),
    )

-- Over every restart of the consumer, and whatever Kafka and the handler answer: the records below the
-- group's offset are records of the partition, the handler has accepted each of them, in the order of the
-- partition, and everything that counts as accepted was accepted in some state.
pub Reaches-accepted :
    {S : Type 0} (handler : KafkaRecord → S → S × Result (Unit {0})) (log : List KafkaRecord)
    (first : S) (offset : Option ℕ) (s : S) (done : List KafkaRecord)
    → Reaches handler log first offset s done
    → (resume offset ≤ length log)
      × Sublistᴰ (take (resume offset) log) done
      × All (Accepts handler) done
unfolding IsBehind
Reaches-accepted handler log first _ _ _ here = (omega arith, Sublistᴰ.slnil, tt)
Reaches-accepted handler log first _ _ _ (started offset s done before rounds serves) =
    let at = resume offset in
    let events = (run handler rounds s).1 in
    let a = run-Advances handler rounds at offset (drop at log) s serves (omega arith) in
    let (fits, within, accepts) = Reaches-accepted handler log first offset s done before in
    let (fits', within') =
      IsBehind-moves log done (accepted_of events) a.behind at
        (resume (offset_after at offset events)) (fits, within) a.split a.grown a.within in
    (
      fits',
      within',
      All-append (Accepts handler) done (accepted_of events) accepts (run-Accepts handler rounds s),
    )

-- A record that its handler refuses in every state is never passed: over every restart of the consumer
-- the group's offset stays at or below that record, so that nothing behind it is ever committed.
pub Reaches-poisoned :
    {S : Type 0} (handler : KafkaRecord → S → S × Result (Unit {0}))
    (before after : List KafkaRecord) (r : KafkaRecord) (first : S) (offset : Option ℕ) (s : S)
    (done : List KafkaRecord)
    → ((t : S) → (handler r t).1 ≢ ok tt)
    → Reaches handler (before ++ r ∷ after) first offset s done
    → resume offset ≤ length before
Reaches-poisoned handler before after r first offset s done refuses reached =
    let (fits, within, accepts) =
      Reaches-accepted handler (before ++ r ∷ after) first offset s done reached in
    elim (Bool-cases (leb (resume offset) (length before))) [
      | inl low ↦ ground arith
      | inr high ↦
          let (t, u, e) =
            All-take_reached (Accepts handler) (resume offset) before after r (ground arith)
              (All-Sublistᴰ (Accepts handler) within accepts) in
          absurd (refuses t (ap (λ p. p.1) e))
    ]
