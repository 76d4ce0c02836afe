-- ===== src/Metrics.antt =====
-- internal/metrics/prometheus.go: the collectors, and `Register`. The endpoint that serves them is left out.
use text.Mathlib.Text.{◌==◌ as str_eq}
use distributed_job_schedule.Prelude.{
  ◌≡◌, refl, String, Bool, true, false, ◌||◌, Option, none, some, List, [], ◌∷◌, ◌&&◌, not, any,
  arith,
}

-- The `Name` of each collector, in the order of `MustRegister`.
abbrev pub collectors : List String
collectors =
    "jobs_submitted_total" ∷ "jobs_completed_total" ∷ "jobs_failed_total" ∷ "jobs_retried_total"
    ∷ "jobs_dead_total" ∷ "jobs_replayed_total" ∷ "dead_letters_persisted_total"
    ∷ "worker_running_jobs" ∷ "worker_job_duration_seconds" ∷ []

-- The default registry of Prometheus: it has collectors by their names, takes one that it does not have,
-- and refuses one that it has.
pub record Registry (R : Type 0) : Type 0 where
  pub has : String → R → Bool
  pub add : String → R → Option R
  pub add-new :
      (n : String) (r : R)
      → has n r ≡ false
      → (r' : R) × (add n r ≡ some r') × ((m : String) → has m r' ≡ (str_eq m n || has m r))
  pub add-known : (n : String) (r : R) → has n r ≡ true → add n r ≡ none

module _ {R : Type 0} (p : Registry R) where
  abbrev pub and_then : Option R → (R → Option R) → Option R
  and_then none f = none
  and_then (some r) f = f r

  -- `MustRegister`, which panics at the first collector that is refused: `none`.
  abbrev pub must_register : List String → R → Option R
  must_register [] r = some r
  must_register (n ∷ names) r = and_then (p.add n r) (must_register names)

  -- The variable `registerOnce` with the registry.
  abbrev pub after_register : Option R → Option (Bool × R)
  after_register none = none
  after_register (some r) = some (true, r)

  -- `Register`; `done` is whether `registerOnce` has run.
  unfoldable pub register : Bool × R → Option (Bool × R)
  register (true, r) = some (true, r)
  register (false, r) = after_register (must_register collectors r)

  abbrev distinct : List String → Bool
  distinct [] = true
  distinct (n ∷ names) = not (any (λ m. str_eq m n) names) && distinct names

  still_free :
      (n : String) (names : List String) (r r' : R)
      → ((m : String) → p.has m r' ≡ (str_eq m n || p.has m r))
      → any (λ m. str_eq m n) names ≡ false
      → any (λ m. p.has m r) names ≡ false
      → any (λ m. p.has m r') names ≡ false
  still_free n [] r r' grown apart free = refl
  still_free n (m ∷ names) r r' grown apart free =
      ground (arith, grown m, still_free n names r r' grown)

  must_register-new :
      (names : List String) (r : R)
      → distinct names ≡ true
      → any (λ m. p.has m r) names ≡ false
      → (r' : R) × (must_register names r ≡ some r')
        × ((m : String) → p.has m r' ≡ (any (str_eq m) names || p.has m r))
  must_register-new [] r apart free = (r, refl, λ m. refl)
  must_register-new (n ∷ names) r apart free =
      let (r1, added, grown) = p.add-new n r (ground arith) in
      let (r2, done, all_there) =
        must_register-new names r1 (ground arith)
          (still_free n names r r1 grown (ground arith) (ground arith)) in
      (r2, rw added done, λ m. ground (arith, all_there m, grown m))

  -- Over a registry that has none of the nine collectors: the first `Register` does not panic and adds
  -- exactly these; another changes nothing; and if the function were run again without `registerOnce`,
  -- it would panic.
  pub register-once :
      (r : R)
      → any (λ m. p.has m r) collectors ≡ false
      → (r' : R) × (register (false, r) ≡ some (true, r'))
        × (register (true, r') ≡ some (true, r'))
        × (must_register collectors r' ≡ none)
        × ((m : String) → p.has m r' ≡ (any (str_eq m) collectors || p.has m r))
  unfolding register
  register-once r free =
      let (r', done, there) = must_register-new collectors r refl free in
      (
        r',
        rw done refl,
        refl,
        rw (p.add-known "jobs_submitted_total" r' (there "jobs_submitted_total")) refl,
        there,
      )
