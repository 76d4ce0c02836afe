-- ===== src/Api/Limit/Counted.antt =====
-- How many requests of one key pass in one window.
use Prim.Native.Nat.{min, ◌/◌}
use distributed_job_schedule.Prelude.{
  ℕ, ◌+◌, ◌≡◌, ◌↔◌, ap, ◌∙◌, inl, inr, Bool, true, false, ◌&&◌, List, [], ◌∷◌, leb, if◌then◌else◌,
  arith, Bool-cases,
}
use distributed_job_schedule.Errors.{Result, ok, err}
use distributed_job_schedule.Repository.Database.{reachable}
use distributed_job_schedule.Strings.{Text}
use distributed_job_schedule.Strings.Trim.{same_iff}
use distributed_job_schedule.Broker.World.{World, Env, Slot}
use distributed_job_schedule.Api.Limit.{same_slot, counter, bump, Limiter, allow}

pub same_slot_iff : (a b : Slot) → (same_slot a b ≡ true) ↔ (a ≡ b)
same_slot_iff a b = ground (arith, same_iff a.key b.key)

pub counter-bump :
    (s t : Slot) (rates : List (Slot × ℕ))
    → counter t (bump s rates) ≡ (if same_slot s t then counter t rates + 1 else counter t rates)
counter-bump s t [] = ground arith
counter-bump s t ((u, n) ∷ rates) =
    ground (arith, same_slot_iff u s, same_slot_iff u t, same_slot_iff s t, counter-bump s t rates)

-- Requests by the second at which they arrive and their key, one after the other.
abbrev pub Arrivals : Type 0
Arrivals = List (ℕ × Text)

abbrev pub slot_at : Limiter → ℕ × Text → Slot
slot_at l (second, key) = record { key = key; window = second / l.window }

-- How many of them are of a slot.
abbrev pub arrivals_of : Limiter → Slot → Arrivals → ℕ
arrivals_of l s [] = 0
arrivals_of l s (a ∷ rest) = (if same_slot (slot_at l a) s then 1 else 0) + arrivals_of l s rest

abbrev pub passes : Result (Bool × ℕ) → Bool
passes (err x) = false
passes (ok (b, remaining)) = b

one_more :
    (p limit c c' n : ℕ)
    → c' ≡ c + 1
    → p + min limit c' ≡ min limit (c' + n)
    → (if leb (c + 1) limit then 1 else 0) + p + min limit c ≡ min limit (c + (1 + n))
one_more p limit c c' n e h = ground arith

module _ (env : Env) (l : Limiter) where
  -- How many requests of a slot pass.
  pub passed : Slot → Arrivals → World → ℕ
  passed s [] w = 0
  passed s ((second, key) ∷ rest) w =
      let r = allow env l second key w in
      (if same_slot (slot_at l (second, key)) s && passes r.1 then 1 else 0) + passed s rest r.0

  pub allow_lem :
      (second : ℕ) (key : Text) (w : World)
      → env.redis w.calls ≡ reachable
      → let slot = slot_at l (second, key) in
        let (w', r) = allow env l second key w in
        (w'.rates ≡ bump slot w.rates) × (passes r ≡ leb (counter slot w.rates + 1) l.limit)
  unfolding allow
  allow_lem second key w up =
      let slot = slot_at l (second, key) in
      ground (arith, counter-bump slot slot w.rates, same_slot_iff slot slot)

  passed-counted :
      (s : Slot) (arrivals : Arrivals) (w : World)
      → ((n : ℕ) → env.redis n ≡ reachable)
      → passed s arrivals w + min l.limit (counter s w.rates)
        ≡ min l.limit (counter s w.rates + arrivals_of l s arrivals)
  unfolding passed
  passed-counted s [] w up = omega arith
  passed-counted s ((second, key) ∷ rest) w up =
      let slot = slot_at l (second, key) in
      let r = allow env l second key w in
      let (rates, answer) = allow_lem second key w (up w.calls) in
      let counted : counter s r.0.rates
          ≡ (if same_slot slot s then counter s w.rates + 1 else counter s w.rates) =
        ap (counter s) rates ∙ counter-bump slot s w.rates in
      let ih = passed-counted s rest r.0 up in
      elim (Bool-cases (same_slot slot s)) [
        | inl e ↦
            let here : slot ≡ s = (same_slot_iff slot s).0 e in
            let full : passes r.1 ≡ leb (counter s w.rates + 1) l.limit =
              answer ∙ ap (λ t. leb (counter t w.rates + 1) l.limit) here in
            rw (e, full)
              (one_more (passed s rest r.0) l.limit (counter s w.rates) (counter s r.0.rates)
                (arrivals_of l s rest)
                (counted ∙ ap (λ b. if b then counter s w.rates + 1 else counter s w.rates) e) ih)
        | inr e ↦ rw e (
            omega (
              arith,
              ih,
              counted ∙ ap (λ b. if b then counter s w.rates + 1 else counter s w.rates) e,
            ))
      ]

-- Of the requests with one key in one window, among any others before, between and behind them, as many
-- pass as the limit says, or all if they are fewer: over a Redis that answers and has no counter for
-- the window at first.
pub passed-fresh :
    (env : Env) (l : Limiter) (s : Slot) (arrivals : Arrivals) (w : World)
    → ((n : ℕ) → env.redis n ≡ reachable)
    → counter s w.rates ≡ 0
    → passed env l s arrivals w ≡ min l.limit (arrivals_of l s arrivals)
passed-fresh env l s arrivals w up none_yet = omega (arith, passed-counted env l s arrivals w up)
