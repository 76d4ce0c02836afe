-- ===== src/Api/Router/Closed.antt =====
-- What a request achieves that a middleware refuses.
use distributed_job_schedule.Prelude.{
  ℕ, ◌≡◌, ◌≢◌, ◌≤◌, ◌⊎◌, inl, inr, true, [], ◌∷◌, refl, some, arith, Bool-cases,
}
use distributed_job_schedule.Repository.Database.{reachable}
use distributed_job_schedule.Broker.World.{World, Env}
use distributed_job_schedule.Strings.{Text, is_empty, same}
use distributed_job_schedule.Strings.Trim.{same_iff}
use distributed_job_schedule.Api.Auth
use distributed_job_schedule.Api.Limit.{Limiter, Origin, rate_limit, extract_ip, counter, allow}
use distributed_job_schedule.Api.Limit.Counted.{slot_at, counter-bump, same_slot_iff}
use distributed_job_schedule.Api.Router.{
  Endpoint, closed, HttpRequest, Answer, Server, handle_request,
}

-- All that the API keeps but the counters of the rate limiter.
pub record IsUntouched (w w' : World) : Type 0 where
  pub db : w'.db ≡ w.db
  pub log : w'.log ≡ w.log
  pub cache : w'.cache ≡ w.cache
  pub keys : w'.keys ≡ w.keys
  pub metrics : w'.metrics ≡ w.metrics

rate_limit-IsUntouched :
    (env : Env) (l : Limiter) (second : ℕ) (o : Origin) (w : World)
    → IsUntouched w (rate_limit env l second o w).0
unfolding rate_limit allow
rate_limit-IsUntouched env l second o w = ground arith

empty : (key : Text) → is_empty key ≡ true → key ≡ []
empty [] h = refl
empty (x ∷ key) h = absurd (ground arith)

refusal-wrong :
    (key : Text) (h : Auth.Headers)
    → key ≢ []
    → Auth.extract_api_key h ≢ key
    → (Auth.refusal key h
        ≡ some "missing API key: provide Authorization: Bearer <key> or X-API-Key header")
      ⊎ (Auth.refusal key h ≡ some "invalid API key")
unfolding Auth.refusal
refusal-wrong key h configured wrong = elim (Bool-cases (is_empty key)) [
  | inl e ↦ absurd (configured (empty key e))
  | inr e ↦ elim (Bool-cases (same (Auth.extract_api_key h) key)) [
    | inl right ↦ absurd (wrong ((same_iff (Auth.extract_api_key h) key).0 right))
    | inr other ↦ ground arith
  ]
]

-- Where a key is configured, a request to a route behind APIKeyAuth that offers another key, or none,
-- changes nothing but a counter of the rate limiter, and is answered by a middleware, with 401 unless
-- the limiter has refused it before.
pub handle_request-closed :
    (env : Env) (s : Server) (q : HttpRequest) (w : World) (e : Endpoint)
    → q.route ≡ closed e
    → s.api_key ≢ []
    → Auth.extract_api_key q.headers ≢ s.api_key
    → let (w', answer) = handle_request env s q w in
      IsUntouched w w'
      × ((answer
            ≡ Answer.refused 401
                "missing API key: provide Authorization: Bearer <key> or X-API-Key header")
          ⊎ (answer ≡ Answer.refused 401 "invalid API key")
          ⊎ (answer ≡ Answer.refused 429 "rate limit exceeded")
          ⊎ (answer ≡ Answer.refused 500 "rate limit check failed"))
unfolding handle_request rate_limit allow
handle_request-closed env s q w e route configured wrong =
    elim (refusal-wrong s.api_key q.headers configured wrong) [
      | inl missing ↦ ground arith
      | inr invalid ↦ ground arith
    ]

-- A request whose address has used its window up is answered 429 over a Redis that answers, on every
-- route and with whatever key, and changes nothing but the counter.
pub handle_request-limited :
    (env : Env) (s : Server) (q : HttpRequest) (w : World)
    → env.redis w.calls ≡ reachable
    → s.limiter.limit ≤ counter (slot_at s.limiter (q.second, extract_ip q.origin)) w.rates
    → let (w', answer) = handle_request env s q w in
      IsUntouched w w' × (answer ≡ Answer.refused 429 "rate limit exceeded")
unfolding handle_request rate_limit allow
handle_request-limited env s q w up full =
    let slot = slot_at s.limiter (q.second, extract_ip q.origin) in
    ground (arith, counter-bump slot slot w.rates, same_slot_iff slot slot)
