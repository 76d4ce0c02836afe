-- ===== src/Api.antt =====
-- internal/api/http: what the handlers answer. `writeError` and `writeJSON` of
-- handler/job_handler.go; headers are left out.
pub mod Paging
pub mod Replay
pub mod Submit
pub mod Status
pub mod Workers
pub mod Auth
pub mod Limit
pub mod Router
use distributed_job_schedule.Prelude.{ℕ, String}

-- A status code with an error's text, or with a body.
pub data Response (A : Type 0) : Type 0 where
  error : ℕ → String → Response A
  reply : ℕ → A → Response A
