-- ===== src/Errors.antt =====
-- Go's `(T, error)` results, and the errors that the program tells apart or passes on.
-- `not_found` is `ErrNotFound` of internal/repository/common.go and `payload_mismatch` is
-- `ErrPayloadMismatch` of internal/cache/idempotency.go, `missing_dsn` and `invalid_port` are the errors
-- of internal/config/config.go; the others stand for what pgx, kafka-go,
-- go-redis, encoding/json and a context that is done return.
pub data Error : Type 0 where
  not_found db_failure : Error
  unknown_topic publish_failure encode_failure decode_failure : Error
  redis_failure payload_mismatch canceled : Error
  missing_dsn invalid_port : Error

pub data Result {ℓ} (A : Type ℓ) : Type ℓ where
  ok : A → Result A
  err : Error → Result A
