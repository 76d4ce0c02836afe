-- ===== src/Config/Load.antt =====
-- Which environments `Load` accepts, and what it makes of them.
use distributed_job_schedule.Prelude.{ℕ, ◌≤◌, ◌≡◌, false, List, ◌∷◌}
use distributed_job_schedule.Prelude.Int.{pos}
use distributed_job_schedule.Errors.{ok}
use distributed_job_schedule.Strings.{Text, is_empty, format, max_int64}
use distributed_job_schedule.Strings.Split.{join, Lack, split-join}
use distributed_job_schedule.Strings.Decimal.{atoi-format, is_empty-format}
use distributed_job_schedule.Config.{Environ, load}

-- An environment that spells a configuration out is read back as that configuration: the port in
-- decimal, from 0 to the greatest int, and the brokers joined by commas, of which none has a comma.
-- The data source, the brokers' text and the Redis address are not empty.
pub load-printed :
    (e : Environ) (dsn redis key : Text) (port : ℕ) (b : Text) (bs : List Text)
    → e "DATABASE_URL" ≡ dsn
    → e "HTTP_PORT" ≡ format port
    → e "KAFKA_BROKERS" ≡ join b',' (b ∷ bs)
    → e "REDIS_ADDR" ≡ redis
    → e "API_KEY" ≡ key
    → is_empty dsn ≡ false
    → port ≤ max_int64
    → Lack b',' (b ∷ bs)
    → is_empty (join b',' (b ∷ bs)) ≡ false
    → is_empty redis ≡ false
    → load e
      ≡ ok (record {
        postgres_dsn = dsn;
        http_port = pos port;
        kafka_brokers = b ∷ bs;
        redis_addr = redis;
        api_key = key;
      })
unfolding load
load-printed e dsn redis key port b bs ed ep eb er ek nd fits lacks nb nr =
    rw
      (
        ed,
        nd,
        ep,
        is_empty-format port,
        atoi-format port fits,
        eb,
        nb,
        split-join b',' b bs lacks,
        er,
        nr,
        ek,
      )
      (cc)
