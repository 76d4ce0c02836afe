-- ===== src/Config.antt =====
-- internal/config/config.go. The environment is what it is when godotenv has added the variables of a
-- file .env, whose error `Load` ignores; a variable that is not set is empty.
pub mod Load
use distributed_job_schedule.Prelude.{
  String, Bool, Option, none, some, List, [], ◌∷◌, if◌then◌else◌,
}
use distributed_job_schedule.Prelude.Int.{ℤ, pos}
use distributed_job_schedule.Errors.{Result, ok, err, Error, missing_dsn, invalid_port}
use distributed_job_schedule.Strings.{Text, codes, is_empty, split, atoi}

-- `os.Getenv`
abbrev pub Environ : Type 0
Environ = String → Text

pub record Config : Type 0 where
  pub postgres_dsn : Text
  pub http_port : ℤ
  pub kafka_brokers : List Text
  pub redis_addr : Text
  pub api_key : Text

abbrev pub or_default : Text → Text → Text
or_default v d = if is_empty v then d else v

abbrev parsed : Option ℤ → Result ℤ
parsed none = err invalid_port
parsed (some n) = ok n

abbrev port_of : Text → Result ℤ
port_of v = if is_empty v then ok (pos 8080) else parsed (atoi v)

abbrev brokers_of : Text → List Text
brokers_of v = if is_empty v then codes "localhost:9092" ∷ [] else split b',' v

abbrev with_port : Environ → Result ℤ → Result Config
with_port e (err x) = err x
with_port e (ok port) = ok (record {
  postgres_dsn = e "DATABASE_URL";
  http_port = port;
  kafka_brokers = brokers_of (e "KAFKA_BROKERS");
  redis_addr = or_default (e "REDIS_ADDR") (codes "localhost:6379");
  api_key = e "API_KEY";
})

-- `Load`
unfoldable pub load : Environ → Result Config
load e =
    if is_empty (e "DATABASE_URL") then err missing_dsn else with_port e (port_of (e "HTTP_PORT"))
