-- ===== src/Application.antt =====
-- internal/db/db.go, internal/application/api.go and internal/api/http/server.go, with cmd/api/main.go and
-- cmd/result-collector/main.go: which resources the programs open and close, and what they return.
pub mod Closing
use distributed_job_schedule.Prelude.{ℕ, String, Bool, true, false, List, [], ◌∷◌, ◌++◌}

-- What a program opens and closes again.
pub data Resource : Type 0 where
  pool idempotency_store rate_limiter status_cache : Resource
  producer result_consumer dead_letter_consumer : Resource

pub data Act : Type 0 where
  opens closes : Resource → Act

-- What pgx answers `New`: for the data source, the pool, and the ping within five seconds.
pub data Dial : Type 0 where
  bad_dsn not_created no_ping connected : Dial

pub data Failure : Type 0 where
  parse_dsn create_pool ping_db http_shutdown serving consumer_failed : Failure

pub data Ended : Type 0 where
  nil : Ended
  error : Failure → Ended

-- `db.New`, without the limits that it sets on a pool, of which a connection to the database is the result `nil`.
unfoldable pub new_db : Dial → List Act × Ended
new_db bad_dsn = ([], error parse_dsn)
new_db not_created = ([], error create_pool)
new_db no_ping = (opens pool ∷ closes pool ∷ [], error ping_db)
new_db connected = (opens pool ∷ [], nil)

-- A resource that is opened, with a deferred `Close`, around the rest of a function.
abbrev pub with_resource : Resource → List Act × Ended → List Act × Ended
with_resource r (acts, e) = (opens r ∷ acts ++ closes r ∷ [], e)

-- The same with the database, where `New` may fail.
abbrev pub with_db : List Act × Ended → List Act × Ended → List Act × Ended
with_db (acts, error x) rest = (acts, error x)
with_db (acts, nil) (acts', e) = (acts ++ acts' ++ closes pool ∷ [], e)

-- What `ListenAndServe` answers: `ErrServerClosed`, or another error.
pub data Served : Type 0 where
  server_closed listen_failed : Served

-- `Server.Start`
abbrev pub start : Served → Ended
start server_closed = nil
start listen_failed = error serving

-- `Server.Shutdown`, by whether the requests end in time, and its error in `RunAPI`.
abbrev pub shutdown : Bool → Ended
shutdown true = nil
shutdown false = error http_shutdown

-- What ends the API: its context, and whether the requests end within `shutdownTimeout`; or `Start`
-- returns an error.
pub data Ending : Type 0 where
  canceled : (drained : Bool) → Ending
  broken : Ending

abbrev pub selected : Ending → Ended
selected (canceled drained) = shutdown drained
selected broken = start listen_failed

-- `RunAPI`
unfoldable pub run_api : Dial → Ending → List Act × Ended
unfolding new_db
run_api d e = with_db (new_db d) (
    with_resource idempotency_store
      (with_resource rate_limiter (with_resource status_cache ([], selected e))))

-- `main` returns, or `log.Fatal` ends the process.
pub data Exit : Type 0 where
  returned fatal : Exit

abbrev pub exit_of : Ended → Exit
exit_of nil = returned
exit_of (error x) = fatal

-- `main` of cmd/api/main.go; `loads` is whether the configuration loads.
unfoldable pub main_api : Bool → Dial → Ending → List Act × Exit
unfolding run_api
main_api false d e = ([], fatal)
main_api true d e = let (acts, ended) = run_api d e in (acts, exit_of ended)

-- What the result collector has opened when it receives from `errCh`.
abbrev pub collector_resources : List Act
collector_resources =
    opens producer ∷ opens status_cache ∷ opens result_consumer ∷ opens dead_letter_consumer ∷ []

abbrev pub collector_closes : List Act
collector_closes =
    closes dead_letter_consumer
    ∷ closes result_consumer
    ∷ closes status_cache
    ∷ closes producer
    ∷ closes pool
    ∷ []

-- `log.Fatal` ends the process and runs no deferred function.
abbrev pub first_answer : Bool → List Act × Ended
first_answer true = (collector_resources, error consumer_failed)
first_answer false = (collector_resources ++ collector_closes, nil)

abbrev pub behind_db : List Act × Ended → List Act × Ended → List Act × Ended
behind_db (acts, error x) rest = (acts, error x)
behind_db (acts, nil) (acts', e) = (acts ++ acts', e)

-- `main` of the result collector; `fails` is whether the first of its two consumers to return returns an
-- error.
unfoldable pub run_collector : Dial → Bool → List Act × Ended
unfolding new_db
run_collector d fails = behind_db (new_db d) (first_answer fails)

abbrev pub same_resource : Resource → Resource → Bool
same_resource pool pool = true
same_resource idempotency_store idempotency_store = true
same_resource rate_limiter rate_limiter = true
same_resource status_cache status_cache = true
same_resource producer producer = true
same_resource result_consumer result_consumer = true
same_resource dead_letter_consumer dead_letter_consumer = true
same_resource _ _ = false
