-- ===== src/Lib.antt =====
-- A model of the distributed job scheduler, with the theorems that make its parts correct.
--
-- The program is four processes over one PostgreSQL database, one Kafka cluster and one Redis. The API
-- inserts jobs. The scheduler (the one that leads) assigns pending jobs to healthy workers and sends
-- each a record of the topic `jobs`, takes the workers' heartbeats, and takes jobs back from workers
-- that fall silent. A worker runs its jobs and sends their results. The result collector marks the
-- jobs by these results and sends those that have failed too often to the dead letters, which it
-- keeps in a table.
--
-- Which file models which part:
--   Models, Errors          internal/models, the enumerations of migrations/001_init.up.sql, the errors
--   Repository.Database     the tables, PostgreSQL as an interface, the links to it
--   Repository.Jobs         internal/repository/jobs.go, with constraints and trigger of migrations/001
--   Repository.Workers      internal/repository/workers.go
--   Repository.DeadLetters  internal/repository/dead_letters.go, with migrations/002 and 003
--   Repository.Operations   all calls that write as one type; the invariant of the tables (Validity)
--                           and the life cycle of a job (Lifecycle)
--   Broker.Messages         internal/broker/messages.go and topics.go; encoding/json as an interface
--   Config                  `Load` of internal/config/config.go
--   Broker.World            what the processes share, and what the environment decides for each call
--   Broker.Producer         internal/broker/producer.go and job_publisher.go
--   Broker.Consumer         the loop `Run` of internal/broker/consumer.go; how it takes errors (Errors), and
--                           the offset of its group over restarts (Offsets)
--   Scheduler.Dispatcher    `tick` of internal/scheduler/dispatcher.go
--   Scheduler.Monitor       `tick` of internal/scheduler/heartbeat_monitor.go
--   Scheduler.Loops         the loops `Run` of the last two
--   Scheduler.Heartbeat     internal/scheduler/heartbeat_consumer.go
--   Collector.Results       internal/collector/result_collector.go
--   Collector.DeadLetters   internal/collector/dead_letter_consumer.go
--   Scheduler.Leader        internal/scheduler/leader.go, and several schedulers at one lock (Exclusive)
--   Scheduler.Main          the loop of cmd/scheduler/main.go
--   Worker                  internal/worker/kafka_consumer.go and kafka_producer.go, and `execute` of
--                           internal/worker/executor.go
--   Worker.Pool             the goroutines of `Run` of internal/worker/executor.go
--   Worker.Main             the heartbeats and the runners of cmd/worker/main.go, and how the process ends
--                           (Shutdown)
--   System                  all of the programs at once over what they share, as a step relation; the way
--                           of one job through all of them (Pipeline), of one that always
--                           fails (Rounds) and of one whose worker falls silent (Recovery); a tick of the
--                           dispatcher between its calls (Moments)
--   Metrics                 the collectors and `Register` of internal/metrics/prometheus.go
--   Application             which resources internal/db/db.go, internal/application/api.go and
--                           cmd/result-collector/main.go open and close, and what ends the API
--                           (internal/api/http/server.go, cmd/api/main.go)
--   Migrate                 `run` of cmd/migrate/main.go
--   Api.Paging              the parameters of the handlers that list
--   Api.Submit              `SubmitJob` and `CancelJob` of internal/api/http/handler/job_handler.go, over
--                           internal/cache/idempotency.go
--   Api.Status              `GetJobStatus` and `ListJobs` of the same file, over
--                           internal/cache/status_cache.go
--   Api.Replay              internal/api/http/handler/dead_letter_handler.go
--   Api.Workers             internal/api/http/handler/worker_handler.go
--   Api.Auth                internal/api/http/middleware/auth.go
--   Api.Limit               internal/cache/ratelimit.go and internal/api/http/middleware/ratelimit.go
--   Api.Router              internal/api/http/router.go: the middlewares and the handlers behind them
--   Strings                 what the code uses of the packages strings, strconv and net, on lists of codes
--   Prelude                 Boolean tests, lists, integers and sorting over the native numbers
--   Tests                   functions that fill the interfaces, and the theorems at concrete inputs
--
-- How the model stands for the code:
--   A method of Go is the function of the same name in snake case, from the state to the new state and a
--   Result; an error is a value of Errors.Error without its text. A UUID is a number, a time the
--   microseconds of a clock, a payload its bytes, a float64 its hundredths as NUMERIC(5,2) keeps them.
--   An SQL statement is a function on the rows of the tables, written from its text. Engine is what
--   only PostgreSQL decides: how rows that tie are sorted, which may
--   differ from call to call, the order that RETURNING gives, how JSONB
--   stores a payload. Call is what the environment decides for one statement: the state of the link
--   (it holds, is refused before the statement, or is lost after it), the time, which rows other
--   transactions lock, and the UUID that gen_random_uuid gives. Kafka is a log of records and a link
--   that holds, refuses, or loses the answer. Env numbers the calls, so that any of them may fail in
--   any way, independently of the others.
--   Loops over rows are recursion on the list. The consumer's loop, which has no end of its own, runs
--   over a finite list of rounds, each with what the fetch and the commit answer: the theorems hold
--   for every such list, that is for every finite prefix of a run. The goroutines of a worker, and
--   several schedulers at one lock, are step relations. SHA-256 is a parameter; the runners of Worker are one, too,
--   and Worker.Main has those of the program.
--   Kafka hands the records of a partition out in their order to the one reader of a group, from the offset
--   that the group has committed: this is the hypothesis of a start in Broker.Consumer.Offsets. A worker's
--   process ends with all its goroutines when main returns, so Worker.Main.Shutdown puts main and the arm
--   of the executor's select for its context around the steps of the pool.
--   The select of the scheduler's loop takes any arm that is ready, so its turns are a step relation, too.
--   In System a step is a whole handler, and what is proved of it holds between handlers.
--   System.Moments takes the dispatcher's tick apart into its calls and lets single calls of the other
--   programs come between them; Repository.Operations has the histories in which the single calls of all
--   programs come in any order. A text that is parsed is a list of codes; `equal_fold`
--   folds ASCII letters, which are all that the word it is used for has. The library of the migrations
--   is a parameter, and the table of versions that it keeps for itself is left out.
--
-- What is not modelled: logging, the values of the gauges and histograms of the metrics, how long a
-- timer runs (the loops take what their select takes), the time to live of the entries in Redis (the status cache keeps an
-- answer for five minutes, the idempotency store a key for a day),
-- headers of responses, what chi does for a path without a route and in its own middlewares, the
-- limits of a connection pool, the HTTP servers themselves, and the values that a program only passes on: these are
-- calls of libraries with constants, and keep no state of the program. The mocks of internal/worker
-- are generated, and testing holds what the tests start.
pub mod Prelude
pub mod Strings
pub mod Models
pub mod Errors
pub mod Config
pub mod Metrics
pub mod Migrate
pub mod Repository
pub mod Broker
pub mod Scheduler
pub mod Collector
pub mod Worker
pub mod System
pub mod Application
pub mod Api
mod Tests
