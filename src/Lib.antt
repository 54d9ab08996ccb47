-- ===== src/Lib.antt =====
-- GoSpoc, a judge for programming contests: an HTTP service takes submissions, stores them in
-- Postgres and enqueues them on a Redis stream; workers claim them, run them in Docker containers
-- against a problem's test cases, record a verdict and publish every change of status.
--
-- What stands where, with the Go code that it models:
--   User, Problem, TestCase, Submission and their Repository: internal/user, internal/problem,
--     internal/testcase, internal/submission (the structs, and each repository.go). Db holds the
--     tables of migrations/, Db/Order the ORDER BY of the listings. An SQL statement is a function
--     on the tables, with the constraints of the migrations; a method runs it over the connection.
--     Submission/Schedule is a sequence of statements, and Submission/Spec the machine on statuses
--     that they implement.
--   Auth/Middleware, Auth/Password, Auth/Jwt, Auth/Handler: the files of internal/auth.
--     Strings/Base64 is the encoding of the stored passwords, Strings/Scan what the code uses of fmt.Sscanf.
--   Problem/Handler: internal/problem/handler.go. Api: the routes of cmd/api/main.go.
--   Config: internal/config/config.go.
--   Httpx: the files of internal/httpx, the middleware around every handler. Httpx/Recovery
--     ends with the chain of them that cmd/api/main.go sets up.
--   Submission/Handler: internal/submission/handler.go; Handler/Stream is `Events`, whose
--     outcome says what was written and whether the handler has returned or waits. A handler takes
--     the user that the middleware found and the decoded body, and gives the status with the
--     text of the error or the value that is written as JSON. Http is its reply.
--   Events, Events/Publisher, Events/Subscriber: internal/events/events.go.
--   Queue: internal/queue/queue.go and internal/queue/redisstream/redisstream.go.
--   Sweeper: internal/submission/sweeper.go. Worker: internal/worker/worker.go (`process`,
--     `publish`); Worker/Consumer is the loop of one goroutine, cut into the stages where others may
--     come in between, and Worker/Pool the goroutines of `Run` with the API server and the sweeper
--     beside them, in any interleaving of their stages.
--   Cmd/Worker, Cmd/Api: the main functions of cmd/worker/main.go and cmd/api/main.go, with what they
--     defer (Cmd). Storage: internal/storage/postgres.go and internal/storage/redis.go.
--   Judge: internal/judge/judge.go. Judge/Normalize is `normalize`, Judge/Classify `classify` and
--     `truncate`, Judge/Languages `New` and the table of languages, Judge/Run `Run`.
--   Sandbox: the request and the output of judge.go; Sandbox/Docker is
--     internal/judge/dockersandbox.go. Runner, Runner/Capped: sandbox/runner/main.go.
--   Strings, Strings/Decimal, Strings/Utf8, Strings/Case: the functions of `strings`, `strconv` and
--     UTF-8 that the code calls. Prelude, Result: shared helpers, and Go's pair of value and error.
--   Flow: the parts put together, from a request to the verdict and the events that its sender sees.
--   Integrity: what holds of the tables at all times, under every statement that writes.
--   Tests: runs on small inputs, and the theorems at inputs that meet their conditions.
--
-- How the outside is modelled. World holds the tables, the commands sent to Redis, the requests sent
-- to the sandbox, and a count of the calls made. Env says how each call ends, by its number: a
-- statement is carried out and answered (`up`), is refused, or is carried out and its answer lost;
-- Redis takes a command or not; the sandbox gives an output or fails; the clocks give a time. A
-- theorem over every Env therefore covers every failure of the outside. An action (Act) maps the Env
-- and the World to a result and the World behind it; World/Try chains actions that stop at the first
-- error. Submission/Schedule gives the sequences of statements that several processes send, in any
-- order: a statement is atomic, as in Postgres at READ COMMITTED for one row. A statement that Postgres
-- refuses for a reason that the tables do not show, such as a text that is no UTF-8, is one that ends
-- `refused`.
--
-- Texts are lists of code points where they come from a request's JSON, and lists of bytes elsewhere,
-- the UTF-8 of what result.json holds included, so that `truncate` cuts bytes; `int64`,
-- `int` and INTEGER columns are integers, whose range is written out where the code or the database
-- checks it. Fuel is used twice: digits_from in Strings/Decimal takes n + 1 rounds, which are enough
-- since each divides n by 10; drive in Worker/Consumer, which runs the stages of one job for
-- Worker/Consumer/Stages, takes the three that there are.
--
-- Not modelled: logging; the removal of the temporary directory; the bytes of JSON;
-- sandbox/runner/main_other.go, which only refuses to run. Case mapping beyond ASCII, Argon2, the
-- random source, the library that signs and reads tokens, the text of a time, the client libraries
-- of Postgres and Redis, flag.Parse, json.Marshal, the file system, the docker command with its
-- reading of a command line, and the process that the runner starts are parameters.
pub mod Prelude
pub mod Result
pub mod Strings
pub mod User
pub mod Problem
pub mod TestCase
pub mod Submission
pub mod Db
pub mod Events
pub mod Runner
pub mod Sandbox
pub mod Http
pub mod Httpx
pub mod Auth
pub mod World
pub mod Judge
pub mod Queue
pub mod Sweeper
pub mod Worker
pub mod Api
pub mod Storage
pub mod Config
pub mod Cmd
pub mod Flow
pub mod Integrity
mod Tests
