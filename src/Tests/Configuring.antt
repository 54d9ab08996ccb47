-- ===== src/Tests/Configuring.antt =====
-- The settings.
use go_spoc.Prelude.{◌≡◌, refl, List, ℕ, String, [], codes, if◌then◌else◌}
use go_spoc.Prelude.Eq.{◌==◌, string_eq}
use go_spoc.Prelude.Int.{pos, wrap_int64, ◌*ℤ◌}
use go_spoc.Strings.Decimal.{format_int, format_nat, digits_from, parse_int, digits_value}
use go_spoc.Config.{get_int, get_str, load}
use go_spoc.Prelude.{true, false, none, ◌∷◌, length, All, ◌&&◌, some, List}
use go_spoc.World.{Env}
use go_spoc.Cmd.Worker as Work
use go_spoc.Cmd.Api as Serve
use go_spoc.Cmd.Api.{service, signal, crashed, redis_failed}
use go_spoc.Cmd.Api.Closes.{Leaves, served, main-Leaves}
use go_spoc.Storage.{Drivers, new, new_redis, dsn, redis_options, pool, client, opened, closed}
use go_spoc.Storage.Held.{Held}
use go_spoc.Cmd.Worker.Serves.{Serves, at_least_one, main-Serves}
use go_spoc.Queue as Queue
use go_spoc.Strings.{contains}
use go_spoc.Tests.Fixtures.{calm, start}

abbrev environment : String → List ℕ
environment key =
    if key == "REDIS_DB" then codes "-3" else if key == "PORT" then codes "http" else []

-- What is no number leaves the default.
bad_port_is_default : (load environment).port ≡ pos 8080
unfolding load get_int parse_int digits_value
bad_port_is_default = refl

abbrev no_group : Env
no_group = record calm { create_group = λ n. some (codes "NOAUTH Authentication required.") }

-- Both servers answer.
abbrev answering : Drivers
answering = record {
  new_pool = λ url. true;
  ping_pool = λ url. true;
  ping_client = λ options. true;
}

-- Redis does not answer.
abbrev no_redis : Drivers
no_redis = record answering { ping_client = λ options. false }

abbrev judge_host : List ℕ
judge_host = codes "judge"

main-Serves_example :
    let cfg = load environment in
    let (consumers, log) = (Work.main environment answering judge_host (pos 7) calm start).0 in
    All Serves consumers
    × length consumers ≡ (
        if answering.new_pool (dsn cfg)
          && answering.ping_pool (dsn cfg)
          && answering.ping_client (redis_options cfg)
          && (Queue.new calm start).0
        then at_least_one (load environment).worker_concurrency
        else 0)
    × Held [] log []
main-Serves_example = main-Serves environment answering judge_host (pos 7) calm start

-- Without a setting there are four goroutines, and none where the group cannot be made.
four_start : length (Work.main environment answering judge_host (pos 7) calm start).0.0 ≡ 4
unfolding Work.main new new_redis load get_int Queue.new go_spoc.Worker.Pool.start
    go_spoc.Worker.new
four_start = refl

none_start : (Work.main environment answering judge_host (pos 7) no_group start).0.0 ≡ []
unfolding Work.main new new_redis Queue.new contains
none_start = refl

-- An interval of zero seconds.
abbrev restless : String → List ℕ
restless key = if key == "SWEEP_INTERVAL_SEC" then codes "0" else []

main-Leaves_example :
    let cfg = load restless in
    let db = pool (dsn cfg) in
    let redis = client (redis_options cfg) in
    let (e, log) = (Serve.main restless answering true signal true calm start).0 in
    Leaves db redis e log
    × served e ≡ (
        if answering.new_pool (dsn cfg)
          && answering.ping_pool (dsn cfg)
          && answering.ping_client (redis_options cfg)
          && (Queue.new calm start).0
        then some (service cfg)
        else none)
main-Leaves_example = main-Leaves restless answering true signal true calm start

-- It crashes the server.
zero_crashes :
    (Serve.main restless answering true signal true calm start).0.0
    ≡ crashed (service (load restless))
unfolding Serve.main new new_redis Queue.new service load get_int parse_int digits_value wrap_int64
    ◌*ℤ◌
zero_crashes = refl

-- A client that does not answer is closed, and so is the pool.
no_redis_closes : (Serve.main environment no_redis true signal true calm start).0 ≡ (
  redis_failed,
  opened (pool (dsn (load environment)))
      ∷ opened (client (redis_options (load environment)))
      ∷ closed (client (redis_options (load environment)))
      ∷ closed (pool (dsn (load environment)))
      ∷ [],
)
unfolding Serve.main new new_redis
no_redis_closes = refl

-- A colon in the user's name: two settings with one URL.
abbrev with_user : String → String → String → List ℕ
with_user user password key =
    if key == "POSTGRES_DB_USER"
    then codes user
    else if key == "POSTGRES_DB_PASSWORD"
    then codes password
    else []

same_url : dsn (load (with_user "a" "b:c")) ≡ dsn (load (with_user "a:b" "c"))
unfolding dsn load get_str get_int format_int format_nat digits_from
same_url = refl
