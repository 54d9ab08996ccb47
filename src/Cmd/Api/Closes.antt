-- ===== src/Cmd/Api/Closes.antt =====
-- What the API server leaves open.
use go_spoc.Prelude.{
  String, Bool, true, false, ◌&&◌, not, ◌++◌, ◌≡◌, refl, List, ℕ, [], ◌∷◌, Option, none, some,
  arith, if◌then◌else◌,
}
use go_spoc.Prelude.Int.{pos, ◌≤ℤ◌}
use go_spoc.World.{Env, World}
use go_spoc.Config.{load}
use go_spoc.Queue
use go_spoc.Storage.{
  Handle, Action, opened, closed, Drivers, new, new_redis, dsn, redis_options, pinged, pool, client,
}
use go_spoc.Storage.Held.{Held, none_more, opening, closing}
use go_spoc.Cmd.{Ran, deferred, behind}
use go_spoc.Sweeper.{new_ticker}
use go_spoc.Cmd.Api.{
  Exit, Stop, server_err, signal, Service, service, main, on_pool, on_redis, on_queue, serve,
  on_stop, returns, database_failed, redis_failed, queue_failed, crashed, server_failed,
  shutdown_failed, stopped,
}

abbrev pub served : Exit → Option Service
served database_failed = none
served redis_failed = none
served queue_failed = none
served (crashed s) = some s
served (server_failed s) = some s
served (shutdown_failed s) = some s
served (stopped s) = some s

-- What is open where the program ends: both connections if it crashed, which takes an interval
-- that is not positive, and none otherwise.
abbrev pub Leaves : Handle → Handle → Exit → List Action → Type 0
Leaves db redis (crashed s) log = Held [] log (redis ∷ db ∷ []) × (s.sweeper.interval ≤ℤ pos 0)
Leaves db redis database_failed log = Held [] log []
Leaves db redis redis_failed log = Held [] log []
Leaves db redis queue_failed log = Held [] log []
Leaves db redis (server_failed s) log = Held [] log []
Leaves db redis (shutdown_failed s) log = Held [] log []
Leaves db redis (stopped s) log = Held [] log []

-- A crash has its reason.
abbrev Reasoned : Exit → Type 0
Reasoned (crashed s) = s.sweeper.interval ≤ℤ pos 0
Reasoned database_failed = Unit {0}
Reasoned redis_failed = Unit {0}
Reasoned queue_failed = Unit {0}
Reasoned (server_failed s) = Unit {0}
Reasoned (shutdown_failed s) = Unit {0}
Reasoned (stopped s) = Unit {0}

-- The log of a program that got both connections.
abbrev both : Handle → Handle → Exit → List Action
both db redis e =
    let inner = opened redis ∷ (if returns e then closed redis ∷ [] else []) in
    opened db ∷ (if returns e then inner ++ (closed db ∷ []) else inner)

both-Leaves : (db redis : Handle) (e : Exit) → Reasoned e → Leaves db redis e (both db redis e)
both-Leaves db redis (crashed s) h = (opening (opening none_more), h)
both-Leaves db redis database_failed h = opening (opening (closing (closing none_more)))
both-Leaves db redis redis_failed h = opening (opening (closing (closing none_more)))
both-Leaves db redis queue_failed h = opening (opening (closing (closing none_more)))
both-Leaves db redis (server_failed s) h = opening (opening (closing (closing none_more)))
both-Leaves db redis (shutdown_failed s) h = opening (opening (closing (closing none_more)))
both-Leaves db redis (stopped s) h = opening (opening (closing (closing none_more)))

module _ (getenv : String → List ℕ) (drivers : Drivers) (sweeps : Bool) (stop : Stop)
    (shutdown : Bool) where
  on_stop-Reasoned :
      (s : Service) (t : Stop) → Reasoned (on_stop getenv drivers sweeps stop shutdown s t)
  on_stop-Reasoned s server_err = tt
  on_stop-Reasoned s signal = on_shutdown shutdown
    where
      on_shutdown : (b : Bool) → Reasoned (if b then stopped s else shutdown_failed s)
      on_shutdown false = tt
      on_shutdown true = tt

  serve-Reasoned : (s : Service) → Reasoned (serve getenv drivers sweeps stop shutdown s)
  serve-Reasoned s = ticking sweeps (new_ticker s.sweeper) refl
    where
      ticking :
          (runs ticks : Bool)
          → new_ticker s.sweeper ≡ ticks
          → Reasoned (
              if runs && not ticks
              then crashed s
              else on_stop getenv drivers sweeps stop shutdown s stop)
      ticking false ticks e = on_stop-Reasoned s stop
      ticking true true e = on_stop-Reasoned s stop
      ticking true false e = ground (arith, e)

  on_queue-Reasoned : (ready : Bool) → Reasoned (on_queue getenv drivers sweeps stop shutdown ready)
  on_queue-Reasoned false = tt
  on_queue-Reasoned true = serve-Reasoned (service (load getenv))

  served-serve : (s : Service) → served (serve getenv drivers sweeps stop shutdown s) ≡ some s
  served-serve s = choosing (sweeps && not (new_ticker s.sweeper)) stop shutdown
    where
      choosing :
          (crashes : Bool) (t : Stop) (ends : Bool)
          → served (if crashes then crashed s else on_stop getenv drivers sweeps t ends s t)
            ≡ some s
      choosing true t ends = refl
      choosing false server_err ends = refl
      choosing false signal false = refl
      choosing false signal true = refl

  on_queue-Leaves :
      (db redis : Handle) (ready : Bool)
      → let e = on_queue getenv drivers sweeps stop shutdown ready in
        Leaves db redis e (both db redis e)
        × served e ≡ (if ready then some (service (load getenv)) else none)
  on_queue-Leaves db redis false = (both-Leaves db redis queue_failed tt, refl)
  on_queue-Leaves db redis true =
      (both-Leaves db redis _ (on_queue-Reasoned true), served-serve (service (load getenv)))

  -- What is left where the connection URL is `d`, and the servers answer or do not.
  abbrev Left : Handle → Bool → Ran Exit → Type 0
  Left db ready (e, log) =
      Leaves db (client (redis_options (load getenv))) e log
      × served e ≡ (if ready then some (service (load getenv)) else none)

  on_pool-Left :
      (d : List ℕ) (valid answers : Bool) (env : Env) (w : World)
      → Left
          (pool d)
          (valid
            && answers
            && drivers.ping_client (redis_options (load getenv))
            && (Queue.new env w).0)
          (on_pool getenv drivers sweeps stop shutdown
            (if valid then pinged (pool d) answers else (none, []))
            env
            w).0
  unfolding new_redis
  on_pool-Left d false answers env w = (none_more, refl)
  on_pool-Left d true false env w = (opening (closing none_more), refl)
  on_pool-Left d true true env w = on_ping (drivers.ping_client (redis_options (load getenv)))
    where
      on_ping :
          (b : Bool)
          → Left
              (pool d)
              (b && (Queue.new env w).0)
              (behind
                (opened (pool d) ∷ [])
                (deferred returns (pool d) (
                  on_redis getenv drivers sweeps stop shutdown
                    (pinged (client (redis_options (load getenv))) b)))
                env
                w).0
      on_ping false = (opening (opening (closing (closing none_more))), refl)
      on_ping true =
          on_queue-Leaves (pool d) (client (redis_options (load getenv))) (Queue.new env w).0

  -- The API server starts its service, on the port and with the sweeper's periods of the settings,
  -- exactly if the database, the Redis server and the consumer group can be reached. However it
  -- ends, each connection that it opened is closed once, the last one first, unless it crashes:
  -- then both stay open, and the sweeper's interval is not positive.
  pub main-Leaves :
      (env : Env) (w : World)
      → let cfg = load getenv in
        let db = pool (dsn cfg) in
        let redis = client (redis_options cfg) in
        let (e, log) = (main getenv drivers sweeps stop shutdown env w).0 in
        Leaves db redis e log
        × served e ≡ (
            if drivers.new_pool (dsn cfg)
              && drivers.ping_pool (dsn cfg)
              && drivers.ping_client (redis_options cfg)
              && (Queue.new env w).0
            then some (service cfg)
            else none)
  unfolding main new new_redis
  main-Leaves env w =
      on_pool-Left (dsn (load getenv)) (drivers.new_pool (dsn (load getenv)))
        (drivers.ping_pool (dsn (load getenv))) env w
