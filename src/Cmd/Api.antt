-- ===== src/Cmd/Api.antt =====
-- cmd/api/main.go around its routes: the set-up, the server's end and the shutdown.
pub mod Closes
use go_spoc.Prelude.{
  ℕ, String, Bool, true, false, ◌&&◌, not, List, [], ◌∷◌, ◌++◌, Option, none, some, codes,
  if◌then◌else◌,
}
use go_spoc.Prelude.Int.{ℤ, pos, ◌*ℤ◌, wrap_int64}
use go_spoc.Strings.Decimal.{format_int}
use go_spoc.World.{Act, pure, ◌>>=◌}
use go_spoc.Config.{Config, load}
use go_spoc.Queue
use go_spoc.Storage.{Opened, Drivers, new, new_redis}
use go_spoc.Sweeper.{Sweeper, new_ticker}
use go_spoc.Sweeper as Sweeping
use go_spoc.Cmd.{Ran, deferred, behind}

-- What is started: the HTTP server's address, and the sweeper.
pub record Service : Type 0 where
  pub addr : List ℕ
  pub sweeper : Sweeper

pub data Exit : Type 0 where
  database_failed redis_failed queue_failed : Exit
  crashed server_failed shutdown_failed stopped : Service → Exit

-- `time.Duration(seconds) * time.Second`
abbrev pub seconds : ℤ → ℤ
seconds n = wrap_int64 (n *ℤ pos 1000000000)

unfoldable pub listen_addr : Config → List ℕ
unfolding format_int
listen_addr cfg = codes ":" ++ format_int cfg.port

unfoldable pub service : Config → Service
unfolding listen_addr wrap_int64 ◌*ℤ◌
service cfg = record {
  addr = listen_addr cfg;
  sweeper = Sweeping.new (seconds cfg.sweep_interval) (seconds cfg.sweep_stale);
}

-- What the `select` meets first.
pub data Stop : Type 0 where
  server_err signal : Stop

-- Does the main function return, so that what it deferred is done?
abbrev pub returns : Exit → Bool
returns (crashed s) = false
returns database_failed = true
returns redis_failed = true
returns queue_failed = true
returns (server_failed s) = true
returns (shutdown_failed s) = true
returns (stopped s) = true

-- `sweeps` says whether the sweeper's goroutine gets to run at all, `shutdown` whether
-- srv.Shutdown ends in time. A panic of the goroutine ends the process.
module _ (getenv : String → List ℕ) (drivers : Drivers) (sweeps : Bool) (stop : Stop)
    (shutdown : Bool) where
  abbrev pub on_stop : Service → Stop → Exit
  on_stop s server_err = server_failed s
  on_stop s signal = if shutdown then stopped s else shutdown_failed s

  abbrev pub serve : Service → Exit
  serve s = if sweeps && not (new_ticker s.sweeper) then crashed s else on_stop s stop

  abbrev pub on_queue : Bool → Exit
  on_queue ready = if ready then serve (service (load getenv)) else queue_failed

  abbrev pub on_redis : Opened → Act (Ran Exit)
  on_redis (none, log) = pure (redis_failed, log)
  on_redis (some h, log) =
      behind log (deferred returns h (Queue.new >>= λ ready. pure (on_queue ready, [])))

  abbrev pub on_pool : Opened → Act (Ran Exit)
  on_pool (none, log) = pure (database_failed, log)
  on_pool (some h, log) =
      behind log (deferred returns h (on_redis (new_redis drivers (load getenv))))

  unfoldable pub main : Act (Ran Exit)
  main = on_pool (new drivers (load getenv))
