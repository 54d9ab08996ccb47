-- ===== src/Storage.antt =====
-- internal/storage/postgres.go and internal/storage/redis.go. The client libraries are parameters;
-- the model records which connections are opened and closed.
pub mod Held
use go_spoc.Prelude.{ℕ, Bool, List, [], ◌∷◌, ◌++◌, Option, none, some, codes, if◌then◌else◌}
use go_spoc.Prelude.Int.{ℤ}
use go_spoc.Strings.Decimal.{format_int}
use go_spoc.Config.{Config}

-- redis.Options.
pub record Options : Type 0 where
  pub addr : List ℕ
  pub password : List ℕ
  pub db : ℤ

-- A *pgxpool.Pool and a *redis.Client, by what they were made with.
pub data Handle : Type 0 where
  pool : List ℕ → Handle
  client : Options → Handle

pub data Action : Type 0 where
  opened closed : Handle → Action

-- Whether pgxpool.New takes a connection URL, and whether the two servers answer a Ping.
pub record Drivers : Type 0 where
  pub new_pool : List ℕ → Bool
  pub ping_pool : List ℕ → Bool
  pub ping_client : Options → Bool

module _ (cfg : Config) where
  -- fmt.Sprintf("postgres://%s:%s@%s:%d/%s?sslmode=disable", …)
  unfoldable pub dsn : List ℕ
  unfolding format_int
  dsn =
      codes "postgres://"
      ++ (cfg.db_user
          ++ (codes ":"
              ++ (cfg.db_password
                  ++ (codes "@"
                      ++ (cfg.db_host
                          ++ (codes ":"
                              ++ (format_int cfg.db_port
                                  ++ (codes "/" ++ (cfg.db_name ++ codes "?sslmode=disable")))))))))

  abbrev pub redis_options : Options
  redis_options = record { addr = cfg.redis_addr; password = cfg.redis_password; db = cfg.redis_db }

-- `none` where there is an error; with it, what was opened and closed.
abbrev pub Opened : Type 0
Opened = Option Handle × List Action

-- A connection whose server does not answer is closed.
abbrev pub pinged : Handle → Bool → Opened
pinged h answers = if answers then (some h, opened h ∷ []) else (none, opened h ∷ closed h ∷ [])

unfoldable pub new : Drivers → Config → Opened
unfolding dsn
new drivers cfg =
    if drivers.new_pool (dsn cfg)
    then pinged (pool (dsn cfg)) (drivers.ping_pool (dsn cfg))
    else (none, [])

unfoldable pub new_redis : Drivers → Config → Opened
new_redis drivers cfg =
    pinged (client (redis_options cfg)) (drivers.ping_client (redis_options cfg))
