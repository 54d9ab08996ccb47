-- ===== src/Config.antt =====
-- internal/config/config.go. The environment, behind the reading of .env, is a parameter: the
-- value of a variable, "" if it is not set.
pub mod Laws
use go_spoc.Prelude.{ℕ, String, List, [], Option, none, some, codes, is_empty, if◌then◌else◌}
use go_spoc.Prelude.Int.{ℤ, pos}
use go_spoc.Strings.Decimal.{parse_int}

pub record Config : Type 0 where
  pub port : ℤ
  pub log_level : List ℕ
  pub env : List ℕ
  pub db_host : List ℕ
  pub db_port : ℤ
  pub db_user : List ℕ
  pub db_password : List ℕ
  pub db_name : List ℕ
  pub jwt_secret : List ℕ
  pub redis_addr : List ℕ
  pub redis_password : List ℕ
  pub redis_db : ℤ
  pub redis_stream : List ℕ
  pub redis_group : List ℕ
  pub sweep_interval : ℤ
  pub sweep_stale : ℤ
  pub worker_concurrency : ℤ
  pub sandbox_image_python : List ℕ
  pub sandbox_image_go : List ℕ
  pub sandbox_work_dir : List ℕ
  pub sandbox_output_kb : ℤ
  pub sandbox_compile_wall : ℤ
  pub sandbox_compile_mem : ℤ

abbrev or_default : ℤ → Option ℤ → ℤ
or_default def none = def
or_default def (some p) = p

module _ (getenv : String → List ℕ) where
  -- strconv.Atoi is ParseInt on a system whose `int` has 64 bits.
  unfoldable pub get_int : String → ℤ → ℤ
  unfolding parse_int
  get_int key def = if is_empty (getenv key) then def else or_default def (parse_int (getenv key))

  unfoldable pub get_str : String → String → List ℕ
  get_str key def = if is_empty (getenv key) then codes def else getenv key

  unfoldable pub load : Config
  unfolding get_int get_str
  load = record {
    port = get_int "PORT" (pos 8080);
    log_level = get_str "LOG_LEVEL" "info";
    env = get_str "ENV" "dev";
    db_host = get_str "POSTGRES_DB_HOST" "";
    db_port = get_int "POSTGRES_DB_PORT" (pos 5432);
    db_user = get_str "POSTGRES_DB_USER" "";
    db_password = get_str "POSTGRES_DB_PASSWORD" "";
    db_name = get_str "POSTGRES_DB_NAME" "";
    jwt_secret = get_str "JWT_SECRET" "";
    redis_addr = get_str "REDIS_ADDR" "";
    redis_password = get_str "REDIS_PASSWORD" "";
    redis_db = get_int "REDIS_DB" (pos 0);
    redis_stream = get_str "REDIS_STREAM" "submissions";
    redis_group = get_str "REDIS_GROUP" "judges";
    sweep_interval = get_int "SWEEP_INTERVAL_SEC" (pos 30);
    sweep_stale = get_int "SWEEP_STALE_SEC" (pos 60);
    worker_concurrency = get_int "WORKER_CONCURRENCY" (pos 4);
    sandbox_image_python = get_str "SANDBOX_IMAGE_PYTHON" "gospoc-sandbox-python";
    sandbox_image_go = get_str "SANDBOX_IMAGE_GO" "gospoc-sandbox-go";
    sandbox_work_dir = get_str "SANDBOX_WORK_DIR" "";
    sandbox_output_kb = get_int "SANDBOX_OUTPUT_KB" (pos 1024);
    sandbox_compile_wall = get_int "SANDBOX_COMPILE_WALL_MS" (pos 10000);
    sandbox_compile_mem = get_int "SANDBOX_COMPILE_MEM_KB" (pos 524288);
  }
