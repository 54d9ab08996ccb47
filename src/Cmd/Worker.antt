-- ===== src/Cmd/Worker.antt =====
-- cmd/worker/main.go, with the goroutines that `Run` starts.
pub mod Serves
use go_spoc.Prelude.{
  ℕ, String, Bool, true, List, [], ◌++◌, Option, none, some, codes, if◌then◌else◌,
}
use go_spoc.Prelude.Int.{ℤ}
use go_spoc.Strings.Decimal.{format_int}
use go_spoc.World.{Act, pure, ◌>>=◌}
use go_spoc.Config.{Config, load}
use go_spoc.Judge.Languages.{Judge}
use go_spoc.Judge.Languages as Judging
use go_spoc.Queue
use go_spoc.Storage.{Opened, Drivers, new, new_redis}
use go_spoc.Cmd.{Ran, deferred, behind}
use go_spoc.Worker as Work
use go_spoc.Worker.Pool.{Consumer, start}

-- The fields of judge.Config.
abbrev pub judge_config : Config → Judging.Config
judge_config cfg = record {
  python_image = cfg.sandbox_image_python;
  go_image = cfg.sandbox_image_go;
  work_dir = cfg.sandbox_work_dir;
  output_kb = cfg.sandbox_output_kb;
  compile_wall_ms = cfg.sandbox_compile_wall;
  compile_mem_kb = cfg.sandbox_compile_mem;
}

-- fmt.Sprintf("%s-%d", host, os.Getpid()).
abbrev pub name_prefix : List ℕ → ℤ → List ℕ
name_prefix host pid = host ++ (codes "-" ++ format_int pid)

module _ (getenv : String → List ℕ) (drivers : Drivers) (host : List ℕ) (pid : ℤ) where
  abbrev pub worker : Work.Worker
  worker = Work.new true (load getenv).worker_concurrency (name_prefix host pid)

  -- The goroutines that `Run` starts; the program returns where the queue cannot be set up.
  abbrev pub on_queue : Bool → List Consumer
  on_queue ready = if ready then start worker (Judging.new (judge_config (load getenv))) else []

  abbrev pub on_redis : Opened → Act (Ran (List Consumer))
  on_redis (none, log) = pure ([], log)
  on_redis (some h, log) =
      behind log (deferred (λ _. true) h (Queue.new >>= λ ready. pure (on_queue ready, [])))

  abbrev pub on_pool : Opened → Act (Ran (List Consumer))
  on_pool (none, log) = pure ([], log)
  on_pool (some h, log) =
      behind log (deferred (λ _. true) h (on_redis (new_redis drivers (load getenv))))

  unfoldable pub main : Act (Ran (List Consumer))
  main = on_pool (new drivers (load getenv))
