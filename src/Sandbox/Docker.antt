-- ===== src/Sandbox/Docker.antt =====
-- internal/judge/dockersandbox.go: a run in a container. The file system and the docker command
-- are parameters, and so is encoding/json's reading of the result file.
pub mod Verdict
pub mod Arguments
pub mod Container
pub mod Runs
use go_spoc.Prelude.{
  ℕ, String, Bool, true, false, List, [], ◌∷◌, ◌++◌, map, Option, none, some, codes, is_empty,
  if◌then◌else◌, ltb,
}
use go_spoc.Prelude.Eq.{◌==◌, nat_eq}
use go_spoc.Prelude.Int.{ℤ, pos, ◌+ℤ◌, quot_ℤ}
use go_spoc.Result.{Result, ok, err}
use go_spoc.Strings.{trim_space}
use go_spoc.Strings.Decimal.{format_int}
use go_spoc.Sandbox.{ExecRequest, Output}

-- `dockerBin`.
unfoldable pub new : List ℕ → List ℕ
new docker_bin = if is_empty docker_bin then codes "docker" else docker_bin

-- result.json, as far as it is read.
pub record RunnerResult : Type 0 where
  pub verdict : String
  pub runtime_ms : ℤ
  pub memory_kb : ℤ
  pub stderr_excerpt : List ℕ
  pub output_truncated : Bool

-- `run_command` gives what the command wrote to stderr, if it fails.
pub record Host : Type 0 where
  pub write_file : List ℕ → List ℕ → Bool
  pub run_command : List ℕ → List (List ℕ) → Option (List ℕ)
  pub read_file : List ℕ → Option (List ℕ)
  pub unmarshal : List ℕ → Option RunnerResult

pub data ExecError : Type 0 where
  write_input read_result parse_result : ExecError
  docker_run : List ℕ → ExecError

abbrev pub mem_headroom_mb : ℤ
mem_headroom_mb = pos 128

unfoldable pub mem_mb : ℤ → ℤ
mem_mb mem_kb = quot_ℤ mem_kb 1024 +ℤ mem_headroom_mb

-- The order of strings: by bytes.
unfoldable pub string_lt : List ℕ → List ℕ → Bool
string_lt s [] = false
string_lt [] (b ∷ t) = true
string_lt (a ∷ s) (b ∷ t) =
    let rest = string_lt s t in if ltb a b then true else if a == b then rest else false

-- The map's entries in the order of their keys, which `sortedKeys` and the lookups give.
unfoldable pub insert_entry : List ℕ × List ℕ → List (List ℕ × List ℕ) → List (List ℕ × List ℕ)
unfolding string_lt
insert_entry e [] = e ∷ []
insert_entry e (f ∷ es) =
    let rest = insert_entry e es in if string_lt f.0 e.0 then f ∷ rest else e ∷ f ∷ es

unfoldable pub sorted_entries : List (List ℕ × List ℕ) → List (List ℕ × List ℕ)
unfolding insert_entry
sorted_entries [] = []
sorted_entries (e ∷ es) = insert_entry e (sorted_entries es)

unfoldable pub env_args : List (List ℕ × List ℕ) → List (List ℕ)
env_args [] = []
env_args ((k, v) ∷ es) = codes "-e" ∷ (k ++ b'=' ∷ v) ∷ env_args es

abbrev pub megabytes : ℤ → List ℕ
megabytes mb = format_int mb ++ codes "m"

-- What the image's runner is started with.
abbrev pub runner_args : ExecRequest → List (List ℕ)
runner_args req =
    map codes ("-input" ∷ "/work/input.txt" ∷ "-output" ∷ "/work/output.txt" ∷ "-result" ∷ [])
    ++ codes "/work/result.json"
      ∷ codes "-wall-ms"
      ∷ format_int req.wall_ms
      ∷ codes "-mem-kb"
      ∷ format_int req.mem_kb
      ∷ codes "-output-kb"
      ∷ format_int req.output_kb
      ∷ codes "--"
      ∷ req.cmd

unfoldable pub docker_args : ExecRequest → List (List ℕ)
unfolding mem_mb sorted_entries env_args
docker_args req =
    map codes ("run" ∷ "--rm" ∷ "--network" ∷ "none" ∷ "--read-only" ∷ "--tmpfs" ∷ [])
    ++ codes "/tmp:rw,size=512m"
      ∷ codes "--memory"
      ∷ megabytes (mem_mb req.mem_kb)
      ∷ codes "--memory-swap"
      ∷ megabytes (mem_mb req.mem_kb)
      ∷ map codes ("--cpus" ∷ "1" ∷ "--pids-limit" ∷ "128" ∷ "--cap-drop" ∷ "ALL" ∷ [])
    ++ map codes ("--security-opt" ∷ "no-new-privileges" ∷ "--user" ∷ "10001:10001" ∷ "-v" ∷ [])
    ++ (req.host_dir ++ codes ":/work") ∷ env_args (sorted_entries req.env)
    ++ req.image ∷ runner_args req

-- `stdout, _ := os.ReadFile(…)`: nothing, if the file cannot be read.
abbrev pub or_empty : Option (List ℕ) → List ℕ
or_empty none = []
or_empty (some s) = s

abbrev pub output_of : RunnerResult → List ℕ → Output
output_of r stdout = record {
  verdict = r.verdict;
  stdout = stdout;
  runtime_ms = r.runtime_ms;
  memory_kb = r.memory_kb;
  stderr_excerpt = r.stderr_excerpt;
  output_truncated = r.output_truncated;
}

module _ (h : Host) (req : ExecRequest) where
  abbrev in_dir : List ℕ → List ℕ
  in_dir file = req.host_dir ++ codes "/" ++ file

  abbrev pub parsed : Option RunnerResult → Result ExecError Output
  parsed none = err parse_result
  parsed (some r) = ok (output_of r (or_empty (h.read_file (in_dir (codes "output.txt")))))

  abbrev pub read : Option (List ℕ) → Result ExecError Output
  read none = err read_result
  read (some text) = parsed (h.unmarshal text)

  abbrev pub ran : Option (List ℕ) → Result ExecError Output
  ran none = read (h.read_file (in_dir (codes "result.json")))
  ran (some stderr) = err (docker_run (trim_space stderr))

  -- The files are read behind the run of the command, from the state that it leaves.
  unfoldable pub exec : List ℕ → Result ExecError Output
  unfolding docker_args trim_space
  exec docker_bin =
      if h.write_file (in_dir (codes "input.txt")) req.input
      then ran (h.run_command docker_bin (docker_args req))
      else err write_input
