-- ===== src/Sandbox/Docker/Runs.antt =====
-- Exec with the runner in its container: what docker is given, read by the runner's flags.
use go_spoc.Prelude.{Option}
use go_spoc.Prelude.{
  ℕ, ◌≡◌, sym, ◌∙◌, ap, ap₂, true, List, ◌∷◌, ◌++◌, none, some, codes, if◌then◌else◌,
}
use go_spoc.Prelude.Int.{ℤ}
use go_spoc.Result.{ok, err}
use go_spoc.Strings.Decimal.{format_int}
use go_spoc.Strings.Decimal.RoundTrip.{InInt64}
use go_spoc.Runner.{
  Flags, default_flags, RunResult, Process, Ended, ended, run, main, on_command, write_result,
}
use go_spoc.Runner.Laws.{whole}
use go_spoc.Sandbox.{ExecRequest}
use go_spoc.Sandbox.Docker.{
  Host, RunnerResult, write_input, ran, read, parsed, or_empty, docker_args, runner_args, output_of,
  exec,
}
use go_spoc.Sandbox.Docker.Container.{
  Cli, CliLaws, Invocation, HasOption, is_image, Confined, docker_args-Confined,
}
use go_spoc.Sandbox.Docker.Verdict.{as_read, seen}

abbrev pub Parse : Type 0
Parse = Flags → List (List ℕ) → Flags × List (List ℕ)

-- The flag package: each flag takes the argument behind it, and `--` ends the flags.
pub record FlagLaws (parse : Parse) : Type 0 where
  pub input :
      (f : Flags) (v : List ℕ) (rest : List (List ℕ))
      → parse f (codes "-input" ∷ v ∷ rest) ≡ parse (record f { input = v }) rest
  pub output :
      (f : Flags) (v : List ℕ) (rest : List (List ℕ))
      → parse f (codes "-output" ∷ v ∷ rest) ≡ parse (record f { output = v }) rest
  pub result :
      (f : Flags) (v : List ℕ) (rest : List (List ℕ))
      → parse f (codes "-result" ∷ v ∷ rest) ≡ parse (record f { result_path = v }) rest
  pub wall_ms :
      (f : Flags) (n : ℤ) (rest : List (List ℕ))
      → InInt64 n
      → parse f (codes "-wall-ms" ∷ format_int n ∷ rest) ≡ parse (record f { wall_ms = n }) rest
  pub mem_kb :
      (f : Flags) (n : ℤ) (rest : List (List ℕ))
      → InInt64 n
      → parse f (codes "-mem-kb" ∷ format_int n ∷ rest) ≡ parse (record f { mem_kb = n }) rest
  pub output_kb :
      (f : Flags) (n : ℤ) (rest : List (List ℕ))
      → InInt64 n
      → parse f (codes "-output-kb" ∷ format_int n ∷ rest) ≡ parse (record f { output_kb = n }) rest
  pub stop : (f : Flags) (rest : List (List ℕ)) → parse f (codes "--" ∷ rest) ≡ (f, rest)

-- A Go program's `int`s have 64 bits.
pub record Limits (req : ExecRequest) : Type 0 where
  pub wall_ms : InInt64 req.wall_ms
  pub mem_kb : InInt64 req.mem_kb
  pub output_kb : InInt64 req.output_kb

-- The runner's flags for a request.
abbrev pub flags_of : ExecRequest → Flags
flags_of req = record default_flags {
  wall_ms = req.wall_ms;
  mem_kb = req.mem_kb;
  output_kb = req.output_kb;
}

pub runner_args-flags :
    (parse : Parse) (req : ExecRequest)
    → FlagLaws parse
    → Limits req
    → parse default_flags (runner_args req) ≡ (flags_of req, req.cmd)
runner_args-flags parse req laws l =
    laws.input _ _ _
    ∙ laws.output _ _ _
    ∙ laws.result _ _ _
    ∙ laws.wall_ms _ req.wall_ms _ l.wall_ms
    ∙ laws.mem_kb _ req.mem_kb _ l.mem_kb
    ∙ laws.output_kb _ req.output_kb _ l.output_kb
    ∙ laws.stop _ _

-- A file of the request's directory.
abbrev pub in_dir : List ℕ → List ℕ → List ℕ
in_dir dir name = dir ++ codes "/" ++ name

exec_reads :
    (h : Host) (docker_bin : List ℕ) (req : ExecRequest) (text out : List ℕ) (r : RunnerResult)
    → h.write_file (in_dir req.host_dir (codes "input.txt")) req.input ≡ true
    → h.run_command docker_bin (docker_args req) ≡ none
    → h.read_file (in_dir req.host_dir (codes "result.json")) ≡ some text
    → h.unmarshal text ≡ some r
    → h.read_file (in_dir req.host_dir (codes "output.txt")) ≡ some out
    → exec h req docker_bin ≡ ok (output_of r out)
unfolding exec
exec_reads h docker_bin req text out r wrote done result json output =
    ap (λ b. if b then ran h req (h.run_command docker_bin (docker_args req)) else err write_input)
      wrote
    ∙ ap (ran h req) done
    ∙ ap (read h req) result
    ∙ ap (parsed h req) json
    ∙ ap (λ o. ok (output_of r (or_empty o))) output

-- The sandbox's machine: `cli` is how docker reads a command line, `os` what becomes of a command
-- that the runner starts in a container of an image, and every image's program is the runner.
module _ (cli : Cli) (parse : Parse) (os : List ℕ → Flags → List (List ℕ) → Process)
    (marshal : RunResult → Option (List ℕ)) (to_valid : List ℕ → List ℕ) where
  -- The path of the result's file, the result and the output, of the runner in a container.
  abbrev pub in_container : Invocation → List ℕ × (RunResult × List ℕ)
  in_container inv = main parse (os inv.image) whole inv.arguments

  -- What is left behind a command line that docker has carried out without an error: the files that
  -- the runner wrote below /work are in the directory that is mounted there, and encoding/json
  -- reads the result.
  pub record Machine (h : Host) (docker_bin : List ℕ) (args : List (List ℕ)) : Type 0 where
    pub succeeds : h.run_command docker_bin args ≡ none
    pub result :
        (dir name : List ℕ)
        → HasOption (cli.command args).settings "-v" (dir ++ codes ":/work")
        → (in_container (cli.command args)).0 ≡ codes "/work/" ++ name
        → h.read_file (in_dir dir name)
          ≡ some (write_result marshal (in_container (cli.command args)).1.0).0
    pub output :
        (dir name : List ℕ)
        → HasOption (cli.command args).settings "-v" (dir ++ codes ":/work")
        → (parse default_flags (cli.command args).arguments).0.output ≡ codes "/work/" ++ name
        → h.read_file (in_dir dir name) ≡ some (in_container (cli.command args)).1.1
    pub read_back :
        h.unmarshal (write_result marshal (in_container (cli.command args)).1.0).0
        ≡ some (as_read to_valid (in_container (cli.command args)).1.0)

  pub main-runs :
      (req : ExecRequest) (c : List ℕ) (cs : List (List ℕ)) (p : Ended)
      → FlagLaws parse
      → Limits req
      → req.cmd ≡ c ∷ cs
      → os req.image (flags_of req) req.cmd ≡ ended p
      → main parse (os req.image) whole (runner_args req)
        ≡ (codes "/work/result.json", run whole req.mem_kb req.output_kb (ended p))
  unfolding main
  main-runs req c cs p laws l e o =
      ap (λ r. on_command parse (os req.image) whole r.0 r.1) (runner_args-flags parse req laws l)
      ∙ ap (on_command parse (os req.image) whole (flags_of req)) e
      ∙ ap (λ q. (codes "/work/result.json", run whole req.mem_kb req.output_kb q))
          (sym (ap (os req.image (flags_of req)) e) ∙ o)

  -- A request whose image's name is not empty and begins with no dash, whose command is not empty
  -- and whose limits are 64-bit numbers, is carried out as follows: docker starts the request's image,
  -- its runner starts the request's command under the request's own limits, and if that process
  -- ends, Exec answers with what the runner makes of it under these limits: its verdict, its figures
  -- and excerpt, and its output as far as it was kept. `cli_laws` is how docker reads a command line
  -- and `laws` how the flag package does. Writing the input and the docker command are taken to
  -- succeed; the runner's files are then found in the directory that is mounted at /work, and
  -- encoding/json reads the result back, but for bytes of the excerpt that are no UTF-8.
  pub exec-seen :
      (h : Host) (docker_bin : List ℕ) (req : ExecRequest) (c : List ℕ) (cs : List (List ℕ))
      (p : Ended)
      → CliLaws cli
      → FlagLaws parse
      → Machine h docker_bin (docker_args req)
      → is_image req.image ≡ true
      → Limits req
      → req.cmd ≡ c ∷ cs
      → h.write_file (in_dir req.host_dir (codes "input.txt")) req.input ≡ true
      → os req.image (flags_of req) req.cmd ≡ ended p
      → exec h req docker_bin ≡ ok (seen to_valid req.mem_kb req.output_kb p)
  exec-seen h docker_bin req c cs p cli_laws laws m named l e wrote o =
      let inv = cli.command (docker_args req) in
      let confined : Confined req inv = docker_args-Confined cli cli_laws req named in
      let flags : parse default_flags inv.arguments ≡ (flags_of req, req.cmd) =
        ap (parse default_flags) confined.arguments ∙ runner_args-flags parse req laws l in
      let started : in_container inv
          ≡ (codes "/work/result.json", run whole req.mem_kb req.output_kb (ended p)) =
        ap₂ (λ i a. main parse (os i) whole a) confined.image confined.arguments
        ∙ main-runs req c cs p laws l e o in
      exec_reads h docker_bin req
        (write_result marshal (run whole req.mem_kb req.output_kb (ended p)).0).0
        (run whole req.mem_kb req.output_kb (ended p)).1
        (as_read to_valid (run whole req.mem_kb req.output_kb (ended p)).0) wrote m.succeeds
        (m.result req.host_dir (codes "result.json") confined.directory (ap (λ r. r.0) started)
          ∙ ap (λ r. some (write_result marshal r.1.0).0) started)
        (ap (λ r. h.unmarshal (write_result marshal r.1.0).0) (sym started)
          ∙ m.read_back
          ∙ ap (λ r. some (as_read to_valid r.1.0)) started)
        (m.output req.host_dir (codes "output.txt") confined.directory
            (ap (λ (r : Flags × List (List ℕ)). r.0.output) flags)
          ∙ ap (λ r. some r.1.1) started)
