-- ===== src/Tests/Running.antt =====
-- The docker sandbox over the runner.
use go_spoc.Prelude.{
  ℕ, ◌≡◌, refl, true, false, List, [], ◌∷◌, Option, none, some, codes, arith, if◌then◌else◌,
}
use go_spoc.Prelude.Eq.{◌==◌, list_eq, list_beq, nat_eq}
use go_spoc.Prelude.Int.{ℤ, pos, wrap_int64, ◌*ℤ◌}
use go_spoc.Result.{ok}
use go_spoc.Strings.Decimal.{parse_int}
use go_spoc.Strings.Decimal.RoundTrip.{parse_int-format_int}
use go_spoc.Runner.{
  default_flags, Flags, Process, Ended, ended, exited, main, run, write_result, RunResult,
}
use go_spoc.Runner.Capped.{write_all, write, append_all}
use go_spoc.Runner.Laws.{whole}
use go_spoc.Sandbox.{ExecRequest}
use go_spoc.Sandbox.Docker.{Host, exec, docker_args}
use go_spoc.Sandbox.Docker.Verdict.{as_read, seen}
use go_spoc.Tests.DockerCli.{cli, cli_laws}
use go_spoc.Sandbox.Docker.Runs.{
  Limits, FlagLaws, Machine, in_container, in_dir, main-runs, runner_args-flags, exec-seen,
}
use go_spoc.Sandbox.Docker.Container.{docker_args-Confined}
use mathlib.Core.Path.{subst}
use go_spoc.Prelude.{◌++◌, ap, ◌∙◌, sym}

-- A flag package for the runner's flags.
abbrev or_zero : Option ℤ → ℤ
or_zero none = pos 0
or_zero (some n) = n

abbrev set : Flags → List ℕ → List ℕ → Flags
set f name v =
    if name == codes "-input"
    then record f { input = v }
    else if name == codes "-output"
    then record f { output = v }
    else if name == codes "-result"
    then record f { result_path = v }
    else if name == codes "-wall-ms"
    then record f { wall_ms = or_zero (parse_int v) }
    else if name == codes "-mem-kb"
    then record f { mem_kb = or_zero (parse_int v) }
    else record f { output_kb = or_zero (parse_int v) }

abbrev parse : Flags → List (List ℕ) → Flags × List (List ℕ)
parse f [] = (f, [])
parse f (a ∷ []) = (f, [])
parse f (a ∷ v ∷ rest) =
    let more = parse (set f a v) rest in if a == codes "--" then (f, v ∷ rest) else more

parse_laws : FlagLaws parse
unfolding list_beq
parse_laws = record {
  input = λ f v rest. refl;
  output = λ f v rest. refl;
  result = λ f v rest. refl;
  wall_ms = λ f n rest h. rw (parse_int-format_int n h) refl;
  mem_kb = λ f n rest h. rw (parse_int-format_int n h) refl;
  output_kb = λ f n rest h. rw (parse_int-format_int n h) refl;
  stop = stops;
}
  where
    stops : (f : Flags) (rest : List (List ℕ)) → parse f (codes "--" ∷ rest) ≡ (f, rest)
    stops f [] = refl
    stops f (v ∷ rest) = refl

abbrev prints_five : Ended
prints_five = record {
  timed_out = false;
  elapsed_ms = pos 20;
  max_rss_kb = some (pos 700);
  status = some (exited (pos 0));
  stdout = codes "5" ∷ [];
  stderr = [];
}

abbrev five : ExecRequest
five = record {
  image = codes "py";
  cmd = codes "python3" ∷ codes "five.py" ∷ [];
  input = [];
  host_dir = codes "/tmp/a";
  env = [];
  wall_ms = pos 1000;
  mem_kb = pos 65536;
  output_kb = pos 1024;
}

abbrev last : List ℕ → ℕ
last [] = 0
last (c ∷ []) = c
last (c ∷ d ∷ s) = last (d ∷ s)

last-append : (s : List ℕ) (c : ℕ) (t : List ℕ) → last (s ++ c ∷ t) ≡ last (c ∷ t)
last-append [] c t = refl
last-append (d ∷ []) c t = refl
last-append (d ∷ e ∷ s) c t = last-append (e ∷ s) c t

-- A host on which the runner has been: every file whose name ends with an `n` holds the result.
abbrev five_host : Host
five_host = record {
  write_file = λ path text. true;
  run_command = λ bin arguments. none;
  read_file = λ path. if last path == b'n' then some (codes "json") else some (codes "5");
  unmarshal =
      λ text. some (as_read (λ t. t) (run whole (pos 65536) (pos 1024) (ended prints_five)).0);
}

abbrev os : List ℕ → Flags → List (List ℕ) → Process
os image flags cmd = ended prints_five

five-Limits : Limits five
five-Limits = record { wall_ms = ground arith; mem_kb = ground arith; output_kb = ground arith }

abbrev marshal : RunResult → Option (List ℕ)
marshal res = some (codes "json")

five-ran :
    in_container cli parse os marshal (λ t. t) (cli.command (docker_args five))
    ≡ (codes "/work/result.json", run whole (pos 65536) (pos 1024) (ended prints_five))
five-ran =
    ap (main parse (os (codes "py")) whole) (docker_args-Confined cli cli_laws five refl).arguments
    ∙ main-runs cli parse os marshal (λ t. t) five (codes "python3") (codes "five.py" ∷ [])
        prints_five parse_laws five-Limits refl refl

five_output :
    (parse default_flags (cli.command (docker_args five)).arguments).0.output
    ≡ codes "/work/output.txt"
five_output =
    ap (λ a. (parse default_flags a).0.output)
      (docker_args-Confined cli cli_laws five refl).arguments
    ∙ ap (λ (r : Flags × List (List ℕ)). r.0.output)
        (runner_args-flags parse five parse_laws five-Limits)

five-Machine : Machine cli parse os marshal (λ t. t) five_host (codes "docker") (docker_args five)
unfolding run write_all write append_all wrap_int64 ◌*ℤ◌ write_result
five-Machine = record {
  succeeds = refl;
  result = λ dir name mounted e.
      let same : name ≡ codes "result.json" = named name (sym e ∙ ap (λ r. r.0) five-ran) in
      subst (λ k. five_host.read_file (in_dir dir k) ≡ some (codes "json")) (sym same)
        (rw (last-append (dir ++ codes "/") b'r' (codes "esult.json")) refl);
  output = λ dir name mounted e.
      let same : name ≡ codes "output.txt" = put_out name (sym e ∙ five_output) in
      subst (λ k. five_host.read_file (in_dir dir k) ≡ some (codes "5")) (sym same)
        (rw (last-append (dir ++ codes "/") b'o' (codes "utput.txt")) refl)
      ∙ ap (λ r. some r.1.1) (sym five-ran);
  read_back = ap (λ r. some (as_read (λ t. t) r.1.0)) (sym five-ran);
}
  where
    named :
        (name : List ℕ)
        → codes "/work/" ++ name ≡ codes "/work/result.json"
        → name ≡ codes "result.json"
    named name h = cc

    put_out :
        (name : List ℕ)
        → codes "/work/" ++ name ≡ codes "/work/output.txt"
        → name ≡ codes "output.txt"
    put_out name h = cc

exec-seen_example :
    exec five_host five (codes "docker") ≡ ok (seen (λ t. t) (pos 65536) (pos 1024) prints_five)
exec-seen_example =
    exec-seen cli parse os marshal (λ t. t) five_host (codes "docker") five (codes "python3")
      (codes "five.py" ∷ []) prints_five cli_laws parse_laws five-Machine refl five-Limits refl refl
      refl
