-- ===== src/Runner.antt =====
-- sandbox/runner/main.go: the program that runs a submission inside its container. The operating
-- system is a parameter: what the process wrote and how it ended.
pub mod Capped
pub mod Laws
pub mod Bounds
use go_spoc.Prelude.{
  ℕ, String, Bool, true, false, ◌&&◌, not, List, [], ◌∷◌, ◌++◌, Option, none, some, codes,
  if◌then◌else◌,
}
use go_spoc.Prelude.Eq.{◌==◌}
use go_spoc.Prelude.Int.{ℤ, pos, negsuc, int_eq, ltb_ℤ, leb_ℤ, wrap_int64, ◌*ℤ◌}
use go_spoc.Runner.Capped.{Sink, CappedWriter, CappedBuffer, write_all, append_all}

abbrev pub stderr_excerpt_bytes : ℕ
stderr_excerpt_bytes = 2048

pub record RunResult : Type 0 where
  pub verdict : String
  pub runtime_ms : ℤ
  pub memory_kb : ℤ
  pub exit_code : ℤ
  pub signal : List ℕ
  pub stderr_excerpt : List ℕ
  pub output_truncated : Bool

-- syscall.WaitStatus, as far as it is looked at.
pub data WaitStatus : Type 0 where
  signaled : List ℕ → WaitStatus
  exited : ℤ → WaitStatus

-- A process that has ended: whether the timer fired before Wait returned, what it wrote in which
-- chunks, and what its ProcessState says, where there is one of the expected kind.
pub record Ended : Type 0 where
  pub timed_out : Bool
  pub elapsed_ms : ℤ
  pub max_rss_kb : Option ℤ
  pub status : Option WaitStatus
  pub stdout : List (List ℕ)
  pub stderr : List (List ℕ)

pub data Process : Type 0 where
  no_output_file not_started : List ℕ → Process
  ended : Ended → Process

-- `result{Verdict: verdictRE, StderrExcerpt: …}`
abbrev pub broken : List ℕ → RunResult
broken message = record {
  verdict = "RE";
  runtime_ms = pos 0;
  memory_kb = pos 0;
  exit_code = pos 0;
  signal = [];
  stderr_excerpt = message;
  output_truncated = false;
}

abbrev pub rss_of : Option ℤ → ℤ
rss_of none = pos 0
rss_of (some kb) = kb

abbrev pub exit_code_of : Option WaitStatus → ℤ
exit_code_of none = pos 0
exit_code_of (some (signaled text)) = negsuc 0
exit_code_of (some (exited code)) = code

abbrev pub signal_of : Option WaitStatus → List ℕ
signal_of none = []
signal_of (some (signaled text)) = text
signal_of (some (exited code)) = []

unfoldable pub verdict_of : Bool → ℤ → ℤ → ℤ → String
verdict_of timed_out mem_kb max_rss_kb exit_code =
    if timed_out
    then "TLE"
    else if ltb_ℤ (pos 0) mem_kb && leb_ℤ mem_kb max_rss_kb
    then "MLE"
    else if not (exit_code == pos 0)
    then "RE"
    else "OK"

-- `&cappedWriter{w: outFile, limit: outputKB * 1024}`
abbrev pub stdout_writer : ℤ → CappedWriter
stdout_writer output_kb = record {
  limit = wrap_int64 (output_kb *ℤ pos 1024);
  written = 0;
  truncated = false;
  file = [];
}

-- The result, and the output file.
unfoldable pub run : Sink → ℤ → ℤ → Process → RunResult × List ℕ
unfolding verdict_of write_all append_all
run sink mem_kb output_kb (no_output_file message) =
    (broken (codes "cannot create output file: " ++ message), [])
run sink mem_kb output_kb (not_started message) = (broken (codes "start failed: " ++ message), [])
run sink mem_kb output_kb (ended p) =
    let out = write_all sink (stdout_writer output_kb) p.stdout in
    let errors = append_all (record { limit = stderr_excerpt_bytes; buf = [] }) p.stderr in
    (
      record {
        verdict = verdict_of p.timed_out mem_kb (rss_of p.max_rss_kb) (exit_code_of p.status);
        runtime_ms = p.elapsed_ms;
        memory_kb = rss_of p.max_rss_kb;
        exit_code = exit_code_of p.status;
        signal = signal_of p.status;
        stderr_excerpt = errors.buf;
        output_truncated = out.truncated;
      },
      out.file,
    )

abbrev or_marshal_failed : Option (List ℕ) → List ℕ
or_marshal_failed none = codes "{\"verdict\":\"RE\",\"stderr_excerpt\":\"result marshal failed\"}"
or_marshal_failed (some text) = text

-- writeResult: what is written to the result's file and, with a line feed behind it, to the
-- standard output. `marshal` is json.MarshalIndent.
unfoldable pub write_result : (RunResult → Option (List ℕ)) → RunResult → List ℕ × List ℕ
write_result marshal r = let text = or_marshal_failed (marshal r) in (text, text ++ codes "\n")

-- The command line's flags.
pub record Flags : Type 0 where
  pub input : List ℕ
  pub output : List ℕ
  pub result_path : List ℕ
  pub wall_ms : ℤ
  pub mem_kb : ℤ
  pub output_kb : ℤ

abbrev pub default_flags : Flags
default_flags = record {
  input = codes "/work/input.txt";
  output = codes "/work/output.txt";
  result_path = codes "/work/result.json";
  wall_ms = pos 2000;
  mem_kb = pos 262144;
  output_kb = pos 1024;
}

-- `parse` is flag.Parse: the flags, where the arguments do not set them the given ones, and the
-- arguments behind them. `os` is what becomes of the command. What comes out is the path of the
-- result's file, with the result and the command's output.
module _ (parse : Flags → List (List ℕ) → Flags × List (List ℕ))
    (os : Flags → List (List ℕ) → Process) where
  abbrev pub on_command : Sink → Flags → List (List ℕ) → List ℕ × (RunResult × List ℕ)
  on_command sink flags [] = (flags.result_path, (broken (codes "no command given"), []))
  on_command sink flags (c ∷ cs) =
      (flags.result_path, run sink flags.mem_kb flags.output_kb (os flags (c ∷ cs)))

  unfoldable pub main : Sink → List (List ℕ) → List ℕ × (RunResult × List ℕ)
  unfolding run
  main sink arguments =
      let (flags, cmd) = parse default_flags arguments in on_command sink flags cmd
