-- ===== src/Judge/Run.antt =====
-- internal/judge/judge.go: `Run`, from the submission's row to its verdict.
use go_spoc.Prelude.{
  ℕ, String, not, List, [], ◌∷◌, ◌++◌, Option, none, some, codes, is_empty, if◌then◌else◌,
}
use go_spoc.Prelude.Eq.{◌==◌, string_eq}
use go_spoc.Prelude.Int.{ℤ, pos, ltb_ℤ}
use go_spoc.Problem.{Problem}
use go_spoc.Problem.Repository as Problems
use go_spoc.TestCase.{TestCase}
use go_spoc.TestCase.Repository as TestCases
use go_spoc.Submission.{Submission, TestResult}
use go_spoc.Submission.Repository as Submissions
use go_spoc.Db.{DbError}
use go_spoc.Sandbox.{ExecRequest, Output}
use go_spoc.World.{pure, exec, mkdir_temp, write_file}
use go_spoc.World.Try.{Try, ◌>>=◌, ◌>>◌, return, fail, wrap, require, ensure, attempt}
use go_spoc.Strings.Utf8.{utf8}
use go_spoc.Judge.Classify.{classify, truncate}
use go_spoc.Judge.Languages.{LangConfig, Judge, language}

pub record JudgeResult : Type 0 where
  pub verdict : String
  pub runtime_ms : ℤ
  pub memory_kb : ℤ

pub data JudgeError : Type 0 where
  load_submission load_problem load_test_cases : DbError → JudgeError
  unsupported_language : List ℕ → JudgeError
  no_test_cases : ℤ → JudgeError
  work_dir write_source compile_failed : JudgeError
  sandbox_run : ℤ → JudgeError

abbrev pub compile_error_max : ℕ
compile_error_max = 4096

abbrev pub larger : ℤ → ℤ → ℤ
larger seen best = if ltb_ℤ best seen then seen else best

module _ (j : Judge) (submission_id : ℤ) (lang : LangConfig) (dir : List ℕ) where
  abbrev pub run_request : Problem → TestCase → ExecRequest
  run_request prob tc = record {
    image = lang.image;
    host_dir = dir;
    cmd = lang.run_cmd;
    input = tc.input;
    env = [];
    wall_ms = prob.time_limit_ms;
    mem_kb = prob.memory_limit_kb;
    output_kb = j.output_kb;
  }

  abbrev pub test_result : TestCase → Output → TestResult
  test_result tc out = record {
    submission_id = submission_id;
    test_case_id = tc.id;
    idx = tc.idx;
    verdict = classify out tc.expected_output;
    runtime_ms = out.runtime_ms;
    memory_kb = out.memory_kb;
    stderr_excerpt = out.stderr_excerpt;
  }

  -- The loop over the test cases: it stops at the first verdict that is not AC.
  unfoldable pub run_cases : Problem → List TestCase → ℤ → ℤ → Try JudgeError JudgeResult
  unfolding exec
  run_cases prob [] max_rt max_mem =
      return (record { verdict = "AC"; runtime_ms = max_rt; memory_kb = max_mem })
  run_cases prob (tc ∷ tcs) max_rt max_mem = do
    out ← require (sandbox_run tc.idx) (exec (run_request prob tc))
    let verdict = classify out tc.expected_output
    let rt = larger out.runtime_ms max_rt
    let mem = larger out.memory_kb max_mem
    attempt (Submissions.save_test_result (test_result tc out))
    let rest = run_cases prob tcs rt mem
    let stopped : JudgeResult = record { verdict = verdict; runtime_ms = rt; memory_kb = mem }
    if not (verdict == "AC") then return stopped else rest

-- The compile step, for a language that has one: some verdict ends the run.
module _ (j : Judge) (submission_id : ℤ) (lang : LangConfig) (dir : List ℕ) where
  abbrev pub compile_request : List (List ℕ) → ExecRequest
  compile_request cmd = record {
    image = lang.image;
    host_dir = dir;
    cmd = cmd;
    input = [];
    env = lang.compile_env;
    wall_ms = j.compile_wall_ms;
    mem_kb = j.compile_mem_kb;
    output_kb = j.output_kb;
  }

  abbrev pub compile_message : Output → List ℕ
  compile_message out =
      truncate (if out.verdict == "TLE" then codes "compilation timed out" else out.stderr_excerpt)
        compile_error_max

  -- `if out.Verdict != "OK"`: the message is stored, and the verdict is CE.
  unfoldable pub compiled : Try JudgeError JudgeResult → Output → Try JudgeError JudgeResult
  unfolding Submissions.set_compile_error
  compiled next out =
      let refuse : Try JudgeError JudgeResult =
        attempt (Submissions.set_compile_error submission_id (compile_message out))
        >> return (record { verdict = "CE"; runtime_ms = pos 0; memory_kb = pos 0 }) in
      if not (out.verdict == "OK") then refuse else next

  unfoldable pub compile :
      Option (List (List ℕ)) → Try JudgeError JudgeResult → Try JudgeError JudgeResult
  unfolding compiled exec
  compile none next = next
  compile (some cmd) next = do
    out ← require compile_failed (exec (compile_request cmd))
    compiled next out

abbrev pub join_path : List ℕ → List ℕ → List ℕ
join_path dir file = dir ++ codes "/" ++ file

-- What follows once the rows are loaded.
unfoldable pub judge_loaded :
    Judge → Submission → LangConfig → Problem → List TestCase → ℤ → Try JudgeError JudgeResult
unfolding compile run_cases mkdir_temp write_file
judge_loaded j sub lang prob cases submission_id = do
  dir ← require work_dir mkdir_temp
  ensure write_source (write_file (join_path dir lang.source_file) (utf8 sub.source))
  compile j submission_id lang dir lang.compile_cmd
      (run_cases j submission_id lang dir prob cases (pos 0) (pos 0))

unfoldable pub run : Judge → ℤ → Try JudgeError JudgeResult
unfolding judge_loaded language Submissions.find_by_id Problems.get_by_id TestCases.list_by_problem
run j submission_id = do
  sub ← wrap load_submission (Submissions.find_by_id submission_id)
  lang ← require (unsupported_language sub.language) (pure (language sub.language j.languages))
  prob ← wrap load_problem (Problems.get_by_id sub.problem_id)
  cases ← wrap load_test_cases (TestCases.list_by_problem sub.problem_id)
  if is_empty cases
      then fail (no_test_cases sub.problem_id)
      else judge_loaded j sub lang prob cases submission_id
