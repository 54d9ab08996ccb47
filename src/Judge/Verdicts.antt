-- ===== src/Judge/Verdicts.antt =====
-- The verdicts that the judge gives, and the run that ends at the compiler.
use go_spoc.Prelude.{
  ℕ, String, ◌≡◌, refl, true, List, [], ◌∷◌, Option, none, some, Bool-cases, inl, inr, is_empty,
}
use go_spoc.Prelude.Eq.{◌==◌, string_eq, list_eq, nat_eq}
use go_spoc.Prelude.Int.{ℤ, pos}
use go_spoc.Problem.{Problem}
use go_spoc.TestCase.{TestCase}
use go_spoc.Submission.{Submission}
use go_spoc.Submission.Repository as Submissions
use go_spoc.Submission.Repository.{verdict_allowed}
use go_spoc.Problem.Repository as Problems
use go_spoc.TestCase.Repository as TestCases
use go_spoc.Strings.Utf8.{utf8}
use go_spoc.Result.{Result, ok, err}
use go_spoc.Sandbox.{Output}
use go_spoc.World.{Env, World, pure, exec, mkdir_temp, write_file}
use go_spoc.World.Try.{Try, wrap, require, ensure, Ensures, bind-Ensures}
use go_spoc.Judge.Normalize.{normalize}
use go_spoc.Judge.Classify.{classify}
use go_spoc.Judge.Languages.{LangConfig, Judge, language}
use go_spoc.Judge.Run.{
  JudgeResult, JudgeError, load_submission, load_problem, load_test_cases, unsupported_language,
  work_dir, write_source, compile_failed, run_cases, compiled, compile, compile_request, join_path,
  judge_loaded, run,
}
use go_spoc.Judge.Report.{Ends, Ran, run_cases-Report}

-- Each verdict of a run is one that the tables accept.
pub classify-allowed :
    (out : Output) (expected : List ℕ) → verdict_allowed (classify out expected) ≡ true
unfolding classify
classify-allowed out expected = elim (Bool-cases (out.verdict == "OK")) [
  | inl ran ↦ rw ran (elim (Bool-cases out.output_truncated) [
    | inl cut ↦ rw cut refl
    | inr whole ↦ rw whole (elim (Bool-cases (normalize out.stdout == normalize expected)) [
      | inl same ↦ rw same refl
      | inr differs ↦ rw differs refl
    ])
  ])
  | inr stopped ↦ rw stopped (elim (Bool-cases (out.verdict == "TLE")) [
    | inl late ↦ rw late refl
    | inr else_ ↦ rw else_ (elim (Bool-cases (out.verdict == "MLE")) [
      | inl large ↦ rw large refl
      | inr other ↦ rw other refl
    ])
  ])
]

Ends-allowed :
    (ds : List Ran) (rest : List TestCase) (v : String) → Ends ds rest v → verdict_allowed v ≡ true
Ends-allowed [] rest v h = rw h.1 refl
Ends-allowed (d ∷ ds) rest v (inl h) = Ends-allowed ds rest v h.1
Ends-allowed ((tc, out) ∷ ds) rest v (inr h) = rw (← h.1) (classify-allowed out tc.expected_output)

abbrev IsAllowed : JudgeResult → Type 0
IsAllowed x = verdict_allowed x.verdict ≡ true

abbrev pub Allowed : Result JudgeError JudgeResult → Type 0
Allowed = Ensures IsAllowed

module _ (j : Judge) (submission_id : ℤ) (lang : LangConfig) (dir : List ℕ) (prob : Problem)
    (env : Env) where
  run_cases-Allowed :
      (tcs : List TestCase) (rt mem : ℤ) (w : World)
      → Allowed (run_cases j submission_id lang dir prob tcs rt mem env w).0
  run_cases-Allowed tcs rt mem w =
      go (run_cases j submission_id lang dir prob tcs rt mem env w) refl
    where
      go :
          (r : Result JudgeError JudgeResult × World)
          → run_cases j submission_id lang dir prob tcs rt mem env w ≡ r
          → Allowed r.0
      go (ok x, w') e =
          let report = run_cases-Report j submission_id lang dir prob env tcs rt mem w w' x e in
          Ends-allowed report.ran report.rest x.verdict report.ends
      go (err x, w') e = tt

  compile-Allowed :
      (cmd : Option (List (List ℕ))) (next : Try JudgeError JudgeResult) (w : World)
      → ((w' : World) → Allowed (next env w').0)
      → Allowed (compile j submission_id lang dir cmd next env w).0
  unfolding compile compiled
  compile-Allowed none next w h = h w
  compile-Allowed (some cmd) next w h =
      bind-Ensures IsAllowed
        (require compile_failed (exec (compile_request j submission_id lang dir cmd)))
        (compiled j submission_id lang dir next) env w
        (λ out w'. elim (Bool-cases (out.verdict == "OK")) [
          | inl e ↦ rw e (h w')
          | inr e ↦ rw e refl
        ])

judge_loaded-Allowed :
    (j : Judge) (sub : Submission) (lang : LangConfig) (prob : Problem) (cases : List TestCase)
    (id : ℤ) (env : Env) (w : World)
    → Allowed (judge_loaded j sub lang prob cases id env w).0
unfolding judge_loaded
judge_loaded-Allowed j sub lang prob cases id env w =
    bind-Ensures IsAllowed (require work_dir mkdir_temp) _ env w (λ dir w1.
      bind-Ensures IsAllowed
        (ensure write_source (write_file (join_path dir lang.source_file) (utf8 sub.source))) _ env
        w1
        (λ _ w2.
          compile-Allowed j id lang dir prob env lang.compile_cmd _ w2
            (λ w3. run_cases-Allowed j id lang dir prob env cases (pos 0) (pos 0) w3)))

-- Whatever the sandbox, the files and the database answer, a run of the judge that returns a
-- result returns a verdict that the CHECK of the tables allows.
pub run-Allowed : (j : Judge) (id : ℤ) (env : Env) (w : World) → Allowed (run j id env w).0
unfolding run
run-Allowed j id env w =
    bind-Ensures IsAllowed (wrap load_submission (Submissions.find_by_id id)) _ env w (λ sub w1.
      bind-Ensures IsAllowed
        (require (unsupported_language sub.language) (pure (language sub.language j.languages))) _
        env w1
        (λ lang w2.
          bind-Ensures IsAllowed (wrap load_problem (Problems.get_by_id sub.problem_id)) _ env w2
            (λ prob w3.
              bind-Ensures IsAllowed
                (wrap load_test_cases (TestCases.list_by_problem sub.problem_id)) _ env w3
                (λ cases w4. elim (Bool-cases (is_empty cases)) [
                  | inl e ↦ rw e tt
                  | inr e ↦ rw e (judge_loaded-Allowed j sub lang prob cases id env w4)
                ]))))
