-- ===== src/Judge/RunSteps.antt =====
-- One round of the loop over the test cases.
use go_spoc.Prelude.{ℕ, suc, ◌≡◌, refl, true, false, List, [], ◌∷◌, ◌++◌, none, some}
use go_spoc.Prelude.Eq.{◌==◌, string_eq}
use go_spoc.Prelude.Int.{ℤ}
use go_spoc.Problem.{Problem}
use go_spoc.TestCase.{TestCase}
use go_spoc.Submission.Repository.{save_test_result}
use go_spoc.Result.{Result, ok, err}
use go_spoc.Db.{Db, DbError}
use go_spoc.Sandbox.{ExecRequest, Output}
use go_spoc.World.{Env, World, Link, up, refused, lost, settle, exec}
use go_spoc.Judge.Classify.{classify}
use go_spoc.Judge.Languages.{LangConfig, Judge}
use go_spoc.Judge.Run.{sandbox_run, run_request, test_result, larger, run_cases}

settle_calls :
    {A : Type 0} (l : Link) (r : Result DbError A × Db) (w : World)
    → (settle l r w).1.calls ≡ suc w.calls
settle_calls up r w = refl
settle_calls refused r w = refl
settle_calls lost r w = refl

settle_ran :
    {A : Type 0} (l : Link) (r : Result DbError A × Db) (w : World) → (settle l r w).1.ran ≡ w.ran
settle_ran up r w = refl
settle_ran refused r w = refl
settle_ran lost r w = refl

module _ (j : Judge) (submission_id : ℤ) (lang : LangConfig) (dir : List ℕ) (prob : Problem)
    (env : Env) (tc : TestCase) (tcs : List TestCase) (rt mem : ℤ) (w : World) where
  abbrev request : ExecRequest
  request = run_request j submission_id lang dir prob tc

  -- The state once the sandbox has answered and the result has been sent to the table.
  pub after : Output → World
  after out =
      (save_test_result (test_result j submission_id lang dir tc out) env (exec request env w).1).1

  pub after_calls : (out : Output) → (after out).calls ≡ suc (suc w.calls)
  unfolding after save_test_result exec
  after_calls out = settle_calls (env.link (suc w.calls)) _ _

  pub after_ran : (out : Output) → (after out).ran ≡ w.ran ++ request ∷ []
  unfolding after save_test_result exec
  after_ran out = settle_ran (env.link (suc w.calls)) _ _

  pub step_broken :
      env.sandbox w.calls request ≡ none
      → (run_cases j submission_id lang dir prob (tc ∷ tcs) rt mem env w).0
        ≡ err (sandbox_run tc.idx)
  unfolding run_cases exec
  step_broken e = rw e refl

  pub step_stop :
      (out : Output)
      → env.sandbox w.calls request ≡ some out
      → (classify out tc.expected_output == "AC") ≡ false
      → run_cases j submission_id lang dir prob (tc ∷ tcs) rt mem env w ≡ (
        ok (record {
          verdict = classify out tc.expected_output;
          runtime_ms = larger out.runtime_ms rt;
          memory_kb = larger out.memory_kb mem;
        }),
        after out,
      )
  unfolding run_cases after
  step_stop out e v = rw e (rw v refl)

  pub step_go :
      (out : Output)
      → env.sandbox w.calls request ≡ some out
      → (classify out tc.expected_output == "AC") ≡ true
      → run_cases j submission_id lang dir prob (tc ∷ tcs) rt mem env w
        ≡ run_cases j submission_id lang dir prob tcs
            (larger out.runtime_ms rt)
            (larger out.memory_kb mem)
            env
            (after out)
  unfolding run_cases after
  step_go out e v = rw e (rw v refl)
