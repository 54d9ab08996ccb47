-- ===== src/Judge/Frame.antt =====
-- What a run of the judge leaves alone: it sends nothing to Redis, and of the submissions it writes
-- the compiler's message only.
use go_spoc.Prelude.{
  ℕ, ◌≡◌, refl, ◌∙◌, Bool, List, [], ◌∷◌, map, Option, none, some, arith, Bool-cases, inl, inr,
  is_empty,
}
use go_spoc.Prelude.Eq.{◌==◌, string_eq}
use go_spoc.Prelude.Int.{ℤ, pos, int_eq}
use go_spoc.Problem.{Problem}
use go_spoc.TestCase.{TestCase}
use go_spoc.Problem.Repository as Problems
use go_spoc.TestCase.Repository as TestCases
use go_spoc.Submission.{Submission, TestResult}
use go_spoc.Submission.Repository as Submissions
use go_spoc.Submission.Repository.{insert_result, update_compile_error, set_message}
use go_spoc.Submission.Lifecycle.{judged_part}
use go_spoc.Result.{Result, ok, err}
use go_spoc.Db.{Db, DbError, update_where}
use go_spoc.World.{Env, World, Link, up, refused, lost, settle, exec, mkdir_temp, write_file, pure}
use go_spoc.World.Try.{Try, continue, ◌>>=◌, wrap, require, ensure}
use go_spoc.Judge.Classify.{classify}
use go_spoc.Strings.Utf8.{utf8}
use go_spoc.Judge.Languages.{LangConfig, Judge, language}
use go_spoc.Judge.Run.{
  JudgeResult, JudgeError, load_submission, load_problem, load_test_cases, unsupported_language,
  work_dir, write_source, compile_failed, sandbox_run, run_request, test_result, larger, run_cases,
  compiled, compile, compile_request, compile_message, join_path, judge_loaded, run,
}

-- The rows of `submissions` without the compiler's messages.
abbrev pub judged_rows : Db → List Submission
judged_rows db = map judged_part db.submissions

pub record Frame (w w' : World) : Type 0 where
  pub sent : w'.sent ≡ w.sent
  pub rows : judged_rows w'.db ≡ judged_rows w.db
  pub keys : w'.db.next_submission ≡ w.db.next_submission

Frame-refl : (w : World) → Frame w w
Frame-refl w = record { sent = refl; rows = refl; keys = refl }

Frame-trans : {w w' w'' : World} → Frame w w' → Frame w' w'' → Frame w w''
Frame-trans a b = record { sent = b.sent ∙ a.sent; rows = b.rows ∙ a.rows; keys = b.keys ∙ a.keys }

bind-Frame :
    {E A B : Type 0} (m : Try E A) (f : A → Try E B) (env : Env) (w : World)
    → Frame w (m env w).1
    → ((a : A) (w' : World) → Frame w' (f a env w').1)
    → Frame w ((m >>= f) env w).1
bind-Frame {E} {A} m f env w first h = go (m env w).0
  where
    go : (r : Result E A) → Frame w (continue f r env (m env w).1).1
    go (ok a) = Frame-trans first (h a (m env w).1)
    go (err e) = first

settle-Frame :
    {A : Type 0} (l : Link) (r : Result DbError A × Db) (w : World)
    → judged_rows r.1 ≡ judged_rows w.db
    → r.1.next_submission ≡ w.db.next_submission
    → Frame w (settle l r w).1
settle-Frame up r w h k = record { sent = refl; rows = h; keys = k }
settle-Frame refused r w h k = record { sent = refl; rows = refl; keys = refl }
settle-Frame lost r w h k = record { sent = refl; rows = h; keys = k }

judged_rows-result :
    (t : TestResult) (db : Db) → judged_rows (insert_result t db).1 ≡ judged_rows db
unfolding insert_result
judged_rows-result t db = ground arith

keys-result :
    (t : TestResult) (db : Db) → (insert_result t db).1.next_submission ≡ db.next_submission
unfolding insert_result
keys-result t db = ground arith

map-message :
    (p : Submission → Bool) (msg : List ℕ) (rows : List Submission)
    → map judged_part (update_where p (set_message msg) rows) ≡ map judged_part rows
unfolding update_where
map-message p msg [] = refl
map-message p msg (s ∷ rows) = ground (arith, map-message p msg rows)

judged_rows-message :
    (id : ℤ) (msg : List ℕ) (db : Db)
    → judged_rows (update_compile_error id msg db).1 ≡ judged_rows db
unfolding update_compile_error
judged_rows-message id msg db = map-message (λ s. s.id == id) msg db.submissions

save-Frame :
    (t : TestResult) (env : Env) (w : World) → Frame w (Submissions.save_test_result t env w).1
unfolding Submissions.save_test_result
save-Frame t env w =
    settle-Frame (env.link w.calls) _ w (judged_rows-result t w.db) (keys-result t w.db)

message-Frame :
    (id : ℤ) (msg : List ℕ) (env : Env) (w : World)
    → Frame w (Submissions.set_compile_error id msg env w).1
unfolding Submissions.set_compile_error update_compile_error
message-Frame id msg env w =
    settle-Frame (env.link w.calls) _ w (judged_rows-message id msg w.db) refl

module _ (j : Judge) (id : ℤ) (lang : LangConfig) (dir : List ℕ) (prob : Problem) (env : Env) where
  run_cases-Frame :
      (tcs : List TestCase) (rt mem : ℤ) (w : World)
      → Frame w (run_cases j id lang dir prob tcs rt mem env w).1
  unfolding run_cases
  run_cases-Frame [] rt mem w = Frame-refl w
  run_cases-Frame (tc ∷ tcs) rt mem w =
      bind-Frame (require (sandbox_run tc.idx) (exec (run_request j id lang dir prob tc))) _ env w
        (record { sent = refl; rows = refl; keys = refl })
        (λ out w'.
          Frame-trans (save-Frame (test_result j id lang dir tc out) env w')
            (elim (Bool-cases (classify out tc.expected_output == "AC")) [
              | inl e ↦ rw e (
                  run_cases-Frame tcs (larger out.runtime_ms rt) (larger out.memory_kb mem)
                    (Submissions.save_test_result (test_result j id lang dir tc out) env w').1)
              | inr e ↦ rw e (Frame-refl _)
            ]))

  compile-Frame :
      (cmd : Option (List (List ℕ))) (next : Try JudgeError JudgeResult) (w : World)
      → ((w' : World) → Frame w' (next env w').1)
      → Frame w (compile j id lang dir cmd next env w).1
  unfolding compile
  compile-Frame none next w h = h w
  compile-Frame (some cmd) next w h =
      bind-Frame (require compile_failed (exec (compile_request j id lang dir cmd)))
        (compiled j id lang dir next) env w (record { sent = refl; rows = refl; keys = refl })
        (λ out w'. elim (Bool-cases (out.verdict == "OK")) [
          | inl e ↦ rw e (h w')
          | inr e ↦ rw e (message-Frame id (compile_message j id lang dir out) env w')
        ])

judge_loaded-Frame :
    (j : Judge) (sub : Submission) (lang : LangConfig) (prob : Problem) (cases : List TestCase)
    (id : ℤ) (env : Env) (w : World)
    → Frame w (judge_loaded j sub lang prob cases id env w).1
unfolding judge_loaded
judge_loaded-Frame j sub lang prob cases id env w =
    bind-Frame (require work_dir mkdir_temp) _ env w
      (record { sent = refl; rows = refl; keys = refl })
      (λ dir w1.
        bind-Frame
          (ensure write_source (write_file (join_path dir lang.source_file) (utf8 sub.source))) _
          env w1 (record { sent = refl; rows = refl; keys = refl })
          (λ _ w2.
            compile-Frame j id lang dir prob env lang.compile_cmd _ w2
              (λ w3. run_cases-Frame j id lang dir prob env cases (pos 0) (pos 0) w3)))

find-Frame : (id : ℤ) (env : Env) (w : World) → Frame w (Submissions.find_by_id id env w).1
unfolding Submissions.find_by_id
find-Frame id env w = settle-Frame (env.link w.calls) _ w refl refl

problem-Frame : (id : ℤ) (env : Env) (w : World) → Frame w (Problems.get_by_id id env w).1
unfolding Problems.get_by_id
problem-Frame id env w = settle-Frame (env.link w.calls) _ w refl refl

cases-Frame : (id : ℤ) (env : Env) (w : World) → Frame w (TestCases.list_by_problem id env w).1
unfolding TestCases.list_by_problem
cases-Frame id env w = settle-Frame (env.link w.calls) _ w refl refl

-- Whatever is answered, a run of the judge sends nothing to Redis, draws no key for a submission,
-- and changes, adds and removes no row of `submissions` but for the compiler's message.
pub run-Frame : (j : Judge) (id : ℤ) (env : Env) (w : World) → Frame w (run j id env w).1
unfolding run
run-Frame j id env w =
    bind-Frame (wrap load_submission (Submissions.find_by_id id)) _ env w (find-Frame id env w)
      (λ sub w1.
        bind-Frame
          (require (unsupported_language sub.language) (pure (language sub.language j.languages))) _
          env w1 (Frame-refl w1)
          (λ lang w2.
            bind-Frame (wrap load_problem (Problems.get_by_id sub.problem_id)) _ env w2
              (problem-Frame sub.problem_id env w2)
              (λ prob w3.
                bind-Frame (wrap load_test_cases (TestCases.list_by_problem sub.problem_id)) _ env
                  w3 (cases-Frame sub.problem_id env w3)
                  (λ cases w4. elim (Bool-cases (is_empty cases)) [
                    | inl e ↦ rw e (Frame-refl w4)
                    | inr e ↦ rw e (judge_loaded-Frame j sub lang prob cases id env w4)
                  ]))))
