-- ===== src/Tests/Judging.antt =====
-- The judge.
use go_spoc.Prelude.{◌≡◌, ◌↔◌, refl, [], ◌∷◌, false, some, none, codes}
use go_spoc.Prelude.Int.{pos}
use go_spoc.Result.{ok}
use go_spoc.Sandbox.{Output}
use go_spoc.World.{Env, World, exec, transact}
use go_spoc.Db.{update_where}
use go_spoc.Judge.Classify.{truncate}
use go_spoc.Prelude.{map}
use go_spoc.Submission.{Submission}
use go_spoc.Strings.{trim_right, split, join}
use go_spoc.Judge.Normalize.{replace_crlf, normalize}
use go_spoc.Judge.SameLines.{SameLines, normalize_eq_iff}
use go_spoc.Judge.Classify.{classify}
use go_spoc.Judge.Accepts.{EndsWith, AllAccepted, run_cases_ac_iff}
use go_spoc.Judge.Languages as Languages
use go_spoc.Judge.Languages.{LangConfig, language}
use go_spoc.Judge.Run.{JudgeResult, run_cases, run, compile, compiled}
use go_spoc.Judge.Report.{Report, run_cases-Report}
use go_spoc.Judge.Verdicts.{Allowed, run-Allowed}
use go_spoc.Judge.Frame.{Frame, run-Frame}
use go_spoc.Tests.Fixtures.{adding, case_one, case_two, start, calm, judge}
use go_spoc.Db.{exists, query_row, select}
use go_spoc.Submission.Repository as Submissions
use go_spoc.Prelude.Eq.{list_beq}
use go_spoc.Db.Order.{order_by}
use go_spoc.Judge.CompileErrors.{compile_ce_iff, GivesCe, RefusedBy}

unfoldable pub judging : Unit {0}
unfolding run_cases Submissions.save_test_result exists classify normalize replace_crlf trim_right
    split join list_beq
judging = tt

blank_ends : normalize (codes "a \r\nb\t\n\n") ≡ codes "a\nb"
unfolding judging
blank_ends = refl

-- A carriage return that is not before a line feed stays.
lone_return : normalize (codes "a\r") ≡ codes "a\r"
unfolding judging
lone_return = refl

normalize_eq_iff_example :
    (normalize (codes "3 ") ≡ normalize (codes "3\n")) ↔ SameLines (codes "3 ") (codes "3\n")
normalize_eq_iff_example = normalize_eq_iff (codes "3 ") (codes "3\n")

abbrev python : LangConfig
python = record {
  image = codes "py";
  source_file = codes "solution.py";
  compile_cmd = none;
  compile_env = [];
  run_cmd = codes "python3" ∷ [];
}

run_cases_ac_iff_example :
    EndsWith judge
      (pos 1)
      python
      []
      adding
      calm
      (run_cases judge
        (pos 1)
        python
        []
        adding
        (case_one ∷ case_two ∷ [])
        (pos 0)
        (pos 0)
        calm
        start).0
      "AC"
    ↔ AllAccepted judge (pos 1) python [] adding calm 0 (case_one ∷ case_two ∷ [])
run_cases_ac_iff_example =
    run_cases_ac_iff judge (pos 1) python [] adding calm (case_one ∷ case_two ∷ []) (pos 0) (pos 0)
      start

-- The first case passes and the second does not.
abbrev second_fails : JudgeResult
second_fails = record { verdict = "WA"; runtime_ms = pos 7; memory_kb = pos 900 }

abbrev after_two : World
after_two =
    (run_cases judge (pos 1) python [] adding (case_one ∷ case_two ∷ []) (pos 0) (pos 0) calm
      start).1

run_cases-Report_example :
    Report judge
      (pos 1)
      python
      []
      adding
      calm
      (case_one ∷ case_two ∷ [])
      (pos 0)
      (pos 0)
      start
      second_fails
      after_two
unfolding judging
run_cases-Report_example =
    run_cases-Report judge (pos 1) python [] adding calm (case_one ∷ case_two ∷ []) (pos 0) (pos 0)
      start after_two second_fails refl

whole_run : (run judge (pos 1) calm start).0 ≡ ok second_fails
unfolding judging run query_row Languages.new order_by select
whole_run = refl

run-Allowed_example : Allowed (run judge (pos 1) calm start).0
run-Allowed_example = run-Allowed judge (pos 1) calm start

run-Frame_example : Frame start (run judge (pos 1) calm start).1
run-Frame_example = run-Frame judge (pos 1) calm start

-- A compiler that fails.
abbrev go : LangConfig
go = record {
  image = codes "go";
  source_file = codes "solution.go";
  compile_cmd = some (codes "sh" ∷ []);
  compile_env = [];
  run_cmd = codes "/work/prog" ∷ [];
}

abbrev rejects : Output
rejects = record {
  verdict = "RE";
  stdout = [];
  runtime_ms = pos 3;
  memory_kb = pos 10;
  stderr_excerpt = codes "syntax error";
  output_truncated = false;
}

abbrev strict : Env
strict = record calm { sandbox = λ n req. some rejects }

compile_ce_iff_example :
    let (r, w') =
      compile judge
        (pos 1)
        go
        []
        (some (codes "sh" ∷ []))
        (run_cases judge (pos 1) go [] adding (case_one ∷ []) (pos 0) (pos 0))
        strict
        start in
    GivesCe judge (pos 1) go [] (codes "sh" ∷ []) strict start r
    ↔ RefusedBy judge (pos 1) go [] (codes "sh" ∷ []) strict start w'
compile_ce_iff_example =
    compile_ce_iff judge (pos 1) go [] (codes "sh" ∷ []) strict start adding (case_one ∷ []) (pos 0)
      (pos 0) refl

-- Its message is in the submission's row.
message_is_stored :
    map {A = Submission}
      (λ s. s.compile_error)
      (compile judge
        (pos 1)
        go
        []
        (some (codes "sh" ∷ []))
        (run_cases judge (pos 1) go [] adding (case_one ∷ []) (pos 0) (pos 0))
        strict
        start).1.db.submissions
    ≡ some (codes "syntax error") ∷ []
unfolding compile compiled exec Submissions.set_compile_error Submissions.update_compile_error
    transact update_where truncate
message_is_stored = refl
