-- ===== src/Judge/Classify.antt =====
-- internal/judge/judge.go: the verdict of one run, and `truncate`.
use go_spoc.Prelude.{ℕ, String, List, ltb, length, take, if◌then◌else◌}
use go_spoc.Prelude.Eq.{◌==◌, string_eq, list_eq, nat_eq}
use go_spoc.Sandbox.{Output}
use go_spoc.Judge.Normalize.{normalize}

unfoldable pub classify : Output → List ℕ → String
classify out expected =
    if out.verdict == "OK"
    then (if out.output_truncated
        then "WA"
        else if normalize out.stdout == normalize expected
        then "AC"
        else "WA")
    else if out.verdict == "TLE"
    then "TLE"
    else if out.verdict == "MLE"
    then "MLE"
    else "RE"

unfoldable pub truncate : List ℕ → ℕ → List ℕ
truncate s max = if ltb max (length s) then take max s else s
