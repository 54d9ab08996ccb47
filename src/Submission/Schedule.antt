-- ===== src/Submission/Schedule.antt =====
-- The statements of internal/submission/repository.go that write, in any order: what the API
-- server, the workers and the sweeper do to the tables between them is one such sequence.
use go_spoc.Prelude.{ℕ, ◌+◌, String, Bool, false, List, [], ◌∷◌, if◌then◌else◌, ◌&&◌}
use go_spoc.Prelude.Eq.{◌==◌}
use go_spoc.Prelude.Int.{ℤ, int_eq}
use go_spoc.Submission.{TestResult}
use go_spoc.Result.{Result, ok, err}
use go_spoc.Db.{DbError}
use go_spoc.World.{Env, World}
use go_spoc.Submission.Repository

pub data Op : Type 0 where
  create : ℤ → ℤ → List ℕ → List ℕ → Op
  mark_running : ℤ → Op
  mark_done : ℤ → String → ℤ → ℤ → Op
  mark_failed : ℤ → Op
  save_test_result : TestResult → Op
  set_compile_error : ℤ → List ℕ → Op

abbrev pub answered_true : Result DbError Bool → Bool
answered_true (ok b) = b
answered_true (err _) = false

-- One statement; the answer is whether the caller was told `true`.
unfoldable pub perform : Op → Env → World → Bool × World
unfolding Repository.create Repository.mark_running Repository.mark_done Repository.mark_failed
    Repository.save_test_result Repository.set_compile_error
perform (create u p l s) env w = (false, (Repository.create u p l s env w).1)
perform (mark_running id) env w =
    let (r, w') = Repository.mark_running id env w in (answered_true r, w')
perform (mark_done id v r m) env w =
    let (a, w') = Repository.mark_done id v r m env w in (answered_true a, w')
perform (mark_failed id) env w =
    let (r, w') = Repository.mark_failed id env w in (answered_true r, w')
perform (save_test_result tr) env w = (false, (Repository.save_test_result tr env w).1)
perform (set_compile_error id msg) env w = (false, (Repository.set_compile_error id msg env w).1)

unfoldable pub run : List Op → Env → World → World
run [] env w = w
run (o ∷ os) env w = run os env (perform o env w).1

abbrev pub claims : ℤ → Op → Bool
claims id (mark_running j) = j == id
claims id _ = false

-- How many workers were told that they claimed the submission.
unfoldable pub wins : ℤ → List Op → Env → World → ℕ
wins id [] env w = 0
wins id (o ∷ os) env w =
    (if claims id o && (perform o env w).0 then 1 else 0) + wins id os env (perform o env w).1
