-- ===== src/Submission/Spec/Refines.antt =====
-- The repository's statements do what the machine says.
use go_spoc.Prelude.{suc, ◌≡◌, refl, ◌∙◌, Bool, List, [], ◌∷◌}
use go_spoc.Prelude.Eq.{nat_eq}
use go_spoc.Prelude.Int.{ℤ, int_eq}
use go_spoc.Result.{Result}
use go_spoc.Db.{Db, DbError}
use go_spoc.World.{Env, World, Link, up, refused, lost, settle}
use go_spoc.Submission.{status_eq}
use go_spoc.Submission.Claims.{IsKeyed, perform-IsKeyed}
use go_spoc.Submission.Schedule.{Op, perform, run}
use go_spoc.Submission.Spec.{told, act_over, replay, replies}
use go_spoc.Submission.Spec.Statuses.{board_of, knows}
use go_spoc.Submission.Spec.Matching.{
  Matches, settle-Matches, settle_quiet-Matches, running-Matches, failed-Matches, message-Matches,
  result-Matches, done-Matches, create-Matches,
}

perform-Matches :
    (o : Op) (env : Env) (w : World)
    → IsKeyed w.db
    → let (a, w') = perform o env w in Matches (knows w.db) o (env.link w.calls) w.db w'.db a
unfolding perform told
perform-Matches (Op.create u p l s) env w h =
    settle_quiet-Matches _ _ _ _ w refl (create-Matches w.db h u p l s (env.now w.calls))
perform-Matches (Op.mark_running j) env w h =
    settle-Matches _ _ _ _ w (running-Matches w.db h j (env.now w.calls))
perform-Matches (Op.mark_done j v r m) env w h =
    settle-Matches _ _ _ _ w (done-Matches w.db h j v r m (env.now w.calls))
perform-Matches (Op.mark_failed j) env w h =
    settle-Matches _ _ _ _ w (failed-Matches w.db h j (env.now w.calls))
perform-Matches (Op.save_test_result t) env w h =
    settle_quiet-Matches _ _ _ _ w refl (result-Matches w.db h t)
perform-Matches (Op.set_compile_error j msg) env w h =
    settle_quiet-Matches _ _ _ _ w refl (message-Matches w.db h j msg)

settle-calls :
    {A : Type 0} (l : Link) (r : Result DbError A × Db) (w : World)
    → (settle l r w).1.calls ≡ suc w.calls
settle-calls up r w = refl
settle-calls refused r w = refl
settle-calls lost r w = refl

perform-calls : (o : Op) (env : Env) (w : World) → (perform o env w).1.calls ≡ suc w.calls
unfolding perform
perform-calls (Op.create u p l s) env w = settle-calls (env.link w.calls) _ w
perform-calls (Op.mark_running j) env w = settle-calls (env.link w.calls) _ w
perform-calls (Op.mark_done j v r m) env w = settle-calls (env.link w.calls) _ w
perform-calls (Op.mark_failed j) env w = settle-calls (env.link w.calls) _ w
perform-calls (Op.save_test_result t) env w = settle-calls (env.link w.calls) _ w
perform-calls (Op.set_compile_error j msg) env w = settle-calls (env.link w.calls) _ w

-- The board after a statement, as one equation.
board_is :
    {known : ℤ → ℤ → Bool} {o : Op} {l : Link} {db db' : Db} {a : Bool}
    → Matches known o l db db' a
    → board_of db' ≡ act_over known l o (board_of db)
board_is m i = record { status = λ id. m.status id i; next = m.next i }

-- What the callers of some statements are told.
unfoldable pub heard : List Op → Env → World → List Bool
heard [] env w = []
heard (o ∷ os) env w = let (a, w') = perform o env w in a ∷ heard os env w'

-- Run on tables whose ids are distinct, the repository's statements change the statuses as the
-- machine of Spec does, and each caller is told what the machine says, whatever becomes of each
-- statement and of its answer.
pub run_refines :
    (os : List Op) (env : Env) (w : World)
    → IsKeyed w.db
    → board_of (run os env w).db ≡ replay (knows w.db) os env w.calls (board_of w.db)
      × heard os env w ≡ replies (knows w.db) os env w.calls (board_of w.db)
unfolding run heard replay replies
run_refines [] env w h = (refl, refl)
run_refines (o ∷ os) env w h =
    let m = perform-Matches o env w h in
    let (board, answers) = run_refines os env (perform o env w).1 (perform-IsKeyed o env w h) in
    let calls = perform-calls o env w in
    (
      board ∙ λ i. replay (m.kept i) os env (calls i) (board_is m i),
      λ i. m.answer_is i ∷ (answers ∙ λ k. replies (m.kept k) os env (calls k) (board_is m k)) i,
    )
