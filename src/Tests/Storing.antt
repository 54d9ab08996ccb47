-- ===== src/Tests/Storing.antt =====
-- The repository's statements.
use go_spoc.Prelude.{◌≤◌, ◌≡◌, refl, List, [], ◌∷◌}
use go_spoc.Prelude.Int.{pos}
use go_spoc.Result.{ok}
use go_spoc.Db.{query_row, affected, update_where, select}
use go_spoc.Prelude.{false, true}
use go_spoc.Submission.Schedule.{Op, run, wins, perform}
use go_spoc.Submission.Spec.{replay, replies}
use go_spoc.Submission.Spec.Statuses.{board_of, knows}
use go_spoc.Submission.Spec.Refines.{heard, run_refines}
use go_spoc.Submission.Claims.{claimed_once}
use go_spoc.Submission.Lifecycle.{Evolves, row_evolves}
use go_spoc.Sweeper.Laws.{enqueued, sweep_sent}
use go_spoc.Sweeper.{sweep}
use go_spoc.Submission.Repository.{stale_ids}
use go_spoc.Prelude.Int.{◌-ℤ◌, int_eq}
use go_spoc.Prelude.Eq.{◌==◌}
use go_spoc.Db.Order.{order_by}
use go_spoc.Submission.{Submission}
use go_spoc.Tests.Fixtures.{tables, start, calm, waiting, tables-IsKeyed}

-- Two workers claim the same submission, and the first records its verdict.
abbrev race : List Op
race =
    Op.mark_running (pos 1)
    ∷ Op.mark_running (pos 1)
    ∷ Op.mark_done (pos 1) "WA" (pos 7) (pos 900)
    ∷ Op.mark_failed (pos 1)
    ∷ []

race-wins : wins (pos 1) race calm start ≡ 1
unfolding wins perform affected update_where
race-wins = refl

claimed_once_example : wins (pos 1) race calm start ≤ 1
claimed_once_example = claimed_once (pos 1) race calm start tables-IsKeyed

row_evolves_example :
    (t : Submission) × (query_row (λ r. r.id == pos 1) (run race calm start).db.submissions ≡ ok t)
    × Evolves waiting t
unfolding query_row
row_evolves_example = row_evolves (pos 1) race calm start waiting refl

-- The sweep comes long after the submission was written.
sweep_sent_example :
    ((sweep (pos 60) calm start).1.sent ≡ enqueued (stale_ids (pos 100 -ℤ pos 60) tables))
    × ((sweep (pos 60) calm start).1.db ≡ tables)
sweep_sent_example = sweep_sent (pos 60) calm start refl

sweeps_one : stale_ids (pos 100 -ℤ pos 60) tables ≡ pos 1 ∷ []
unfolding stale_ids select order_by ◌-ℤ◌
sweeps_one = refl

-- The second worker's claim and the last statement are answered `false`.
race-heard : heard race calm start ≡ true ∷ false ∷ true ∷ false ∷ []
unfolding heard perform affected update_where
race-heard = refl

run_refines_example :
    board_of (run race calm start).db ≡ replay (knows tables) race calm 0 (board_of tables)
    × heard race calm start ≡ replies (knows tables) race calm 0 (board_of tables)
run_refines_example = run_refines race calm start tables-IsKeyed
