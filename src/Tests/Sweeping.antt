-- ===== src/Tests/Sweeping.antt =====
-- What a sweep lists, and what it leaves.
use go_spoc.Prelude.{◌≡◌, refl, false, [], ◌∷◌, arith}
use go_spoc.Prelude.Eq.{◌==◌}
use go_spoc.Prelude.Int.{pos, negsuc, int_eq, ◌-ℤ◌}
use go_spoc.Result.{ok}
use go_spoc.Db.{Db, affected, query_row, exists}
use go_spoc.Submission.{Submission, running}
use go_spoc.Submission.Repository.{update_running, stale_ids}
use go_spoc.Submission.Claims.{IsKeyed}
use go_spoc.Submission.Stuck.{running_is_stuck}
use go_spoc.Sweeper.{run, sweep, swept, enqueue_all, tick, cancelled}
use go_spoc.Sweeper.Ticks.{Sent, resend, ticks, run-resends}
use go_spoc.Submission.Repository.{list_stale_queued}
use go_spoc.Queue.{enqueue}
use go_spoc.Db.{select}
use go_spoc.Db.Order.{order_by}
use go_spoc.World.{transact, send}
use go_spoc.Tests.Fixtures.{tables, waiting, calm, start}

abbrev claimed : Submission
claimed = record waiting { status = running; updated_at = 9 }

abbrev claimed_tables : Db
claimed_tables = record tables { submissions = claimed ∷ [] }

claimed_tables-IsKeyed : IsKeyed claimed_tables
unfolding affected
claimed_tables-IsKeyed (pos n) = ground arith
claimed_tables-IsKeyed (negsuc n) = ground arith

running_is_stuck_example :
    ((update_running (pos 1) 1000 claimed_tables).0 ≡ ok false)
    × (exists (λ i. i == pos 1) (stale_ids (pos 900) claimed_tables) ≡ false)
unfolding query_row
running_is_stuck_example =
    running_is_stuck (pos 1) claimed_tables {s = claimed} claimed_tables-IsKeyed refl refl 1000
      (pos 900)

-- The third of three ticks sends the submission again.
run-resends_example :
    Sent (resend (pos 1)) (run (pos 60) (ticks 2 (tick ∷ cancelled ∷ tick ∷ [])) calm start).1.sent
unfolding run sweep list_stale_queued transact swept enqueue_all enqueue send stale_ids select
    order_by exists ◌-ℤ◌
run-resends_example = run-resends (pos 1) (pos 60) 2 (cancelled ∷ tick ∷ []) calm start refl refl
