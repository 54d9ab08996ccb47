-- ===== src/Sweeper.antt =====
-- internal/submission/sweeper.go: one sweep, and `Run`, which sweeps on every tick until it is
-- cancelled.
pub mod Laws
pub mod Ticks
use go_spoc.Prelude.{Bool, List, [], ◌∷◌}
use go_spoc.Prelude.Int.{ℤ, pos, ltb_ℤ}
use go_spoc.Result.{Result, ok, err}
use go_spoc.Db.{DbError}
use go_spoc.World.{Act, pure, ◌>>=◌, ◌>>◌}
use go_spoc.Submission.Repository.{list_stale_queued}
use go_spoc.Queue.{Job, enqueue}

-- Both are numbers of nanoseconds.
pub record Sweeper : Type 0 where
  pub interval : ℤ
  pub stale_after : ℤ

abbrev pub new : ℤ → ℤ → Sweeper
new interval stale_after = record { interval = interval; stale_after = stale_after }

-- time.NewTicker panics if the interval is not positive.
abbrev pub new_ticker : Sweeper → Bool
new_ticker s = ltb_ℤ (pos 0) s.interval

-- A job that cannot be enqueued is logged, and the next one is tried.
unfoldable pub enqueue_all : List ℤ → Act (Unit {0})
unfolding enqueue
enqueue_all [] = pure tt
enqueue_all (id ∷ ids) = enqueue (record { submission_id = id }) >> enqueue_all ids

unfoldable pub swept : Result DbError (List ℤ) → Act (Unit {0})
unfolding enqueue_all
swept (err e) = pure tt
swept (ok []) = pure tt
swept (ok (id ∷ ids)) = enqueue_all (id ∷ ids)

unfoldable pub sweep : ℤ → Act (Unit {0})
unfolding list_stale_queued swept
sweep stale_after = do ids ← list_stale_queued stale_after; swept ids

-- What the `select` of `Run` chooses.
pub data Wake : Type 0 where
  cancelled tick : Wake

unfoldable pub run : ℤ → List Wake → Act (Unit {0})
unfolding sweep
run stale_after [] = pure tt
run stale_after (cancelled ∷ _) = pure tt
run stale_after (tick ∷ wakes) = sweep stale_after >> run stale_after wakes
