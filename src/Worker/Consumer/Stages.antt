-- ===== src/Worker/Consumer/Stages.antt =====
-- The stages of a consumer make up `process`.
use go_spoc.Prelude.{ℕ, ◌≡◌, refl, Bool, true, false, List}
use go_spoc.Result.{Result, ok, err}
use go_spoc.Db.{DbError}
use go_spoc.World.{Env, World}
use go_spoc.Submission.Repository.{mark_running}
use go_spoc.Judge.Languages.{Judge}
use go_spoc.Queue.{Message}
use go_spoc.Worker.{Worker, on_claim, process}
use go_spoc.Worker.Consumer.{idle, fetched, Context, after_claim, advance, drive}

module _ (wk : Worker) (j : Judge) (name : List ℕ) (ctx : Context) (msg : Message) (env : Env) where
  claimed_stages :
      (r : Result DbError Bool) (w : World)
      → let (s, w') = after_claim wk j msg r env w in
        drive wk j 2 name ctx s env w' ≡ (idle, (on_claim wk j msg r env w).1)
  unfolding drive advance after_claim on_claim
  claimed_stages (err e) w = refl
  claimed_stages (ok false) w = refl
  claimed_stages (ok true) w = refl

  -- Three stages are enough for a message, whatever is answered, and what they do one after the
  -- other is what `process` does.
  pub process_stages :
      (w : World) → drive wk j 3 name ctx (fetched msg) env w ≡ (idle, (process wk j msg env w).1)
  unfolding drive advance process
  process_stages w =
      claimed_stages (mark_running msg.job.submission_id env w).0
        (mark_running msg.job.submission_id env w).1
