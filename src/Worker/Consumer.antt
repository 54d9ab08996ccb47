-- ===== src/Worker/Consumer.antt =====
-- internal/worker/worker.go: the loop of one consumer, cut where other processes may come in
-- between. `process` has three stages: the claim, the judge's run, and what is made of its result.
pub mod Stages
use go_spoc.Prelude.{ℕ, Bool, true, false, List, if◌then◌else◌}
use go_spoc.Result.{Result, ok, err}
use go_spoc.Db.{DbError}
use go_spoc.World.{Act, pure, ◌>>=◌, ◌>>◌}
use go_spoc.Submission.Repository.{mark_running}
use go_spoc.Judge.Languages.{Judge}
use go_spoc.Judge.Run.{JudgeResult, JudgeError}
use go_spoc.Judge.Run as Judging
use go_spoc.Queue.{
  Message, ConsumeError, no_message, read_failed, bad_submission_id, consume, ack, nack,
}
use go_spoc.Worker.{Worker, publish, status_event, on_judged}

-- Where a consumer stands: at the head of its loop, behind `Consume`, behind the claim, behind the
-- judge's run, or returned.
pub data Stage : Type 0 where
  idle stopped : Stage
  fetched judging : Message → Stage
  judged : Message → Result JudgeError JudgeResult → Stage

-- Whether the context is seen to be cancelled at the head of the loop, and behind a `Consume` that
-- failed: by ctx.Err(), or while it waits for half a second.
pub record Context : Type 0 where
  pub before : Bool
  pub after : Bool

unfoldable pub on_received : Context → Result ConsumeError Message → Stage
on_received ctx (ok msg) = fetched msg
on_received ctx (err no_message) = idle
on_received ctx (err read_failed) = if ctx.after then stopped else idle
on_received ctx (err bad_submission_id) = if ctx.after then stopped else idle

module _ (wk : Worker) (j : Judge) where
  unfoldable pub after_claim : Message → Result DbError Bool → Act Stage
  unfolding publish
  after_claim msg (err e) = nack msg >> pure idle
  after_claim msg (ok false) = ack msg >> pure idle
  after_claim msg (ok true) =
      publish wk (status_event msg.job.submission_id "running") >> pure (judging msg)

  unfoldable pub advance : List ℕ → Context → Stage → Act Stage
  unfolding on_received after_claim on_judged
  advance name ctx idle =
      if ctx.before then pure stopped else (consume name >>= λ r. pure (on_received ctx r))
  advance name ctx stopped = pure stopped
  advance name ctx (fetched msg) = do
    claimed ← mark_running msg.job.submission_id
    after_claim msg claimed
  advance name ctx (judging msg) = do
    rep ← Judging.run j msg.job.submission_id
    pure (judged msg rep)
  advance name ctx (judged msg rep) = on_judged wk j msg rep >> pure idle

  -- A job is driven on until the consumer is at the head of its loop again.
  unfoldable pub drive : ℕ → List ℕ → Context → Stage → Act Stage
  unfolding advance
  drive ℕ.zero name ctx s = pure s
  drive (ℕ.suc n) name ctx idle = pure idle
  drive (ℕ.suc n) name ctx stopped = pure stopped
  drive (ℕ.suc n) name ctx (fetched msg) = advance name ctx (fetched msg) >>= drive n name ctx
  drive (ℕ.suc n) name ctx (judging msg) = advance name ctx (judging msg) >>= drive n name ctx
  drive (ℕ.suc n) name ctx (judged msg rep) = advance name ctx (judged msg rep) >>= drive n name ctx
