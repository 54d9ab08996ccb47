-- ===== src/Worker.antt =====
-- internal/worker/worker.go: one job, from the claim to the acknowledgement.
pub mod Laws
pub mod Consumer
pub mod Pool
pub mod Finish
use go_spoc.Prelude.{
  ℕ, String, Bool, true, false, List, [], ◌∷◌, Option, none, some, codes, if◌then◌else◌, is_empty,
}
use go_spoc.Prelude.Int.{ℤ, pos, ltb_ℤ}
use go_spoc.Result.{Result, ok, err}
use go_spoc.Db.{DbError}
use go_spoc.Events.{Event}
use go_spoc.Events.Publisher.{publish_event}
use go_spoc.World.{Act, pure, ◌>>=◌, ◌>>◌}
use go_spoc.Submission.Repository.{mark_running, mark_done, mark_failed}
use go_spoc.Judge.Languages.{Judge}
use go_spoc.Judge.Run.{JudgeResult, JudgeError}
use go_spoc.Judge.Run as Judging
use go_spoc.Queue.{Message, ack, nack}

-- `publisher` may be nil.
pub record Worker : Type 0 where
  pub has_publisher : Bool
  pub concurrency : ℤ
  pub name_prefix : List ℕ

unfoldable pub new : Bool → ℤ → List ℕ → Worker
new has_publisher concurrency name_prefix = record {
  has_publisher = has_publisher;
  concurrency = if ltb_ℤ concurrency (pos 1) then pos 1 else concurrency;
  name_prefix = if is_empty name_prefix then codes "worker" else name_prefix;
}

-- An event that cannot be published is logged.
unfoldable pub publish : Worker → Event → Act (Unit {0})
unfolding publish_event
publish wk e = if wk.has_publisher then publish_event e >> pure tt else pure tt

abbrev pub status_event : ℤ → String → Event
status_event id status = record {
  submission_id = id;
  status = status;
  verdict = none;
  runtime_ms = none;
  memory_kb = none;
}

abbrev pub done_event : ℤ → JudgeResult → Event
done_event id rep = record {
  submission_id = id;
  status = "done";
  verdict = some rep.verdict;
  runtime_ms = some rep.runtime_ms;
  memory_kb = some rep.memory_kb;
}

module _ (wk : Worker) (j : Judge) (msg : Message) where
  abbrev id : ℤ
  id = msg.job.submission_id

  -- `if _, err := w.store.MarkDone(…); err != nil`: whether a row was hit is not looked at.
  unfoldable pub on_marked : JudgeResult → Result DbError Bool → Act (Unit {0})
  unfolding publish
  on_marked rep (err e) = nack msg >> pure tt
  on_marked rep (ok b) = publish wk (done_event id rep) >> ack msg >> pure tt

  unfoldable pub on_judged : Result JudgeError JudgeResult → Act (Unit {0})
  unfolding on_marked publish
  on_judged (err e) = mark_failed id >> publish wk (status_event id "failed") >> ack msg >> pure tt
  on_judged (ok rep) = do
    marked ← mark_done id rep.verdict rep.runtime_ms rep.memory_kb
    on_marked rep marked

  unfoldable pub on_claim : Result DbError Bool → Act (Unit {0})
  unfolding on_judged publish
  on_claim (err e) = nack msg >> pure tt
  on_claim (ok false) = ack msg >> pure tt
  on_claim (ok true) = do
    publish wk (status_event id "running")
    rep ← Judging.run j id
    on_judged rep

  unfoldable pub process : Act (Unit {0})
  unfolding on_claim
  process = do claimed ← mark_running id; on_claim claimed
