-- ===== src/Worker/Pool/Passes.antt =====
-- What one stage of a consumer does to the rows that may still be claimed.
use go_spoc.Prelude.{
  ℕ, ◌+◌, ◌≤◌, ◌≡◌, refl, sym, ap, ◌∙◌, String, Bool, true, false, List, [], ◌∷◌, map, Option, none,
  some, arith, inl, inr, Bool-cases,
}
use go_spoc.Prelude.Eq.{◌==◌}
use go_spoc.Prelude.Int.{ℤ, int_eq}
use go_spoc.Result.{Result, ok, err}
use go_spoc.Db.{Db, DbError, affected}
use go_spoc.World.{Env, World, send, read_messages, ReadReply, nothing, broken, streams, RawMessage}
use go_spoc.Submission.{Submission, queued, status_eq}
use go_spoc.Submission.Repository.{
  mark_running, mark_done, mark_failed, has_status, update_running, update_done, update_failed,
}
use go_spoc.World.{transact}
use go_spoc.Submission.Lifecycle.{judged_part}
use go_spoc.Submission.Claims.{
  queued_of, unborn, unborn_at, claim-Drains, done-Drains, failed-Drains, settle-Drains,
  settle_quiet-Drains, won_if,
}
use go_spoc.Judge.Languages.{Judge}
use go_spoc.Judge.Run.{JudgeResult, JudgeError}
use go_spoc.Judge.Run as Judging
use go_spoc.Judge.Frame.{run-Frame}
use go_spoc.Queue.{Message, ConsumeError, consume, received, decode, ack, nack, parse_submission_id}
use go_spoc.Worker.{Worker, publish, status_event, done_event, on_marked, on_judged}
use go_spoc.Worker.Laws.{publish_db}
use go_spoc.Worker.Consumer.{
  Stage, idle, stopped, fetched, judging, judged, Context, on_received, after_claim, advance,
}
use go_spoc.Worker.Pool.{enters, holds}

-- The rows of an id that can still be claimed, those to come included.
abbrev pub open_rows : ℤ → World → ℕ
open_rows id w = queued_of id w.db + unborn id w.db

decode_db :
    (raw : RawMessage) (o : Option ℤ) (env : Env) (w : World) → (decode raw o env w).1.db ≡ w.db
unfolding decode send
decode_db raw none env w = refl
decode_db raw (some id) env w = refl

received_db : (r : ReadReply) (env : Env) (w : World) → (received r env w).1.db ≡ w.db
unfolding received
received_db nothing env w = refl
received_db broken env w = refl
received_db (streams []) env w = refl
received_db (streams ([] ∷ _)) env w = refl
received_db (streams ((raw ∷ _) ∷ _)) env w = decode_db raw (parse_submission_id raw.values) env w

consume_db : (name : List ℕ) (env : Env) (w : World) → (consume name env w).1.db ≡ w.db
unfolding consume read_messages
consume_db name env w = received_db (env.read_group w.calls name) env _

affected-judged_part :
    (id : ℤ) (rows : List Submission)
    → affected (has_status id queued) (map judged_part rows) ≡ affected (has_status id queued) rows
unfolding affected
affected-judged_part id [] = refl
affected-judged_part id (s ∷ rows) = ground (arith, affected-judged_part id rows)

-- A run of the judge neither adds nor claims a row.
run-open_rows :
    (j : Judge) (id k : ℤ) (env : Env) (w : World)
    → open_rows id (Judging.run j k env w).1 ≡ open_rows id w
run-open_rows j id k env w =
    let frame = run-Frame j k env w in
    let w' = (Judging.run j k env w).1 in
    let same_queue : queued_of id w'.db ≡ queued_of id w.db =
      sym (affected-judged_part id w'.db.submissions)
      ∙ ap (affected (has_status id queued)) frame.rows
      ∙ affected-judged_part id w.db.submissions in
    let same_keys : unborn id w'.db ≡ unborn id w.db = ap (unborn_at id) frame.keys in
    omega (arith, same_queue, same_keys)

-- What a stage does: each coming to judge takes a row away, and a consumer holds a submission only
-- if it held it before or comes to judge it now.
pub record Passes (id : ℤ) (s s' : Stage) (w w' : World) : Type 0 where
  pub rows : open_rows id w' + enters id s' ≤ open_rows id w
  pub held : holds id s' ≤ holds id s + enters id s'

pub db-open_rows : (id : ℤ) (w w' : World) → w'.db ≡ w.db → open_rows id w' ≡ open_rows id w
db-open_rows id w w' e = ap (λ (db : Db). queued_of id db + unborn id db) e

module _ (wk : Worker) (j : Judge) (id : ℤ) where
  received-Passes :
      (ctx : Context) (r : Result ConsumeError Message) (w w' : World)
      → w'.db ≡ w.db
      → Passes id idle (on_received ctx r) w w'
  unfolding on_received
  received-Passes ctx r w w' e = record {
    rows = ground (arith, db-open_rows id w w' e);
    held = ground arith;
  }

  after_claim-Passes :
      (msg : Message) (r : Result DbError Bool) (env : Env) (w w' : World)
      → open_rows id w' + won_if (msg.job.submission_id == id) r ≤ open_rows id w
      → let (s, w₂) = after_claim wk j msg r env w' in Passes id (fetched msg) s w w₂
  unfolding after_claim ack nack send
  after_claim-Passes msg (err e) env w w' h = record {
    rows = ground (arith, h);
    held = omega arith;
  }
  after_claim-Passes msg (ok false) env w w' h = record {
    rows = ground (arith, h);
    held = omega arith;
  }
  after_claim-Passes msg (ok true) env w w' h = record {
    rows = ground (
      arith,
      h,
      db-open_rows id w' (publish wk (status_event msg.job.submission_id "running") env w').1
          (publish_db wk (status_event msg.job.submission_id "running") env w'),
    );
    held = omega arith;
  }

  mark_running-open_rows :
      (k : ℤ) (env : Env) (w : World)
      → open_rows id (mark_running k env w).1 + won_if (k == id) (mark_running k env w).0
        ≤ open_rows id w
  unfolding mark_running transact
  mark_running-open_rows k env w =
      (settle-Drains id (env.link w.calls) (k == id) (update_running k (env.now w.calls) w.db) w
        (claim-Drains id k (env.now w.calls) w.db)).queue

  -- Recording the end of a job leaves the rows that can be claimed as they are, or fewer.
  mark_failed-open_rows :
      (k : ℤ) (env : Env) (w : World) → open_rows id (mark_failed k env w).1 ≤ open_rows id w
  unfolding mark_failed transact
  mark_failed-open_rows k env w =
      let d =
        settle_quiet-Drains id (env.link w.calls) (update_failed k (env.now w.calls) w.db) w
          (failed-Drains id k (env.now w.calls) w.db) in
      omega (arith, d.queue)

  mark_done-open_rows :
      (k : ℤ) (v : String) (r m : ℤ) (env : Env) (w : World)
      → open_rows id (mark_done k v r m env w).1 ≤ open_rows id w
  unfolding mark_done transact
  mark_done-open_rows k v r m env w =
      let d =
        settle_quiet-Drains id (env.link w.calls) (update_done k v r m (env.now w.calls) w.db) w
          (done-Drains id k v r m (env.now w.calls) w.db) in
      omega (arith, d.queue)

  on_marked_db :
      (msg : Message) (rep : JudgeResult) (r : Result DbError Bool) (env : Env) (w : World)
      → (on_marked wk j msg rep r env w).1.db ≡ w.db
  unfolding on_marked ack nack send
  on_marked_db msg rep (err e) env w = refl
  on_marked_db msg rep (ok b) env w = publish_db wk (done_event msg.job.submission_id rep) env w

  on_judged-open_rows :
      (msg : Message) (rep : Result JudgeError JudgeResult) (env : Env) (w : World)
      → open_rows id (on_judged wk j msg rep env w).1 ≤ open_rows id w
  unfolding on_judged ack send
  on_judged-open_rows msg (err e) env w =
      let k = msg.job.submission_id in
      let w' = (mark_failed k env w).1 in
      let published =
        db-open_rows id w' (publish wk (status_event k "failed") env w').1
          (publish_db wk (status_event k "failed") env w') in
      omega (arith, mark_failed-open_rows k env w, published)
  on_judged-open_rows msg (ok rep) env w =
      let k = msg.job.submission_id in
      let r = mark_done k rep.verdict rep.runtime_ms rep.memory_kb env w in
      let told =
        db-open_rows id r.1 (on_marked wk j msg rep r.0 env r.1).1
          (on_marked_db msg rep r.0 env r.1) in
      omega (arith, mark_done-open_rows k rep.verdict rep.runtime_ms rep.memory_kb env w, told)

  -- Every stage of a consumer.
  pub advance-Passes :
      (name : List ℕ) (ctx : Context) (s : Stage) (env : Env) (w : World)
      → let (s', w') = advance wk j name ctx s env w in Passes id s s' w w'
  unfolding advance
  advance-Passes name ctx idle env w = elim (Bool-cases ctx.before) [
    | inl e ↦ rw e (record { rows = omega arith; held = omega arith })
    | inr e ↦ rw e (
        received-Passes ctx (consume name env w).0 w (consume name env w).1 (consume_db name env w))
  ]
  advance-Passes name ctx stopped env w = record { rows = omega arith; held = omega arith }
  advance-Passes name ctx (fetched msg) env w =
      after_claim-Passes msg (mark_running msg.job.submission_id env w).0 env w
        (mark_running msg.job.submission_id env w).1
        (mark_running-open_rows msg.job.submission_id env w)
  advance-Passes name ctx (judging msg) env w = record {
    rows = omega (arith, run-open_rows j id msg.job.submission_id env w);
    held = omega arith;
  }
  advance-Passes name ctx (judged msg rep) env w = record {
    rows = omega (arith, on_judged-open_rows msg rep env w);
    held = omega arith;
  }
