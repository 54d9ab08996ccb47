-- ===== src/Worker/Laws.antt =====
-- What a worker sends for one message.
use mathlib.Core.List.{append-nil}
use go_spoc.Prelude.{
  String, ◌≡◌, refl, sym, ap, ◌∙◌, Bool, true, false, List, [], ◌∷◌, ◌++◌, if◌then◌else◌,
  Bool-cases, inl, inr,
}
use go_spoc.Prelude.Int.{ℤ}
use go_spoc.Result.{Result, ok, err, Result-cases}
use go_spoc.Db.{Db, DbError}
use go_spoc.Events.{Event}
use go_spoc.Events.Publisher.{channel}
use go_spoc.World.{Env, World, Act, Link, up, refused, lost, settle, Command, xack, send}
use go_spoc.World as Outside
use go_spoc.Submission.Repository.{mark_running, mark_done, mark_failed}
use go_spoc.Judge.Languages.{Judge}
use go_spoc.Judge.Run.{JudgeResult, JudgeError}
use go_spoc.Judge.Run as Judging
use go_spoc.Judge.Frame.{run-Frame}
use go_spoc.Queue.{Message, ack, nack}
use go_spoc.Worker.{
  Worker, publish, status_event, done_event, on_marked, on_judged, on_claim, process,
}

-- The command that publishes an event, if there is a publisher.
abbrev pub announced : Worker → Event → List Command
announced wk e = if wk.has_publisher then Outside.publish (channel e.submission_id) e ∷ [] else []

pub publish_sent :
    (wk : Worker) (e : Event) (env : Env) (w : World)
    → (publish wk e env w).1.sent ≡ w.sent ++ announced wk e
unfolding publish send
publish_sent wk e env w = elim (Bool-cases wk.has_publisher) [
  | inl h ↦ rw h refl
  | inr h ↦ rw h (sym (append-nil w.sent))
]

pub publish_db :
    (wk : Worker) (e : Event) (env : Env) (w : World) → (publish wk e env w).1.db ≡ w.db
unfolding publish send
publish_db wk e env w = elim (Bool-cases wk.has_publisher) [ inl h ↦ rw h refl | inr h ↦ rw h refl ]

settle_sent :
    {A : Type 0} (l : Link) (r : Result DbError A × Db) (w : World) → (settle l r w).1.sent ≡ w.sent
settle_sent up r w = refl
settle_sent refused r w = refl
settle_sent lost r w = refl

mark_running_sent : (id : ℤ) (env : Env) (w : World) → (mark_running id env w).1.sent ≡ w.sent
unfolding mark_running
mark_running_sent id env w = settle_sent (env.link w.calls) _ w

mark_failed_sent : (id : ℤ) (env : Env) (w : World) → (mark_failed id env w).1.sent ≡ w.sent
unfolding mark_failed
mark_failed_sent id env w = settle_sent (env.link w.calls) _ w

mark_done_sent :
    (id : ℤ) (v : String) (r m : ℤ) (env : Env) (w : World)
    → (mark_done id v r m env w).1.sent ≡ w.sent
unfolding mark_done
mark_done_sent id v r m env w = settle_sent (env.link w.calls) _ w

module _ (wk : Worker) (j : Judge) (msg : Message) (env : Env) (w : World) where
  abbrev id : ℤ
  id = msg.job.submission_id

  -- The states in which the worker judges, and in which it writes the verdict down.
  unfoldable pub at_judging : World
  at_judging = (publish wk (status_event id "running") env (mark_running id env w).1).1

  unfoldable pub at_verdict : World
  at_verdict = (Judging.run j id env at_judging).1

  abbrev pub recorded : JudgeResult → Result DbError Bool
  recorded rep = (mark_done id rep.verdict rep.runtime_ms rep.memory_kb env at_verdict).0

  abbrev pub acked : List Command
  acked = xack msg.id ∷ []

  -- The five courses that the work on a message can take, with what is sent to Redis in each.
  pub data Course (w' : World) : Type 0 where
    claim_failed : (e : DbError) → (mark_running id env w).0 ≡ err e → w'.sent ≡ w.sent → Course w'
    not_claimed : (mark_running id env w).0 ≡ ok false → w'.sent ≡ w.sent ++ acked → Course w'
    judge_failed :
        (e : JudgeError)
        → (mark_running id env w).0 ≡ ok true
        → (Judging.run j id env at_judging).0 ≡ err e
        → w'.sent
          ≡ ((w.sent ++ announced wk (status_event id "running"))
              ++ announced wk (status_event id "failed"))
            ++ acked
        → Course w'
    not_recorded :
        (rep : JudgeResult) (e : DbError)
        → (mark_running id env w).0 ≡ ok true
        → (Judging.run j id env at_judging).0 ≡ ok rep
        → recorded rep ≡ err e
        → w'.sent ≡ w.sent ++ announced wk (status_event id "running")
        → Course w'
    was_recorded :
        (rep : JudgeResult) (b : Bool)
        → (mark_running id env w).0 ≡ ok true
        → (Judging.run j id env at_judging).0 ≡ ok rep
        → recorded rep ≡ ok b
        → w'.sent
          ≡ ((w.sent ++ announced wk (status_event id "running"))
              ++ announced wk (done_event id rep))
            ++ acked
        → Course w'

  judging_sent : at_verdict.sent ≡ w.sent ++ announced wk (status_event id "running")
  unfolding at_verdict at_judging
  judging_sent =
      (run-Frame j id env at_judging).sent
      ∙ publish_sent wk (status_event id "running") env (mark_running id env w).1
      ∙ ap (λ l. l ++ announced wk (status_event id "running")) (mark_running_sent id env w)

  ack_sent : (u : World) → (ack msg env u).1.sent ≡ u.sent ++ acked
  unfolding ack
  ack_sent u = refl

  -- The state in which a recorded verdict is announced.
  at_record : JudgeResult → World
  at_record rep = (mark_done id rep.verdict rep.runtime_ms rep.memory_kb env at_verdict).1

  abbrev announce_running : List Command
  announce_running = announced wk (status_event id "running")

  failed_sent :
      (e : JudgeError)
      → (on_judged wk j msg (err e) env at_verdict).1.sent
        ≡ ((w.sent ++ announce_running) ++ announced wk (status_event id "failed")) ++ acked
  unfolding on_judged ack
  failed_sent e =
      ap (λ l. l ++ acked)
        (publish_sent wk (status_event id "failed") env (mark_failed id env at_verdict).1
          ∙ ap (λ l. l ++ announced wk (status_event id "failed"))
              (mark_failed_sent id env at_verdict ∙ judging_sent))

  recorded_sent :
      (rep : JudgeResult) (b : Bool)
      → (on_marked wk j msg rep (ok b) env (at_record rep)).1.sent
        ≡ ((w.sent ++ announce_running) ++ announced wk (done_event id rep)) ++ acked
  unfolding on_marked ack at_record
  recorded_sent rep b =
      ap (λ l. l ++ acked)
        (publish_sent wk (done_event id rep) env (at_record rep)
          ∙ ap (λ l. l ++ announced wk (done_event id rep))
              (mark_done_sent id rep.verdict rep.runtime_ms rep.memory_kb env at_verdict
                ∙ judging_sent))

  unrecorded_sent :
      (rep : JudgeResult) (e : DbError)
      → (on_marked wk j msg rep (err e) env (at_record rep)).1.sent ≡ w.sent ++ announce_running
  unfolding on_marked nack at_record
  unrecorded_sent rep e =
      mark_done_sent id rep.verdict rep.runtime_ms rep.memory_kb env at_verdict ∙ judging_sent

  judged_Course :
      (rep : JudgeResult)
      → (mark_running id env w).0 ≡ ok true
      → (Judging.run j id env at_judging).0 ≡ ok rep
      → Course (on_judged wk j msg (ok rep) env at_verdict).1
  unfolding on_judged at_record
  judged_Course rep c r = elim (Result-cases (recorded rep)) [
    | inl (b, m) ↦ was_recorded rep b c r m (rw m (recorded_sent rep b))
    | inr (e, m) ↦ not_recorded rep e c r m (rw m (unrecorded_sent rep e))
  ]

  claimed_Course :
      (mark_running id env w).0 ≡ ok true
      → Course (on_claim wk j msg (ok true) env (mark_running id env w).1).1
  unfolding on_claim at_judging at_verdict
  claimed_Course c = elim (Result-cases (Judging.run j id env at_judging).0) [
    | inl (rep, r) ↦ rw r (judged_Course rep c r)
    | inr (e, r) ↦ judge_failed e c r (rw r (failed_sent e))
  ]

  -- The work on a message takes one of the five courses, and sends to Redis what that course says:
  -- the message is acknowledged unless the claim or the recording of the verdict reports an error;
  -- "running" is published exactly after a claim, and "failed" or "done" after the judging failed
  -- or its verdict was recorded.
  pub process-Course : Course (process wk j msg env w).1
  unfolding process nack ack
  process-Course = elim (Result-cases (mark_running id env w).0) [
    | inr (e, c) ↦ claim_failed e c (rw c (mark_running_sent id env w))
    | inl (true, c) ↦ rw c (claimed_Course c)
    | inl (false, c) ↦ not_claimed c (rw c (ap (λ l. l ++ acked) (mark_running_sent id env w)))
  ]
