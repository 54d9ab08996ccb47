-- ===== src/Flow/Watched.antt =====
-- What the owner of a submission sees on the stream while a worker judges it: the worker's events,
-- the subscriber of internal/events/events.go, and the handler `Events`.
use mathlib.Core.List.{append_assoc}
use go_spoc.Prelude.{
  ℕ, ◌^◌, ◌<◌, ◌≡◌, refl, ap, ◌∙◌, Bool, true, ◌&&◌, List, [], ◌∷◌, ◌++◌, map, Option, none, some,
}
use go_spoc.Prelude.Eq.{◌==◌, list_eq, list_beq_iff, nat_eq}
use go_spoc.Prelude.Int.{ℤ, pos, int_eq, int_beq_iff}
use go_spoc.Strings.Decimal.{format_int}
use go_spoc.Result.{ok}
use go_spoc.Db.{query_row, fits_int4}
use go_spoc.Events.{Event}
use go_spoc.Events.Publisher.{channel}
use go_spoc.Events.Subscriber.{subscribe, forward}
use go_spoc.Events.Subscriber.Own.{deliveries}
use go_spoc.Http.{json}
use go_spoc.World.{Env, World, up, Command, xreadgroup, xack, publish}
use go_spoc.Submission.{Submission, queued}
use go_spoc.Submission.Claims.{IsKeyed}
use go_spoc.Submission.Repository.{find_by_id, mark_running, verdict_allowed}
use go_spoc.Submission.Handler.{load_owned, owned}
use go_spoc.Submission.Handler.Stream.{snapshot, Signal, update, write_event, follow, begin, stream}
use go_spoc.Queue.{Message}
use go_spoc.Judge.Languages.{Judge}
use go_spoc.Judge.Run.{JudgeResult}
use go_spoc.Judge.Run as Judging
use go_spoc.Judge.Verdicts.{run-Allowed}
use go_spoc.Worker.{Worker, status_event, done_event, process}
use go_spoc.Worker.Laws.{
  at_judging, announced, recorded, Course, claim_failed, not_claimed, judge_failed, not_recorded,
  was_recorded, process-Course,
}
use go_spoc.Worker.Finish.{Found, claimed, judged, marked}
use go_spoc.Flow.Stored.{posted-IsStored}
use go_spoc.Flow.Served.{parse_id-format_int}
use go_spoc.Flow.Scene.{
  Scene, GoesThrough, stored, taken, after_post, after_consume, after_process, consumed-IsStored,
  consumed_sent,
}

module _ (wk : Worker) (j : Judge) (msg : Message) (rep : JudgeResult) (env : Env) (w : World) where
  -- A verdict that was recorded has been announced.
  Course-announces :
      (b : Bool) {w' : World}
      → (mark_running msg.job.submission_id env w).0 ≡ ok true
      → (Judging.run j msg.job.submission_id env (at_judging wk j msg env w)).0 ≡ ok rep
      → recorded wk j msg env w rep ≡ ok b
      → Course wk j msg env w w'
      → w'.sent
        ≡ ((w.sent ++ announced wk (status_event msg.job.submission_id "running"))
            ++ announced wk (done_event msg.job.submission_id rep))
          ++ xack msg.id ∷ []
  Course-announces b c r m (claim_failed e c' sent) = cc
  Course-announces b c r m (not_claimed c' sent) = cc
  Course-announces b c r m (judge_failed e c' r' sent) = cc
  Course-announces b c r m (not_recorded rep' e c' r' m' sent) =
      let same : rep' ≡ rep = cc in cc (ap (recorded wk j msg env w) same)
  Course-announces b c r m (was_recorded rep' b' c' r' m' sent) =
      let same : rep' ≡ rep = cc in
      sent
      ∙ ap
          (λ x.
            ((w.sent ++ announced wk (status_event msg.job.submission_id "running"))
              ++ announced wk (done_event msg.job.submission_id x))
            ++ xack msg.id ∷ [])
          same

  -- A queued submission that is judged with a result is announced as running and as done.
  process_announces :
      (s : Submission)
      → ((n : ℕ) → env.link n ≡ up)
      → IsKeyed w.db
      → Found wk j msg env w s rep w s
      → s.status ≡ queued
      → (Judging.run j msg.job.submission_id env (at_judging wk j msg env w)).0 ≡ ok rep
      → (fits_int4 rep.runtime_ms && fits_int4 rep.memory_kb) ≡ true
      → (process wk j msg env w).1.sent
        ≡ ((w.sent ++ announced wk (status_event msg.job.submission_id "running"))
            ++ announced wk (done_event msg.job.submission_id rep))
          ++ xack msg.id ∷ []
  process_announces s l k f q r fits =
      let (c, f1) = claimed wk j msg env w s rep l k f q in
      let (t, f2, same) = judged wk j msg env w s rep f1 in
      let allowed : verdict_allowed rep.verdict ≡ true =
        rw r at (run-Allowed j msg.job.submission_id env (at_judging wk j msg env w)) in
      let (m, f3) =
        marked wk j msg env w s rep t l f2 (ap (λ (x : Submission). x.status) same) allowed fits in
      Course-announces _ c r m (process-Course wk j msg env w)

-- The stream of an open submission, over a run of signals.
stream-owner :
    (user_id : ℤ) (n : ℕ) (signals : List Signal) (env : Env) (u : World) (s : Submission)
    → 0 < n
    → n < 2 ^ 63
    → env.link u.calls ≡ up
    → query_row (λ r. r.id == pos n) u.db.submissions ≡ ok s
    → s.user_id ≡ user_id
    → s.status ≡ queued
    → (stream true (some user_id) (format_int (pos n)) signals env u).0
      ≡ json 200 (write_event (snapshot s) (follow signals))
unfolding stream begin load_owned find_by_id owned
stream-owner user_id n signals env u s h k l f o q = rw (parse_id-format_int n h k) (
    rw l (
      rw f (
        let mine : (s.user_id == user_id) ≡ true = (int_beq_iff s.user_id user_id).1 o in
        rw (mine, q) refl)))

in_a_row :
    {A : Type 0} (xs : List A) (p q r s : A)
    → (((xs ++ p ∷ []) ++ q ∷ []) ++ r ∷ []) ++ s ∷ [] ≡ xs ++ p ∷ q ∷ r ∷ s ∷ []
in_a_row xs p q r s = simp append_assoc

module _ (c : Scene) where
  -- The events, as the sender is to see them.
  abbrev pub queued_event : Event
  queued_event = record {
    submission_id = (stored c).id;
    status = "queued";
    verdict = none;
    runtime_ms = none;
    memory_kb = none;
  }

  abbrev pub running_event : Event
  running_event = record {
    submission_id = (stored c).id;
    status = "running";
    verdict = none;
    runtime_ms = none;
    memory_kb = none;
  }

  abbrev pub ended_event : Event
  ended_event = record {
    submission_id = (stored c).id;
    status = "done";
    verdict = some c.rep.verdict;
    runtime_ms = some c.rep.runtime_ms;
    memory_kb = some c.rep.memory_kb;
  }

  -- What is sent to Redis from the taking of the job on.
  abbrev pub news : List Command
  news =
      xreadgroup c.consumer
      ∷ publish (channel (stored c).id) running_event
      ∷ publish (channel (stored c).id) ended_event
      ∷ xack c.msg_id
      ∷ []

-- A subscriber to a submission reads the two events of a worker.
module _ (marshal : Event → List ℕ) (unmarshal : List ℕ → Option Event) where
  abbrev pub ReadBack : Event → Type 0
  ReadBack e = unmarshal (marshal e) ≡ some e

  subscribed :
      (id : ℤ) (name msg_id : List ℕ) (e f : Event)
      → ReadBack e
      → ReadBack f
      → subscribe unmarshal
          (deliveries marshal
            (xreadgroup name ∷ publish (channel id) e ∷ publish (channel id) f ∷ xack msg_id ∷ []))
          id
        ≡ e ∷ f ∷ []
  unfolding subscribe forward deliveries
  subscribed id name msg_id e f back back' =
      let same : (channel id == channel id) ≡ true =
        (list_beq_iff (channel id) (channel id)).1 refl in
      rw (same, back, back') refl

  module _ (c : Scene) where
    -- A user that opens the stream of the submission that was sent, before a worker takes it, sees
    -- it queued, then running, then done with the verdict, time and memory of the judge, and the
    -- handler returns there and waits for no more. This is for a worker with a publisher, whose commands Redis carries on to
    -- the subscription, and where the two events are read back from their payloads; else the
    -- conditions are those of `served`.
    pub watched :
        GoesThrough c
        → c.worker.has_publisher ≡ true
        → ReadBack (running_event c)
        → ReadBack (ended_event c)
        → ((after_process c).sent ≡ (after_post c).sent ++ (news c))
          × (stream true
              (some c.user_id)
              (format_int (stored c).id)
              (map update (subscribe unmarshal (deliveries marshal (news c)) (stored c).id))
              c.env
              (after_post c)).0
            ≡ json 200 (record {
              events = queued_event c ∷ running_event c ∷ ended_event c ∷ [];
              returned = true;
            })
    unfolding follow
    watched g hp back back' = (
      process_announces c.worker c.judge (taken c) c.rep c.env (after_consume c) (stored c) g.link
            (consumed-IsStored c g).keyed (consumed-IsStored c g).found refl g.judged g.fits
          ∙ rw (consumed_sent c g, hp) (in_a_row (after_post c).sent _ _ _ _),
      rw (subscribed (stored c).id c.consumer c.msg_id (running_event c) (ended_event c) back back')
          (stream-owner c.user_id c.start.db.next_submission
            (update (running_event c) ∷ update (ended_event c) ∷ []) c.env (after_post c) (stored c)
            g.low g.high (g.link (after_post c).calls)
            (posted-IsStored c.unicode_lower c.user_id c.body c.env c.start g.keyed
              g.accepted).found
            refl refl),
    )
