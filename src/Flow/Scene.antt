-- ===== src/Flow/Scene.antt =====
-- One submission and the worker that takes it.
use mathlib.Core.Path.{subst}
use go_spoc.Prelude.{
  ℕ, ◌^◌, ◌<◌, ◌≡◌, refl, sym, true, ◌&&◌, List, [], ◌∷◌, ◌++◌, arith, Option, none, some,
}
use go_spoc.Prelude.Int.{ℤ, int_eq}
use go_spoc.Result.{ok}
use go_spoc.Db.{fits_int4}
use go_spoc.World.{
  Env, World, RawMessage, ReadReply, nothing, broken, streams, up, send, read_messages, xreadgroup,
}
use go_spoc.Submission.{Submission}
use go_spoc.Submission.Claims.{IsKeyed}
use go_spoc.Submission.Handler.{CreateRequest}
use go_spoc.Queue.{Message, consume, job_fields, decode, received, parse_submission_id}
use go_spoc.Queue.Laws.{delivered, parse_submission_id-job_fields}
use go_spoc.Judge.Languages.{Judge}
use go_spoc.Judge.Run.{JudgeResult}
use go_spoc.Judge.Run as Judging
use go_spoc.Worker.{Worker, process}
use go_spoc.Worker.Laws.{at_judging}
use go_spoc.Flow.Stored.{Accepted, posted, row, IsStored, posted-IsStored}

-- Who sends what, which consumer is given the job under which message id, and what the judge
-- returns.
pub record Scene : Type 0 where
  pub unicode_lower : ℕ → ℕ
  pub user_id : ℤ
  pub body : CreateRequest
  pub worker : Worker
  pub judge : Judge
  pub consumer : List ℕ
  pub msg_id : List ℕ
  pub more : List RawMessage
  pub rep : JudgeResult
  pub env : Env
  pub start : World

module _ (c : Scene) where
  abbrev pub stored : Submission
  stored = row c.unicode_lower c.user_id c.body c.env c.start

  abbrev pub after_post : World
  after_post = (posted c.unicode_lower c.user_id c.body c.env c.start).1

  -- What XREADGROUP gives for the job.
  abbrev pub arrived : RawMessage
  arrived = record {
    id = c.msg_id;
    values = delivered (job_fields (record { submission_id = stored.id }));
  }

  abbrev pub taken : Message
  taken = record { id = c.msg_id; job = record { submission_id = stored.id } }

  abbrev pub after_consume : World
  after_consume = (consume c.consumer c.env after_post).1

  abbrev pub after_process : World
  after_process = (process c.worker c.judge taken c.env after_consume).1

-- The statements go through, the keys are distinct, positive and below 2 ^ 63, the request is
-- accepted, the consumer is given its job, and the judge returns a result whose numbers fit
-- INTEGER.
pub record GoesThrough (c : Scene) : Type 0 where
  pub link : (n : ℕ) → c.env.link n ≡ up
  pub keyed : IsKeyed c.start.db
  pub low : 0 < c.start.db.next_submission
  pub high : c.start.db.next_submission < 2 ^ 63
  pub accepted : Accepted (posted c.unicode_lower c.user_id c.body c.env c.start).0
  pub reply : c.env.read_group (after_post c).calls c.consumer ≡ streams ((arrived c ∷ c.more) ∷ [])
  pub judged :
      (Judging.run c.judge
        (stored c).id
        c.env
        (at_judging c.worker c.judge (taken c) c.env (after_consume c))).0
      ≡ ok c.rep
  pub fits : (fits_int4 c.rep.runtime_ms && fits_int4 c.rep.memory_kb) ≡ true

-- To receive a message changes no table.
decode_db :
    (raw : RawMessage) (o : Option ℤ) (env : Env) (u : World) → (decode raw o env u).1.db ≡ u.db
unfolding decode send
decode_db raw none env u = refl
decode_db raw (some id) env u = refl

received_db : (reply : ReadReply) (env : Env) (u : World) → (received reply env u).1.db ≡ u.db
unfolding received
received_db nothing env u = refl
received_db broken env u = refl
received_db (streams []) env u = refl
received_db (streams ([] ∷ _)) env u = refl
received_db (streams ((raw ∷ _) ∷ _)) env u = decode_db raw (parse_submission_id raw.values) env u

consume_db : (name : List ℕ) (env : Env) (u : World) → (consume name env u).1.db ≡ u.db
unfolding consume read_messages
consume_db name env u = received_db (env.read_group u.calls name) env _

-- The worker finds the submission as the handler stored it.
pub consumed-IsStored :
    (c : Scene)
    → GoesThrough c
    → IsStored c.unicode_lower c.user_id c.body c.env c.start (after_consume c)
consumed-IsStored c g =
    let s = posted-IsStored c.unicode_lower c.user_id c.body c.env c.start g.keyed g.accepted in
    let db = consume_db c.consumer c.env (after_post c) in
    record { keyed = subst IsKeyed (sym db) s.keyed; found = rw db s.found }

-- The worker has asked for a message, and nothing else was sent.
pub consumed_sent :
    (c : Scene)
    → GoesThrough c
    → (after_consume c).sent ≡ (after_post c).sent ++ xreadgroup c.consumer ∷ []
unfolding consume read_messages received decode
consumed_sent c g =
    let read =
      parse_submission_id-job_fields (record { submission_id = (stored c).id })
        (g.high, omega arith) in
    rw g.reply (rw read refl)
