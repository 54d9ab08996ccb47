-- ===== src/Flow/Served.antt =====
-- From the request to the verdict that its sender is shown: the handler of
-- internal/submission/handler.go, the queue, the worker's `process`, and the handler again.
use go_spoc.Prelude.{ℕ, ◌^◌, ◌<◌, ◌≡◌, refl, ap, some, arith}
use go_spoc.Prelude.Eq.{◌==◌}
use go_spoc.Prelude.Int.{ℤ, pos, int_eq, int_beq_iff}
use go_spoc.Strings.Decimal.{format_int}
use go_spoc.Strings.Decimal.RoundTrip.{parse_int-format_int}
use go_spoc.Result.{ok}
use go_spoc.Db.{query_row}
use go_spoc.Http.{json}
use go_spoc.World.{Env, World, up}
use go_spoc.Submission.{Submission}
use go_spoc.Submission.Lifecycle.{judged_part}
use go_spoc.Submission.Repository.{find_by_id, set_done}
use go_spoc.Submission.Handler.{
  SubmissionResponse, to_response, load_owned, owned, parse_id, get_by_id,
}
use go_spoc.Queue.{consume}
use go_spoc.Queue.Laws.{consume-enqueued}
use go_spoc.Judge.Run.{JudgeResult}
use go_spoc.Worker.Finish.{process_finishes}
use go_spoc.Flow.Scene.{
  Scene, GoesThrough, stored, taken, after_post, after_consume, after_process, consumed-IsStored,
}

-- What a user is shown of a submission that was judged.
pub record IsJudged (s : Submission) (rep : JudgeResult) (resp : SubmissionResponse) : Type 0 where
  pub id : resp.id ≡ s.id
  pub user_id : resp.user_id ≡ s.user_id
  pub problem_id : resp.problem_id ≡ s.problem_id
  pub language : resp.language ≡ s.language
  pub source : resp.source ≡ s.source
  pub status : resp.status ≡ "done"
  pub verdict : resp.verdict ≡ some rep.verdict
  pub runtime_ms : resp.runtime_ms ≡ some rep.runtime_ms
  pub memory_kb : resp.memory_kb ≡ some rep.memory_kb

written-IsJudged :
    (s t : Submission) (rep : JudgeResult) (now : ℕ)
    → judged_part t ≡ set_done rep.verdict rep.runtime_ms rep.memory_kb now (judged_part s)
    → IsJudged s rep (to_response t)
written-IsJudged s t rep now e = record {
  id = ap (λ (r : Submission). r.id) e;
  user_id = ap (λ (r : Submission). r.user_id) e;
  problem_id = ap (λ (r : Submission). r.problem_id) e;
  language = ap (λ (r : Submission). r.language) e;
  source = ap (λ (r : Submission). r.source) e;
  status = ap (λ (r : Submission). (to_response r).status) e;
  verdict = ap (λ (r : Submission). r.verdict) e;
  runtime_ms = ap (λ (r : Submission). r.runtime_ms) e;
  memory_kb = ap (λ (r : Submission). r.memory_kb) e;
}

-- A positive key is read back from the path.
pub parse_id-format_int :
    (n : ℕ) → 0 < n → n < 2 ^ 63 → parse_id (format_int (pos n)) ≡ some (pos n)
unfolding parse_id
parse_id-format_int n h k = rw (parse_int-format_int (pos n) (k, omega arith)) (ground (arith, h))

-- The owner is shown the row, if the query goes through.
get_by_id-owner :
    (user_id : ℤ) (n : ℕ) (env : Env) (u : World) (s : Submission)
    → 0 < n
    → n < 2 ^ 63
    → env.link u.calls ≡ up
    → query_row (λ r. r.id == pos n) u.db.submissions ≡ ok s
    → s.user_id ≡ user_id
    → (get_by_id (some user_id) (format_int (pos n)) env u).0 ≡ json 200 (to_response s)
unfolding get_by_id load_owned find_by_id owned
get_by_id-owner user_id n env u s h k l f o =
    rw (parse_id-format_int n h k) (rw l (rw f (ground (arith, int_beq_iff s.user_id user_id, o))))

-- A user whose request was accepted is shown the judge's verdict, time and memory for the submission
-- that was sent, once a worker was given its job and has judged it with a result. The keys are taken
-- to be distinct, positive and below 2 ^ 63, the statements to go through, the judge to return the
-- result, and its two numbers to fit INTEGER; Redis may refuse every command.
pub served :
    (c : Scene)
    → GoesThrough c
    → (consume c.consumer c.env (after_post c)).0 ≡ ok (taken c)
      × (resp : SubmissionResponse) × (get_by_id
            (some c.user_id)
            (format_int (stored c).id)
            c.env
            (after_process c)).0
          ≡ json 200 resp
      × IsJudged (stored c) c.rep resp
served c g =
    let (t, found, same) =
      process_finishes c.worker c.judge (taken c) c.env (after_consume c) (stored c) c.rep g.link
        (consumed-IsStored c g).keyed (consumed-IsStored c g).found refl g.judged g.fits in
    let mine : t.user_id ≡ c.user_id = ap (λ (r : Submission). r.user_id) same in
    (
      consume-enqueued (record { submission_id = (stored c).id }) c.msg_id c.consumer c.more c.env
          (after_post c) (g.high, omega arith) g.reply,
      to_response t,
      get_by_id-owner c.user_id c.start.db.next_submission c.env (after_process c) t g.low g.high
          (g.link (after_process c).calls) found mine,
      written-IsJudged (stored c) t c.rep _ same,
    )
