-- ===== src/Tests/Flowing.antt =====
-- One submission from its request to its verdict.
use go_spoc.Prelude.{
  ℕ, ◌≡◌, refl, List, [], ◌∷◌, ◌++◌, Option, some, codes, arith, if◌then◌else◌, map,
}
use go_spoc.Prelude.Eq.{◌==◌, list_eq, list_beq, nat_eq}
use go_spoc.Prelude.Int.{pos}
use go_spoc.Strings.Decimal.{format_int}
use go_spoc.Result.{ok}
use go_spoc.Db.{query_row, select, affected, update_where}
use go_spoc.Db.Order.{order_by}
use go_spoc.Prelude.{true}
use go_spoc.Http.{json}
use go_spoc.Events.{Event}
use go_spoc.Events.Subscriber.{subscribe}
use go_spoc.Events.Subscriber.Own.{deliveries}
use go_spoc.World.{Env, RawMessage, streams, send}
use go_spoc.Submission.Repository as Submissions
use go_spoc.Submission.Handler.{CreateRequest, SubmissionResponse, create, get_by_id}
use go_spoc.Submission.Handler.Stream.{update, stream}
use go_spoc.Queue.{consume, job_fields}
use go_spoc.Queue.Laws.{delivered}
use go_spoc.Judge.Languages as Languages
use go_spoc.Judge.Run as Judging
use go_spoc.Worker.{process}
use go_spoc.Worker.Laws.{at_judging}
use go_spoc.Flow.Scene.{Scene, GoesThrough, stored, taken, after_post, after_process}
use go_spoc.Flow.Served.{IsJudged, served}
use go_spoc.Flow.Watched.{watched, queued_event, running_event, ended_event, news}
use go_spoc.Strings.Utf8.{utf8}
use go_spoc.Strings.Decimal.{parse_int}
use go_spoc.Queue.{parse_submission_id}
use go_spoc.Tests.Judging.{judging}
use go_spoc.Tests.Fixtures.{start, calm, judge, hand, tables-IsKeyed}

abbrev job_two : RawMessage
job_two = record {
  id = codes "0-2";
  values = delivered (job_fields (record { submission_id = pos 2 }));
}

abbrev busy : Env
busy = record calm { read_group = λ n consumer. streams ((job_two ∷ []) ∷ []) }

abbrev request : CreateRequest
request = record { problem_id = pos 1; language = codes "Python "; source = codes "print(3)" }

abbrev scene : Scene
scene = record {
  unicode_lower = λ c. c;
  user_id = pos 1;
  body = request;
  worker = hand;
  judge = judge;
  consumer = codes "w-0";
  msg_id = codes "0-2";
  more = [];
  rep = record { verdict = "WA"; runtime_ms = pos 7; memory_kb = pos 900 };
  env = busy;
  start = start;
}

scene-GoesThrough : GoesThrough scene
unfolding judging Judging.run query_row Languages.new Languages.language order_by select process
    at_judging Submissions.mark_running affected update_where send create consume utf8
    parse_submission_id parse_int format_int
scene-GoesThrough = record {
  link = λ n. refl;
  keyed = tables-IsKeyed;
  low = omega arith;
  high = omega arith;
  accepted = tt;
  reply = refl;
  judged = refl;
  fits = refl;
}

served_example :
    (consume (codes "w-0") busy (after_post scene)).0 ≡ ok (taken scene)
    × (resp : SubmissionResponse) × (get_by_id
          (some (pos 1))
          (format_int (pos 2))
          busy
          (after_process scene)).0
        ≡ json 200 resp
    × IsJudged (stored scene) scene.rep resp
served_example = served scene scene-GoesThrough

-- A form that tells the two events apart.
abbrev marshal : Event → List ℕ
marshal e = codes e.status

abbrev unmarshal : List ℕ → Option Event
unmarshal p = if p == codes "running" then some (running_event scene) else some (ended_event scene)

watched_example :
    ((after_process scene).sent ≡ (after_post scene).sent ++ news scene)
    × (stream true
        (some (pos 1))
        (format_int (pos 2))
        (map update (subscribe unmarshal (deliveries marshal (news scene)) (pos 2)))
        busy
        (after_post scene)).0
      ≡ json 200 (record {
        events = queued_event scene ∷ running_event scene ∷ ended_event scene ∷ [];
        returned = true;
      })
unfolding list_beq
watched_example = watched marshal unmarshal scene scene-GoesThrough refl refl refl
