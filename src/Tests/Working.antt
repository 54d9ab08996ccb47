-- ===== src/Tests/Working.antt =====
-- The queue, the worker and the sweep.
use go_spoc.Prelude.{◌≡◌, refl, [], ◌∷◌, some, codes, arith}
use go_spoc.Prelude.Int.{pos, negsuc, int_eq}
use go_spoc.Prelude.Eq.{◌==◌}
use go_spoc.Result.{ok}
use go_spoc.Strings.Decimal.{format_int, parse_int}
use go_spoc.Strings.Decimal.RoundTrip.{parse_int-format_int}
use go_spoc.Db.{query_row, affected, update_where, select}
use go_spoc.Db.Order.{order_by}
use go_spoc.Submission.{Submission}
use go_spoc.Submission.Repository as Submissions
use go_spoc.Submission.Repository.{set_done}
use go_spoc.Submission.Lifecycle.{judged_part}
use go_spoc.World.{Env, RawMessage, streams, send}
use go_spoc.Judge.Languages as Languages
use go_spoc.Judge.Run.{JudgeResult}
use go_spoc.Queue.{job_fields, consume}
use go_spoc.Queue.Laws.{delivered, consume-enqueued}
use go_spoc.Worker.{process}
use go_spoc.Worker.Laws.{Course, process-Course, at_judging, at_verdict}
use go_spoc.Worker.Finish.{process_finishes}
use go_spoc.Tests.Fixtures.{start, calm, waiting, hand, judge, message, tables-IsKeyed}
use go_spoc.Judge.Run as Judging
use go_spoc.Tests.Judging.{judging}

negative_reads_back : parse_int (format_int (negsuc 41)) ≡ some (negsuc 41)
negative_reads_back = parse_int-format_int (negsuc 41) (omega arith)

abbrev arrived : RawMessage
arrived = record {
  id = codes "0-1";
  values = delivered (job_fields (record { submission_id = pos 1 }));
}

abbrev one_message : Env
one_message = record calm { read_group = λ n consumer. streams ((arrived ∷ []) ∷ []) }

consume-enqueued_example : (consume (codes "w-0") one_message start).0 ≡ ok message
consume-enqueued_example =
    consume-enqueued (record { submission_id = pos 1 }) (codes "0-1") (codes "w-0") [] one_message
      start (omega arith) refl

process-Course_example :
    Course hand judge message calm start (process hand judge message calm start).1
process-Course_example = process-Course hand judge message calm start

abbrev wrong : JudgeResult
wrong = record { verdict = "WA"; runtime_ms = pos 7; memory_kb = pos 900 }

whole : Unit {0}
unfolding judging Judging.run query_row Languages.new order_by select process at_judging at_verdict
    Submissions.mark_running affected update_where send
whole = tt

process_finishes_example :
    (t : Submission) × (query_row
        (λ r. r.id == pos 1)
        (process hand judge message calm start).1.db.submissions
      ≡ ok t)
    × (judged_part t
        ≡ set_done "WA"
            (pos 7)
            (pos 900)
            (calm.now (at_verdict hand judge message calm start).calls)
            (judged_part waiting))
unfolding whole
process_finishes_example =
    process_finishes hand judge message calm start waiting wrong (λ n. refl) tables-IsKeyed refl
      refl refl refl
