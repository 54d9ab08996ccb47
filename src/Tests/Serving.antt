-- ===== src/Tests/Serving.antt =====
-- The HTTP handlers.
use go_spoc.Prelude.{◌≡◌, refl, [], ◌∷◌, true, some, codes}
use go_spoc.Prelude.Int.{pos}
use go_spoc.Db.{query_row, exists}
use go_spoc.Strings.{trim_space, trim_left, trim_right, is_space}
use go_spoc.Strings.Decimal.{parse_int, digits_value, format_int, format_nat, digits_from}
use go_spoc.Strings.Case.{to_lower}
use go_spoc.Strings.Utf8.{utf8}
use go_spoc.Prelude.Eq.{list_beq}
use go_spoc.World.{transact, send, xadd}
use go_spoc.Events.{Event}
use go_spoc.Submission.{Submission}
use go_spoc.Submission.Repository.{find_by_id, insert_submission}
use go_spoc.Submission.Repository as Submissions
use go_spoc.Submission.Handler.{
  CreateRequest, to_response, create, get_by_id, load_owned, parse_id, owned, clean, refusal,
  submit, on_created,
}
use go_spoc.Submission.Handler.Stream.{cancelled, update, snapshot, stream, begin, follow}
use go_spoc.Submission.Handler.Laws.{Course, create-Course}
use go_spoc.Submission.Handler.Owner.{Shown, Written, updates, get_by_id-Shown, stream-Written}
use go_spoc.Tests.Fixtures.{start, calm, waiting, tables}
use go_spoc.Queue.{enqueue}

abbrev request : CreateRequest
request = record { problem_id = pos 1; language = codes " Python"; source = codes "print(4)" }

create-Course_example :
    Course
      (λ c. c)
      (pos 1)
      request
      calm
      start
      (create (λ c. c) (some (pos 1)) (some request) calm start)
create-Course_example = create-Course (λ c. c) (pos 1) request calm start

-- The language is cleaned, and the new id is enqueued.
create_enqueues :
    (create (λ c. c) (some (pos 1)) (some request) calm start).1.sent
    ≡ xadd (("submission_id", codes "2") ∷ []) ∷ []
unfolding create clean refusal submit on_created Submissions.create insert_submission transact send
    enqueue to_lower trim_space trim_left trim_right is_space list_beq utf8 exists format_int
    format_nat digits_from
create_enqueues = refl

get_by_id-Shown_example :
    (s : Submission) × Shown (some (pos 1)) (codes "1") tables s
    × (to_response waiting ≡ to_response s)
unfolding get_by_id load_owned parse_id parse_int digits_value find_by_id transact query_row owned
get_by_id-Shown_example = get_by_id-Shown (some (pos 1)) (codes "1") calm start refl

abbrev told : Event
told = record {
  submission_id = pos 1;
  status = "done";
  verdict = some "AC";
  runtime_ms = some (pos 7);
  memory_kb = some (pos 900);
}

-- What comes behind the first terminal event is not written.
stream-Written_example :
    (s : Submission) × Shown (some (pos 1)) (codes "1") tables s
    × Written
        (snapshot s ∷ updates (update told ∷ update told ∷ cancelled ∷ []))
        (snapshot waiting ∷ told ∷ [])
unfolding stream begin load_owned parse_id parse_int digits_value find_by_id transact query_row
    owned follow
stream-Written_example =
    stream-Written true (some (pos 1)) (codes "1") (update told ∷ update told ∷ cancelled ∷ []) calm
      start refl
