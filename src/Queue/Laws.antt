-- ===== src/Queue/Laws.antt =====
-- What goes into the stream comes out of it.
use go_spoc.Prelude.{ℕ, ◌≡◌, refl, String, List, [], ◌∷◌, some}
use go_spoc.Result.{ok}
use go_spoc.Strings.Decimal.RoundTrip.{InInt64, parse_int-format_int}
use go_spoc.World.{Env, World, RawMessage, Value, text, streams}
use go_spoc.Queue.{Job, job_fields, parse_submission_id, consume}

-- The fields of a message, as XREADGROUP gives them back: all are strings.
abbrev pub delivered : List (String × List ℕ) → List (String × Value)
delivered [] = []
delivered ((k, s) ∷ rest) = (k, text s) ∷ delivered rest

pub parse_submission_id-job_fields :
    (job : Job)
    → InInt64 job.submission_id
    → parse_submission_id (delivered (job_fields job)) ≡ some job.submission_id
unfolding parse_submission_id
parse_submission_id-job_fields job h = parse_int-format_int job.submission_id h

-- If XREADGROUP gives back the fields that a job was enqueued with, under some message id, then
-- `Consume` returns that job under that id.
pub consume-enqueued :
    (job : Job) (id consumer : List ℕ) (more : List RawMessage) (env : Env) (w : World)
    → InInt64 job.submission_id
    → env.read_group w.calls consumer
      ≡ streams ((record { id = id; values = delivered (job_fields job) } ∷ more) ∷ [])
    → (consume consumer env w).0 ≡ ok (record { id = id; job = job })
unfolding consume
consume-enqueued job id consumer more env w h e =
    rw e (rw (parse_submission_id-job_fields job h) refl)
