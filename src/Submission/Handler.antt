-- ===== src/Submission/Handler.antt =====
-- internal/submission/handler.go: the handlers that answer with one JSON value.
pub mod Stream
pub mod Laws
pub mod Owner
use go_spoc.Prelude.{
  ℕ, String, Bool, ◌||◌, not, List, [], map, Option, none, some, codes, is_empty, if◌then◌else◌,
  length, ltb,
}
use go_spoc.Prelude.Eq.{◌==◌, nat_eq, list_eq}
use go_spoc.Prelude.Int.{ℤ, pos, ltb_ℤ, int_eq}
use go_spoc.Result.{Result, ok, err}
use go_spoc.Strings.{trim_space}
use go_spoc.Strings.Case.{to_lower}
use go_spoc.Strings.Decimal.{parse_int}
use go_spoc.Strings.Utf8.{utf8}
use go_spoc.Db.{DbError, no_rows}
use go_spoc.Http.{Reply, error, json, panic}
use go_spoc.World.{Act, pure, ◌>>=◌, ◌>>◌}
use go_spoc.Submission.{Submission, status_text}
use go_spoc.Submission.Repository as Submissions
use go_spoc.Queue as Queue

abbrev pub max_source_bytes : ℕ
max_source_bytes = 65536

pub record CreateRequest : Type 0 where
  pub problem_id : ℤ
  pub language : List ℕ
  pub source : List ℕ

pub record SubmissionResponse : Type 0 where
  pub id : ℤ
  pub user_id : ℤ
  pub problem_id : ℤ
  pub language : List ℕ
  pub source : List ℕ
  pub status : String
  pub verdict : Option String
  pub runtime_ms : Option ℤ
  pub memory_kb : Option ℤ
  pub compile_error : Option (List ℕ)
  pub created_at : ℕ
  pub updated_at : ℕ

abbrev pub to_response : Submission → SubmissionResponse
to_response s = record {
  id = s.id;
  user_id = s.user_id;
  problem_id = s.problem_id;
  language = s.language;
  source = s.source;
  status = status_text s.status;
  verdict = s.verdict;
  runtime_ms = s.runtime_ms;
  memory_kb = s.memory_kb;
  compile_error = s.compile_error;
  created_at = s.created_at;
  updated_at = s.updated_at;
}

abbrev pub allowed_language : List ℕ → Bool
allowed_language language = language == codes "python" || language == codes "go"

-- `req.Language = strings.TrimSpace(strings.ToLower(req.Language))`
unfoldable pub clean : (ℕ → ℕ) → CreateRequest → CreateRequest
unfolding to_lower trim_space
clean unicode_lower req = record req { language = trim_space (to_lower unicode_lower req.language) }

-- The guards of `Create`, in their order; none lets the request pass.
unfoldable pub refusal : CreateRequest → Option (List ℕ)
refusal req =
    if not (ltb_ℤ (pos 0) req.problem_id)
    then some (codes "problem_id is required")
    else if not (allowed_language req.language)
    then some (codes "language is not supported")
    else if is_empty req.source
    then some (codes "source is required")
    else if ltb max_source_bytes (length (utf8 req.source))
    then some (codes "source is too large")
    else none

-- Behind the INSERT: an Enqueue that fails is logged.
unfoldable pub on_created : Result DbError Submission → Act (Reply SubmissionResponse)
unfolding Queue.enqueue
on_created (err e) = pure (error 500 (codes "failed to create submission"))
on_created (ok s) =
    Queue.enqueue (record { submission_id = s.id }) >> pure (json 202 (to_response s))

unfoldable pub submit : ℤ → CreateRequest → Option (List ℕ) → Act (Reply SubmissionResponse)
unfolding on_created Submissions.create
submit user_id req (some text) = pure (error 400 text)
submit user_id req none = do
  created ← Submissions.create user_id req.problem_id req.language req.source
  on_created created

unfoldable pub create : (ℕ → ℕ) → Option ℤ → Option CreateRequest → Act (Reply SubmissionResponse)
unfolding submit clean refusal
create unicode_lower none body = pure (error 401 (codes "unauthorized"))
create unicode_lower (some user_id) none = pure (error 400 (codes "invalid json body"))
create unicode_lower (some user_id) (some body) =
    let req = clean unicode_lower body in submit user_id req (refusal req)

-- `id, err := strconv.ParseInt(…); err != nil || id <= 0`; none if refused.
abbrev positive : Option ℤ → Option ℤ
positive none = none
positive (some id) = if ltb_ℤ (pos 0) id then some id else none

unfoldable pub parse_id : List ℕ → Option ℤ
unfolding parse_int
parse_id text = positive (parse_int text)

-- What `FindByID` gave, shown to its owner only; `Events` begins with the same checks.
unfoldable pub owned : ℤ → Result DbError Submission → Reply Submission
owned user_id (err no_rows) = error 404 (codes "submission not found")
owned user_id (err _) = error 500 (codes "failed to get submission")
owned user_id (ok s) =
    if not (s.user_id == user_id) then error 403 (codes "forbidden") else json 200 s

abbrev pub map_reply : {A B : Type 0} → (A → B) → Reply A → Reply B
map_reply f (error status text) = error status text
map_reply f (json status a) = json status (f a)
map_reply f (panic value) = panic value

unfoldable pub load_owned : ℤ → Option ℤ → Act (Reply Submission)
unfolding owned Submissions.find_by_id
load_owned user_id none = pure (error 400 (codes "invalid submission id"))
load_owned user_id (some id) = do found ← Submissions.find_by_id id; pure (owned user_id found)

unfoldable pub get_by_id : Option ℤ → List ℕ → Act (Reply SubmissionResponse)
unfolding load_owned parse_id
get_by_id none path_id = pure (error 401 (codes "unauthorized"))
get_by_id (some user_id) path_id = do
  reply ← load_owned user_id (parse_id path_id)
  pure (map_reply to_response reply)

abbrev listed : Result DbError (List Submission) → Reply (List SubmissionResponse)
listed (err e) = error 500 (codes "failed to list submissions")
listed (ok ss) = json 200 (map to_response ss)

abbrev list_problem : ℤ → Option ℤ → Act (Reply (List SubmissionResponse))
list_problem user_id none = pure (error 400 (codes "invalid problem_id"))
list_problem user_id (some problem_id) = do
  found ← Submissions.list_by_user_and_problem user_id problem_id
  pure (listed found)

-- `problem_id` is the parameter of the query, "" if it is missing.
unfoldable pub list : Option ℤ → List ℕ → Act (Reply (List SubmissionResponse))
unfolding parse_id Submissions.list_by_user Submissions.list_by_user_and_problem
list none problem_id = pure (error 401 (codes "unauthorized"))
list (some user_id) problem_id =
    if is_empty problem_id
    then (Submissions.list_by_user user_id >>= λ found. pure (listed found))
    else list_problem user_id (parse_id problem_id)
