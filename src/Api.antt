-- ===== src/Api.antt =====
-- cmd/api/main.go: the routes, with their guards.
pub mod Guards
use go_spoc.Prelude.{ℕ, Bool, List, [], ◌∷◌, Option, none, some, codes}
use go_spoc.Prelude.Int.{ℤ}
use go_spoc.Http.{Reply, error, json, panic, other_value}
use go_spoc.Events.{Event}
use go_spoc.World.{Act, pure}
use go_spoc.Auth.Password.{Argon}
use go_spoc.Auth.Jwt.{Signer}
use go_spoc.Auth.Handler as Accounts
use go_spoc.Auth.Middleware.{Parser, auth_middleware, require_any_role}
use go_spoc.Problem.{Problem}
use go_spoc.Problem.Handler as Problems
use go_spoc.Submission.Handler as Submissions
use go_spoc.Submission.Handler.Stream as Stream

-- `parse` is jwt.Parse, `header` the Authorization header.
module _ (unicode_lower : ℕ → ℕ) (parse : Parser) (secret : List ℕ) (header : List ℕ) where
  -- requireAuth.
  abbrev signed_in : {A : Type 0} → (Option ℤ → Act (Reply A)) → Act (Reply A)
  signed_in next = auth_middleware parse secret header next

  unfoldable pub post_problems : Option Problems.CreateRequest → Act (Reply Problem)
  unfolding auth_middleware require_any_role Problems.create
  post_problems body =
      signed_in (require_any_role (codes "admin" ∷ []) (λ user. Problems.create unicode_lower body))

  unfoldable pub get_problems : Act (Reply (List Problem))
  unfolding auth_middleware Problems.list
  get_problems = signed_in λ user. Problems.list

  unfoldable pub get_problem : List ℕ → Act (Reply Problem)
  unfolding auth_middleware Problems.get_problem
  get_problem slug = signed_in λ user. Problems.get_problem unicode_lower slug

  unfoldable pub post_submissions :
      Option Submissions.CreateRequest → Act (Reply Submissions.SubmissionResponse)
  unfolding auth_middleware Submissions.create
  post_submissions body = signed_in λ user. Submissions.create unicode_lower user body

  unfoldable pub get_submissions : List ℕ → Act (Reply (List Submissions.SubmissionResponse))
  unfolding auth_middleware Submissions.list
  get_submissions problem_id = signed_in λ user. Submissions.list user problem_id

  unfoldable pub get_submission : List ℕ → Act (Reply Submissions.SubmissionResponse)
  unfolding auth_middleware Submissions.get_by_id
  get_submission id = signed_in λ user. Submissions.get_by_id user id

  unfoldable pub get_submission_events :
      Bool → List ℕ → List Stream.Signal → Act (Reply Stream.Streamed)
  unfolding auth_middleware Stream.stream
  get_submission_events flushes id signals = signed_in λ user. Stream.stream flushes user id signals

  -- The number in "User verified: %d".
  abbrev verified : Option ℤ → Act (Reply ℤ)
  verified none = pure (error 401 (codes "user not found"))
  verified (some user_id) = pure (json 200 user_id)

  unfoldable pub get_me : Act (Reply ℤ)
  unfolding auth_middleware
  get_me = signed_in verified

module _ (unicode_lower : ℕ → ℕ) (argon : Argon) where
  unfoldable pub post_signup :
      Option (List ℕ) → Option Accounts.SignupRequest → Act (Reply Accounts.SignupResponse)
  unfolding Accounts.signup
  post_signup salt body = Accounts.signup unicode_lower argon salt body

  unfoldable pub post_login :
      Signer → List ℕ → ℤ × ℤ → Option Accounts.LoginRequest → Act (Reply Accounts.LoginResponse)
  unfolding Accounts.login
  post_login sign secret now body = Accounts.login unicode_lower argon sign secret now body

-- The routes that test the service; the first two write a line of text.
unfoldable pub get_ping : Act (Reply (List ℕ))
get_ping = pure (json 200 (codes "PONG\n"))

unfoldable pub get_healthz : Act (Reply (List ℕ))
get_healthz = pure (json 200 (codes "OK\n"))

unfoldable pub get_panic : Act (Reply (List ℕ))
get_panic = pure (panic other_value)
