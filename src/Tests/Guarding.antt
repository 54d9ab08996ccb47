-- ===== src/Tests/Guarding.antt =====
-- The routes with their guards, and the problems that they create.
use go_spoc.Prelude.{◌≡◌, refl, ◌⊎◌, true, some, codes}
use go_spoc.Prelude.Int.{pos}
use go_spoc.Prelude.Eq.{list_beq}
use go_spoc.Http.{error}
use go_spoc.Db.{query_row, exists}
use go_spoc.Strings.{trim_space, trim_left, trim_right, is_space, cut_prefix}
use go_spoc.Strings.Case.{to_lower}
use go_spoc.Strings.Decimal.{parse_int, digits_value}
use go_spoc.User.Repository as Users
use go_spoc.Problem.{Problem}
use go_spoc.Problem.Repository.{insert_problem}
use go_spoc.Problem.Repository as Problems
use go_spoc.Problem.Handler.{CreateRequest, create, clean, refusal, submit}
use go_spoc.Problem.Handler.Laws.{Stored, create-Stored}
use go_spoc.World.{transact}
use go_spoc.Auth.Middleware.{
  Parser, authenticate, bearer, user_of, subject_of, auth_middleware, require_any_role, on_user,
}
use go_spoc.Api.{post_problems}
use go_spoc.Api.Guards.{FromAdmin, TurnedAway, post_problems-FromAdmin}
use go_spoc.Tests.Fixtures.{start, calm, tables}

abbrev doubling : CreateRequest
doubling = record {
  slug = codes " Double";
  title = codes "Double ";
  statement = codes "Double it.";
  time_limit_ms = pos 1000;
  memory_limit_kb = pos 65536;
}

abbrev double_problem : Problem
double_problem = record {
  id = pos 2;
  slug = codes "double";
  title = codes "Double";
  statement = codes "Double it.";
  time_limit_ms = pos 1000;
  memory_limit_kb = pos 65536;
}

create-Stored_example :
    Stored tables (create (λ c. c) (some doubling) calm start).1.db double_problem
unfolding create clean refusal submit Problems.create insert_problem transact to_lower trim_space
    trim_left trim_right is_space exists list_beq
create-Stored_example = create-Stored (λ c. c) doubling calm start {status = 201} refl

-- Every token is read as that of the user 1.
abbrev trusting : Parser
trusting key token = some (record { valid = true; claims = some (some (codes "1")) })

post_problems-FromAdmin_example :
    FromAdmin (authenticate trusting (codes "s") (codes "Bearer t")) tables
    ⊎ TurnedAway tables
        (post_problems (λ c. c) trusting (codes "s") (codes "Bearer t") (some doubling) calm start)
post_problems-FromAdmin_example =
    post_problems-FromAdmin (λ c. c) trusting (codes "s") (codes "Bearer t") (some doubling) calm
      start

-- This user is no administrator.
user_is_forbidden :
    (post_problems (λ c. c) trusting (codes "s") (codes "Bearer t") (some doubling) calm start).0
    ≡ error 403 (codes "forbidden")
unfolding post_problems auth_middleware authenticate bearer user_of subject_of parse_int
    digits_value require_any_role on_user Users.find_by_id transact query_row cut_prefix list_beq
user_is_forbidden = refl
