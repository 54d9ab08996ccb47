-- ===== src/Problem/Handler.antt =====
-- internal/problem/handler.go.
pub mod Laws
use go_spoc.Prelude.{
  ℕ, Bool, ◌||◌, not, List, [], map, Option, none, some, codes, is_empty, if◌then◌else◌,
}
use go_spoc.Prelude.Int.{ℤ, pos, ltb_ℤ}
use go_spoc.Result.{Result, ok, err}
use go_spoc.Strings.{trim_space}
use go_spoc.Strings.Case.{to_lower}
use go_spoc.Db.{DbError}
use go_spoc.Http.{Reply, error, json}
use go_spoc.World.{Act, pure, ◌>>=◌}
use go_spoc.Problem.{Problem}
use go_spoc.Problem.Repository as Problems

pub record CreateRequest : Type 0 where
  pub slug : List ℕ
  pub title : List ℕ
  pub statement : List ℕ
  pub time_limit_ms : ℤ
  pub memory_limit_kb : ℤ

-- The responses have the fields of `Problem`, in its order.
abbrev pub created : Result DbError Problem → Reply Problem
created (err e) = error 500 (codes "failed to create problem")
created (ok p) = json 201 p

abbrev pub listed_fields : Problem → Problem
listed_fields p = record p { statement = [] }

abbrev pub listed : Result DbError (List Problem) → Reply (List Problem)
listed (err e) = error 500 (codes "failed to list problems")
listed (ok ps) = json 200 (map listed_fields ps)

abbrev pub shown : Result DbError Problem → Reply Problem
shown (err e) = error 500 (codes "failed to get problem")
shown (ok p) = json 200 p

-- The guards of `Create`; none lets the request pass.
unfoldable pub refusal : CreateRequest → Option (List ℕ)
refusal req =
    if is_empty req.slug || is_empty req.title || is_empty req.statement
    then some (codes "slug, title and statement are required")
    else if not (ltb_ℤ (pos 0) req.time_limit_ms) || not (ltb_ℤ (pos 0) req.memory_limit_kb)
    then some (codes "time_limit_ms and memory_limit_kb must be positive")
    else none

unfoldable pub submit : CreateRequest → Option (List ℕ) → Act (Reply Problem)
unfolding Problems.create
submit req (some text) = pure (error 400 text)
submit req none = do
  p ← Problems.create req.slug req.title req.statement req.time_limit_ms req.memory_limit_kb
  pure (created p)

unfoldable pub list : Act (Reply (List Problem))
unfolding Problems.list
list = do ps ← Problems.list; pure (listed ps)

module _ (unicode_lower : ℕ → ℕ) where
  unfoldable pub clean : CreateRequest → CreateRequest
  unfolding to_lower trim_space
  clean req = record req {
    slug = trim_space (to_lower unicode_lower req.slug);
    title = trim_space req.title;
    statement = trim_space req.statement;
  }

  unfoldable pub create : Option CreateRequest → Act (Reply Problem)
  unfolding submit clean refusal
  create none = pure (error 400 (codes "invalid json body"))
  create (some body) = let req = clean body in submit req (refusal req)

  unfoldable pub get_problem : List ℕ → Act (Reply Problem)
  unfolding Problems.get_by_slug to_lower trim_space
  get_problem path_slug =
      let slug = trim_space (to_lower unicode_lower path_slug) in
      if is_empty slug
      then pure (error 400 (codes "slug is required"))
      else (Problems.get_by_slug slug >>= λ p. pure (shown p))
