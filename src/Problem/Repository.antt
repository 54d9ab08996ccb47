-- ===== src/Problem/Repository.antt =====
-- internal/problem/repository.go.
use go_spoc.Prelude.{ℕ, suc, ◌&&◌, not, List, ◌++◌, [], ◌∷◌, if◌then◌else◌}
use go_spoc.Prelude.Eq.{◌==◌, nat_eq, list_eq}
use go_spoc.Prelude.Int.{ℤ, pos, int_eq, ltb_ℤ}
use go_spoc.Problem.{Problem}
use go_spoc.Result.{Result, ok, err}
use go_spoc.Db.{Db, DbError, unique_violation, out_of_range, exists, query_row, fits_int4}
use go_spoc.Db.Order.{order_by}
use go_spoc.World.{Act, transact}

unfoldable pub insert_problem : List ℕ → List ℕ → List ℕ → ℤ → ℤ → Db → Result DbError Problem × Db
insert_problem slug title statement time_limit_ms memory_limit_kb db =
    let row : Problem = record {
      id = pos db.next_problem;
      slug = slug;
      title = title;
      statement = statement;
      time_limit_ms = time_limit_ms;
      memory_limit_kb = memory_limit_kb;
    } in
    let spent : Db = record db { next_problem = suc db.next_problem } in
    if not (fits_int4 time_limit_ms && fits_int4 memory_limit_kb)
    then (err out_of_range, db)
    else if exists (λ p. p.slug == slug) db.problems
    then (err unique_violation, spent)
    else (ok row, record spent { problems = db.problems ++ row ∷ [] })

unfoldable pub create : List ℕ → List ℕ → List ℕ → ℤ → ℤ → Act (Result DbError Problem)
unfolding insert_problem transact
create slug title statement time_limit_ms memory_limit_kb =
    transact λ now. insert_problem slug title statement time_limit_ms memory_limit_kb

unfoldable pub get_by_id : ℤ → Act (Result DbError Problem)
unfolding transact
get_by_id id = transact λ now db. (query_row (λ p. p.id == id) db.problems, db)

unfoldable pub list : Act (Result DbError (List Problem))
unfolding transact
list = transact λ now db. (ok (order_by (λ p q. ltb_ℤ q.id p.id) db.problems), db)

unfoldable pub get_by_slug : List ℕ → Act (Result DbError Problem)
unfolding transact
get_by_slug slug = transact λ now db. (query_row (λ p. p.slug == slug) db.problems, db)
