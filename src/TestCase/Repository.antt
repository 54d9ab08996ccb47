-- ===== src/TestCase/Repository.antt =====
-- internal/testcase/testcase.go: the repository.
use go_spoc.Prelude.{List}
use go_spoc.Prelude.Eq.{◌==◌}
use go_spoc.Prelude.Int.{ℤ, int_eq, ltb_ℤ}
use go_spoc.TestCase.{TestCase}
use go_spoc.Result.{Result, ok}
use go_spoc.Db.{DbError, select}
use go_spoc.Db.Order.{order_by}
use go_spoc.World.{Act, transact}

unfoldable pub list_by_problem : ℤ → Act (Result DbError (List TestCase))
unfolding transact
list_by_problem problem_id = transact λ now db. (
  ok (order_by (λ s t. ltb_ℤ s.idx t.idx) (select (λ t. t.problem_id == problem_id) db.test_cases)),
  db,
)
