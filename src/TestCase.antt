-- ===== src/TestCase.antt =====
-- internal/testcase/testcase.go: the type. The repository is below.
pub mod Repository
use go_spoc.Prelude.{ℕ, Bool, List}
use go_spoc.Prelude.Int.{ℤ}

-- The two texts are bytes, as the sandbox reads and writes them.
pub record TestCase : Type 0 where
  pub id : ℤ
  pub problem_id : ℤ
  pub idx : ℤ
  pub input : List ℕ
  pub expected_output : List ℕ
  pub is_sample : Bool
