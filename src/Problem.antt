-- ===== src/Problem.antt =====
-- internal/problem/problem.go.
pub mod Repository
pub mod Handler
use go_spoc.Prelude.{ℕ, List}
use go_spoc.Prelude.Int.{ℤ}

pub record Problem : Type 0 where
  pub id : ℤ
  pub slug : List ℕ
  pub title : List ℕ
  pub statement : List ℕ
  pub time_limit_ms : ℤ
  pub memory_limit_kb : ℤ
