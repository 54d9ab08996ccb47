-- ===== src/User.antt =====
-- internal/user/user.go.
pub mod Repository
use go_spoc.Prelude.{ℕ, List}
use go_spoc.Prelude.Int.{ℤ}

-- Texts are lists of code points.
pub record User : Type 0 where
  pub id : ℤ
  pub email : List ℕ
  pub password_hash : List ℕ
  pub role : List ℕ
