-- ===== src/Submission.antt =====
-- internal/submission: the types of submission.go and repository.go.
pub mod Repository
pub mod Rows
pub mod Schedule
pub mod Claims
pub mod Lifecycle
pub mod Handler
pub mod Stuck
pub mod Spec
use go_spoc.Prelude.{ℕ, String, ◌≡◌, ◌↔◌, Bool, true, false, List, Option, arith}
use go_spoc.Prelude.Eq.{Eq}
use go_spoc.Prelude.Int.{ℤ}

-- The values that the CHECK of migrations/005_create_submissions_table.up.sql allows.
pub data Status : Type 0 where
  queued running done failed : Status

abbrev pub status_beq : Status → Status → Bool
status_beq queued queued = true
status_beq running running = true
status_beq done done = true
status_beq failed failed = true
status_beq _ _ = false

pub status_beq_iff : (a b : Status) → (status_beq a b ≡ true) ↔ (a ≡ b)
status_beq_iff a b = ground arith

instance abbrev pub status_eq : Eq Status
status_eq = record { same = status_beq; same_iff = status_beq_iff }

-- The column's text, as the program reads it.
abbrev pub status_text : Status → String
status_text queued = "queued"
status_text running = "running"
status_text done = "done"
status_text failed = "failed"

-- Times are numbers; a NULL column is `none`.
pub record Submission : Type 0 where
  pub id : ℤ
  pub user_id : ℤ
  pub problem_id : ℤ
  pub language : List ℕ
  pub source : List ℕ
  pub status : Status
  pub verdict : Option String
  pub runtime_ms : Option ℤ
  pub memory_kb : Option ℤ
  pub compile_error : Option (List ℕ)
  pub created_at : ℕ
  pub updated_at : ℕ

pub record TestResult : Type 0 where
  pub submission_id : ℤ
  pub test_case_id : ℤ
  pub idx : ℤ
  pub verdict : String
  pub runtime_ms : ℤ
  pub memory_kb : ℤ
  pub stderr_excerpt : List ℕ
