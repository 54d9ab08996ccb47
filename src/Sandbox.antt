-- ===== src/Sandbox.antt =====
-- internal/judge/judge.go: what the judge hands to a sandbox and gets back.
pub mod Docker
use go_spoc.Prelude.{ℕ, String, Bool, List}
use go_spoc.Prelude.Int.{ℤ}

-- `env` is a map, as a list of its entries.
pub record ExecRequest : Type 0 where
  pub image : List ℕ
  pub host_dir : List ℕ
  pub cmd : List (List ℕ)
  pub input : List ℕ
  pub env : List (List ℕ × List ℕ)
  pub wall_ms : ℤ
  pub mem_kb : ℤ
  pub output_kb : ℤ

-- `stdout` and `stderr_excerpt` are bytes.
pub record Output : Type 0 where
  pub verdict : String
  pub stdout : List ℕ
  pub runtime_ms : ℤ
  pub memory_kb : ℤ
  pub stderr_excerpt : List ℕ
  pub output_truncated : Bool
