-- ===== src/Events.antt =====
-- internal/events/events.go.
pub mod Publisher
pub mod Subscriber
use go_spoc.Prelude.{String, Option}
use go_spoc.Prelude.Int.{ℤ}

pub record Event : Type 0 where
  pub submission_id : ℤ
  pub status : String
  pub verdict : Option String
  pub runtime_ms : Option ℤ
  pub memory_kb : Option ℤ
