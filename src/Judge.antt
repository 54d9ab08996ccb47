-- ===== src/Judge.antt =====
-- internal/judge.
pub mod Normalize
pub mod Lines
pub mod SameLines
pub mod Classify
pub mod Languages
pub mod Run
pub mod Accepts
pub mod RunSteps
pub mod Report
pub mod Verdicts
pub mod CompileErrors
pub mod Frame
