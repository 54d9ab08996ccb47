-- ===== src/Httpx/Logger.antt =====
-- internal/httpx/logger.go: the settings of the logger.
use go_spoc.Prelude.{String, Bool, if◌then◌else◌}
use go_spoc.Prelude.Eq.{◌==◌, string_eq}
use go_spoc.Prelude.Int.{ℤ, pos, negsuc}

-- `json` chooses slog.NewJSONHandler, otherwise it is slog.NewTextHandler.
pub record Logger : Type 0 where
  pub json : Bool
  pub level : ℤ

-- slog's Debug, Info, Warn and Error are -4, 0, 4 and 8; any other name leaves 0.
abbrev pub level_of : String → ℤ
level_of level =
    if level == "debug"
    then negsuc 3
    else if level == "info"
    then pos 0
    else if level == "warn"
    then pos 4
    else if level == "error"
    then pos 8
    else pos 0

unfoldable pub new_logger : String → String → Logger
new_logger env level = record { json = env == "prod"; level = level_of level }
