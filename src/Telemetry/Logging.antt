-- ===== src/Telemetry/Logging.antt =====
-- `NewLogger` of internal/telemetry/logging.go: what it makes of its settings.
use route_ans.Prelude.{Bool, ◌||◌, Text, codes, text_eq, if◌then◌else◌}
use route_ans.Config.Types.{LoggingConfig}

pub data Output : Type 0 where
  stdout stderr : Output

pub data Level : Type 0 where
  debug info warn error fatal : Level

pub record Logger : Type 0 where
  pub output : Output
  pub console : Bool
  pub level : Level

-- The switch over the level.
unfoldable pub level_of : Text → Level
level_of level =
    if text_eq level (codes "debug")
    then debug
    else if text_eq level (codes "warn") || text_eq level (codes "warning")
    then warn
    else if text_eq level (codes "error")
    then error
    else if text_eq level (codes "fatal")
    then fatal
    else info

-- `NewLogger`: the output "file" is the standard output, and its file is not read.
unfoldable pub new_logger : LoggingConfig → Logger
unfolding level_of
new_logger c = record {
  output = if text_eq c.output (codes "stderr") then stderr else stdout;
  console = text_eq c.format (codes "text") || text_eq c.format (codes "pretty");
  level = level_of c.level;
}
