-- ===== src/Log.antt =====
-- backend/internal/log: the logger's level, and the request-logging middleware.
pub mod Recorder
pub mod Middleware
use ai_it_dab_com.Prelude.{String, ◌==◌, ◌||◌, if◌then◌else◌, trim_space}

pub data Level : Type 0 where
  debug info warn error : Level

-- parseLevel of log.go; `to_lower` is strings.ToLower, which goes by the tables of Unicode.
module _ (to_lower : String → String) where
  unfoldable pub parse_level : String → Level
  parse_level s =
      let level = to_lower (trim_space s) in
      if level == "debug"
      then debug
      else if level == "warn" || level == "warning"
      then warn
      else if level == "error"
      then error
      else info
