-- ===== src/Log.antt =====
-- The logging macros of fsw/src/core_sntp_config.h, which coreSNTP uses.
use Prim.Native.String.{String, ◌++◌}
use cfe_sntp.Base.{Bool, true, false, List, [], Option, none, some, if◌then◌else◌}
use cfe_sntp.Platform.{Platform, Arg, Call}
use cfe_sntp.World.{M, pure, ◌>>◌, call}

-- LOGGING_LEVEL_ERROR and so on. At most one is defined.
pub data LoggingLevel : Type 0 where
  level_error level_warning level_info level_debug : LoggingLevel

-- LogError, LogWarn, LogInfo and LogDebug.
pub data Severity : Type 0 where
  error warn info debug : Severity

abbrev pub prefix : Severity → String
prefix error = "Error: "
prefix warn = "Warn: "
prefix info = "Info: "
prefix debug = "Debug: "

-- Whether the macro is defined at the level.
abbrev pub is_logged : LoggingLevel → Severity → Bool
is_logged level_error error = true
is_logged level_error _ = false
is_logged level_warning error = true
is_logged level_warning warn = true
is_logged level_warning _ = false
is_logged level_info debug = false
is_logged level_info _ = true
is_logged level_debug _ = true

module _ {ℓ} {S : Type ℓ} (p : Platform) where
  -- PrintfError and so on: the message and then the end of the line, with `printf` or `OS_printf`.
  unfoldable pub printf_log : Severity → String → List Arg → M S (Unit {0})
  printf_log severity format arguments = do
    call p (Call.os_printf (prefix severity ++ format) arguments)
    call p (Call.os_printf "\n" [])
    pure tt

  -- `none` where the macro is not defined: a program that uses it does not compile.
  unfoldable pub log : Option LoggingLevel → Severity → String → List Arg → Option (M S (Unit {0}))
  log none severity format arguments = none
  log (some level) severity format arguments =
      if is_logged level severity then some (printf_log severity format arguments) else none
