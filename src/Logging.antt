-- ===== src/Logging.antt =====
-- Logging.h and Logging.cc: the level that the environment sets, and which macros print at it. A macro
-- that does not print does not evaluate its arguments either.
use netfish.Prelude.{Bool, Option, none, some}
use netfish.Prelude.Int.{ℤ, pos, ltb_ℤ}

-- The argument is `atoi` of NETFISH_LOG_LEVEL, if that is set.
unfoldable pub init_log_level : Option ℤ → ℤ
init_log_level none = pos 2
init_log_level (some new_level) = new_level

unfoldable pub logs_trace : ℤ → Bool
logs_trace level = ltb_ℤ level (pos 1)

unfoldable pub logs_debug : ℤ → Bool
logs_debug level = ltb_ℤ level (pos 2)

unfoldable pub logs_info : ℤ → Bool
logs_info level = ltb_ℤ level (pos 3)
