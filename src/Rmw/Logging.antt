-- ===== src/Rmw/Logging.antt =====
-- src/rmw/logging.cpp. `set_log_level` is that of iceoryx2, from the state of its logger to the next.
use rmw_iceoryx.Common.{Exec, ok, raise}
use rmw_iceoryx.Errors.{RetCode}

-- `rmw_log_severity_t`, with one value for those that have no case of their own.
pub data LogSeverity : Type 0 where
  debug info warn error fatal other : LogSeverity

pub data LogLevel : Type 0 where
  debug info warn error fatal : LogLevel

module _ {Logger : Type 0} (set_log_level : LogLevel → Logger → Logger) where
  abbrev with_level : LogLevel → Exec Logger RetCode (Unit {0})
  with_level level logger = (ok tt, set_log_level level logger)

  unfoldable pub rmw_set_log_severity : LogSeverity → Exec Logger RetCode (Unit {0})
  rmw_set_log_severity LogSeverity.debug = with_level LogLevel.debug
  rmw_set_log_severity LogSeverity.info = with_level LogLevel.info
  rmw_set_log_severity LogSeverity.warn = with_level LogLevel.warn
  rmw_set_log_severity LogSeverity.error = with_level LogLevel.error
  rmw_set_log_severity LogSeverity.fatal = with_level LogLevel.fatal
  rmw_set_log_severity LogSeverity.other = raise RetCode.error
