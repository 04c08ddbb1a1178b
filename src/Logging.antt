-- ===== src/Logging.antt =====
-- app/logging.py: which events are logged, and the request id that every line of the log carries. The
-- rendering of a line is structlog's.
use chekin_interview.Base.{ℕ, String, List, [], ◌∷◌, ◌++◌, leb, str_eq, if◌then◌else◌}
use chekin_interview.Json.{Fields}
use chekin_interview.Config.{Settings}

-- The levels of Python's `logging`, and their numbers.
pub data Level : Type 0 where
  notset debug info warning error critical : Level

abbrev pub severity : Level → ℕ
severity notset = 0
severity debug = 10
severity info = 20
severity warning = 30
severity error = 40
severity critical = 50

-- `getattr(logging, name, logging.INFO)`, of the names of levels.
unfoldable pub level_named : String → Level
level_named name =
    if str_eq name "NOTSET"
    then notset
    else if str_eq name "DEBUG"
    then debug
    else if str_eq name "WARNING"
    then warning
    else if str_eq name "WARN"
    then warning
    else if str_eq name "ERROR"
    then error
    else if str_eq name "CRITICAL"
    then critical
    else if str_eq name "FATAL"
    then critical
    else info

-- A call of the logger: its level, its event and what is bound to it.
pub record Event : Type 0 where
  pub level : Level
  pub event : String
  pub bound : Fields

-- A line, with the id that `_add_request_id` puts in.
pub record Line : Type 0 where
  pub event : Event
  pub request_id : String

-- The value of `request_id_var`, the number of the lowest level that is logged and what has been
-- logged.
pub record Log : Type 0 where
  pub request_id : String
  pub threshold : ℕ
  pub lines : List Line

-- `configure_logging`, where `upper` is `str.upper`; `ContextVar("request_id", default="-")`
unfoldable pub configure_logging : (String → String) → Settings → Log
unfolding level_named
configure_logging upper settings = record {
  request_id = "-";
  threshold = severity (level_named (upper settings.log_level));
  lines = [];
}

-- `_add_request_id`
unfoldable pub add_request_id : String → Event → Line
add_request_id id event = record { event = event; request_id = id }

-- The line of an event, if its level is logged.
abbrev pub kept : ℕ → String → Event → List Line
unfolding add_request_id
kept threshold id event =
    if leb threshold (severity event.level) then add_request_id id event ∷ [] else []

-- `log.info(…)`, `log.warning(…)` and `log.error(…)`
unfoldable pub log : Event → Log → Log
unfolding kept
log event l = record l { lines = l.lines ++ kept l.threshold l.request_id event }

-- What a piece of code logs, in order.
unfoldable pub log_all : List Event → Log → Log
unfolding log
log_all [] l = l
log_all (x ∷ xs) l = log_all xs (log x l)
