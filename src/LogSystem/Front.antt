-- ===== src/LogSystem/Front.antt =====
-- The front end of the logger: src/log_system/logs_code/Level.hpp, Message.hpp, Manager.hpp, and
-- `AsyncLogger` and `LoggerBuilder` of AsyncLogger.hpp. The text of a time of day, the text of a
-- thread and what `vasprintf` makes of a format are parameters.
pub mod Lines
pub mod Registry
mod Tests
use kama_asyn_log_system_clo.Base.{
  if◌then◌else◌, KeyEq, lookup, insert, Bytes, codes, bytes_eq, bytes_eq_iff, stream, to_string,
  c_string, ℕ, Bool, true, false, Option, none, some, List, [], ◌∷◌, ◌++◌,
}
use kama_asyn_log_system_clo.LogSystem.Buffer
use kama_asyn_log_system_clo.LogSystem.Buffer.{Conf}
use kama_asyn_log_system_clo.LogSystem.Worker.{AsyncType, async_safe, Worker, may_push, new_worker}

-- `LogLevel::value`
pub data LogLevel : Type 0 where
  debug info warn error fatal : LogLevel

-- `LogLevel::ToString`
unfoldable pub level_name : LogLevel → Bytes
level_name debug = codes "DEBUG"
level_name info = codes "INFO"
level_name warn = codes "WARN"
level_name error = codes "ERROR"
level_name fatal = codes "FATAL"

pub record LogMessage : Type 0 where
  pub line : ℕ
  pub ctime : ℕ
  pub file_name : Bytes
  pub name : Bytes
  pub payload : Bytes
  pub tid : ℕ
  pub level : LogLevel

-- How a time and a thread are written.
pub record Texts : Type 0 where
  pub time_text : ℕ → Bytes
  pub tid_text : ℕ → Bytes

-- `LogMessage::format`, without the line break at its end.
unfoldable pub line_of : Texts → LogMessage → Bytes
line_of texts m = stream (
    codes "["
    ∷ texts.time_text m.ctime
    ∷ codes "]["
    ∷ texts.tid_text m.tid
    ∷ codes "["
    ∷ level_name m.level
    ∷ codes "]["
    ∷ m.name
    ∷ codes "]["
    ∷ m.file_name
    ∷ codes ":"
    ∷ to_string m.line
    ∷ (b']' ∷ 9 ∷ [])
    ∷ m.payload
    ∷ [])

unfoldable pub format : Texts → LogMessage → Bytes
format texts m = line_of texts m ++ 10 ∷ []

-- `AsyncLogger`; its sinks stand in its worker.
pub record AsyncLogger : Type 0 where
  pub logger_name : Bytes
  pub asyncworker : Worker

-- `AsyncWorker::Push`; `none` is a wait, or a write behind the storage.
unfoldable pub pushed_to : Bytes → Worker → Option Buffer.Buffer → Option Worker
pushed_to data_ w none = none
pushed_to data_ w (some b) = some (record w { producer = b; pushed = w.pushed ++ data_ })

unfoldable pub push_record : Conf → Bytes → Worker → Option Worker
push_record conf data_ w =
    if may_push w data_ then pushed_to data_ w (Buffer.push conf w.producer data_) else none

-- The constructor of `LogMessage`, at a time and on a thread.
unfoldable pub message_of : ℕ → ℕ → LogLevel → Bytes → ℕ → Bytes → AsyncLogger → LogMessage
message_of now tid level file line payload logger = record {
  line = line;
  ctime = now;
  file_name = file;
  name = logger.logger_name;
  payload = payload;
  tid = tid;
  level = level;
}

-- `Flush` of the logger.
unfoldable pub working_in : AsyncLogger → Option Worker → Option AsyncLogger
working_in logger none = none
working_in logger (some w) = some (record logger { asyncworker = w })

unfoldable pub push_line : Conf → Bytes → AsyncLogger → Option AsyncLogger
push_line conf data_ logger = working_in logger (push_record conf data_ logger.asyncworker)

unfoldable pub serialize :
    Conf → Texts → ℕ → ℕ → LogLevel → Bytes → ℕ → Bytes → AsyncLogger → Option AsyncLogger
serialize conf texts now tid level file line payload logger =
    push_line conf (format texts (message_of now tid level file line payload logger)) logger

-- `Debug`, `Info`, `Warn`, `Error` and `Fatal`, of what `vasprintf` made; where it failed, a pointer
-- that was never set is read.
unfoldable pub log :
    Conf → Texts → ℕ → ℕ → LogLevel → Bytes → ℕ → Option Bytes → AsyncLogger → Option AsyncLogger
log conf texts now tid level file line none logger = none
log conf texts now tid level file line (some payload) logger =
    serialize conf texts now tid level file line (c_string payload) logger

-- `LoggerBuilder`; a sink is known by what it has been given.
pub record LoggerBuilder : Type 0 where
  pub logger_name : Bytes
  pub flushs : List Bytes
  pub async_type : AsyncType

abbrev pub new_builder : LoggerBuilder
new_builder = record { logger_name = codes "async_logger"; flushs = []; async_type = async_safe }

abbrev pub build_logger_name : Bytes → LoggerBuilder → LoggerBuilder
build_logger_name name b = record b { logger_name = name }

abbrev pub build_lopper_type : AsyncType → LoggerBuilder → LoggerBuilder
build_lopper_type type b = record b { async_type = type }

abbrev pub build_logger_flush : Bytes → LoggerBuilder → LoggerBuilder
build_logger_flush sink b = record b { flushs = b.flushs ++ sink ∷ [] }

-- The sink for standard output where no other was given.
unfoldable pub sinks_or_stdout : List Bytes → List Bytes
sinks_or_stdout [] = [] ∷ []
sinks_or_stdout (sink ∷ sinks) = sink ∷ sinks

-- `Build`; `none` is the failed `assert`.
unfoldable pub build : Conf → LoggerBuilder → Option AsyncLogger
build conf b =
    if bytes_eq b.logger_name []
    then none
    else some (record {
      logger_name = b.logger_name;
      asyncworker = new_worker conf b.async_type (sinks_or_stdout b.flushs);
    })

-- The loggers by name.
unfoldable pub name_key : KeyEq Bytes
name_key = record { test = bytes_eq; test_iff = bytes_eq_iff }

-- The end iterator or not.
unfoldable pub is_found : {L : Type 0} → Option L → Bool
is_found none = false
is_found (some logger) = true

-- `LoggerManager`, whose loggers are pointers that know their names.
pub record LoggerManager (L : Type 0) : Type 0 where
  pub default_logger : Option L
  pub loggers : List (Bytes × L)

module _ {L : Type 0} (name_of : L → Bytes) where
  -- The constructor, of the logger that is built for the name `default`.
  unfoldable pub new_manager : L → LoggerManager L
  new_manager logger = record {
    default_logger = some logger;
    loggers = (codes "default", logger) ∷ [];
  }

  unfoldable pub get_logger : Bytes → LoggerManager L → Option L
  get_logger name m = lookup name_key name m.loggers

  unfoldable pub logger_exist : Bytes → LoggerManager L → Bool
  logger_exist name m = is_found (get_logger name m)

  unfoldable pub add_logger : L → LoggerManager L → LoggerManager L
  add_logger logger m =
      if logger_exist (name_of logger) m
      then m
      else record m { loggers = insert name_key (name_of logger) logger m.loggers }

  unfoldable pub shutdown : LoggerManager L → LoggerManager L
  shutdown m = record m { default_logger = none; loggers = [] }
