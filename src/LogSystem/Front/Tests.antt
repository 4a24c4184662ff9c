-- ===== src/LogSystem/Front/Tests.antt =====
-- Runs of the front end of the logger at small inputs.
use kama_asyn_log_system_clo.Base.{
  Bytes, codes, bytes_eq, stream, All, decimal_from, to_string, ℕ, ◌≡◌, refl, true, Option, none,
  some, List, [], ◌∷◌, ◌++◌, arith,
}
use kama_asyn_log_system_clo.LogSystem.Buffer
use kama_asyn_log_system_clo.LogSystem.Buffer.{Conf, writeable_size, push}
use kama_asyn_log_system_clo.LogSystem.Worker.{
  Worker, returned, new_worker, may_push, thread_step, async_safe,
}
use kama_asyn_log_system_clo.LogSystem.Front.{
  info, Texts, format, line_of, level_name, push_line, push_record, pushed_to, working_in,
  AsyncLogger, build, serialize, message_of, LoggerBuilder, new_builder, build_logger_name,
  LoggerManager, new_manager, get_logger, sinks_or_stdout,
}
use kama_asyn_log_system_clo.LogSystem.Front.Lines.{
  Logged, built, logs, stops, runs, lines_of, delivered_whole,
}
use kama_asyn_log_system_clo.LogSystem.Front.Registry.{
  Call, add_call, shutdown_call, run_calls, first_added, get_logger-run_calls,
}

abbrev conf : Conf
conf = record { buffer_size = 64; threshold = 100; linear_growth = 50 }

abbrev texts : Texts
texts = record { time_text = λ _. codes "t"; tid_text = λ _. codes "7" }

abbrev builder : LoggerBuilder
builder = build_logger_name (codes "a") new_builder

abbrev start : AsyncLogger
start = record { logger_name = codes "a"; asyncworker = new_worker conf async_safe ([] ∷ []) }

start_built : build conf builder ≡ some start
unfolding build sinks_or_stdout bytes_eq
start_built = refl

line_written :
    format texts (message_of 0 0 info (codes "f") 12 (codes "x") start)
    ≡ codes "[t][7[INFO][a][f:12]" ++ (9 ∷ codes "x" ++ 10 ∷ [])
unfolding format message_of line_of stream level_name to_string decimal_from
line_written = refl

abbrev logger_or : AsyncLogger → Option AsyncLogger → AsyncLogger
logger_or a none = a
logger_or a (some b) = b

abbrev worker_or : Worker → Option Worker → Worker
worker_or w none = w
worker_or w (some u) = u

abbrev after_log : AsyncLogger
after_log = logger_or start (serialize conf texts 0 0 info (codes "f") 12 (codes "x") start)

logged_one : serialize conf texts 0 0 info (codes "f") 12 (codes "x") start ≡ some after_log
unfolding serialize push_line working_in push_record may_push new_worker format line_of stream
    level_name message_of to_string decimal_from Buffer.writeable_size pushed_to Buffer.push
logged_one = refl

abbrev stopped_log : AsyncLogger
stopped_log = record after_log { asyncworker = record after_log.asyncworker { stop = true } }

-- The thread takes the line over, hands it on, clears its buffer, and returns.
abbrev taken : Worker
taken = worker_or stopped_log.asyncworker (thread_step stopped_log.asyncworker)

abbrev handed : Worker
handed = worker_or taken (thread_step taken)

abbrev cleared : Worker
cleared = worker_or handed (thread_step handed)

abbrev ended : Worker
ended = worker_or cleared (thread_step cleared)

line_taken : thread_step stopped_log.asyncworker ≡ some taken
unfolding thread_step serialize push_line working_in push_record may_push new_worker format line_of
    stream level_name message_of to_string decimal_from writeable_size pushed_to Buffer.push
line_taken = refl

line_handed : thread_step taken ≡ some handed
unfolding thread_step serialize push_line working_in push_record may_push new_worker format line_of
    stream level_name message_of to_string decimal_from writeable_size pushed_to Buffer.push
line_handed = refl

line_cleared : thread_step handed ≡ some cleared
unfolding thread_step serialize push_line working_in push_record may_push new_worker format line_of
    stream level_name message_of to_string decimal_from writeable_size pushed_to Buffer.push
line_cleared = refl

thread_ended : thread_step cleared ≡ some ended
unfolding thread_step serialize push_line working_in push_record may_push new_worker format line_of
    stream level_name message_of to_string decimal_from writeable_size pushed_to Buffer.push
thread_ended = refl

ended_returned : ended.phase ≡ returned
unfolding thread_step serialize push_line working_in push_record may_push new_worker format line_of
    stream level_name message_of to_string decimal_from writeable_size pushed_to Buffer.push
ended_returned = refl

abbrev finished : AsyncLogger
finished = record stopped_log { asyncworker = cleared }

life : Logged conf texts start (message_of 0 0 info (codes "f") 12 (codes "x") start ∷ []) finished
life =
    runs {w = cleared}
      (runs {w = handed}
        (runs {w = taken}
          (stops (logs {b = after_log} 0 0 info (codes "f") 12 (codes "x") built logged_one))
          line_taken)
        line_handed)
      line_cleared

-- The one sink has been given the line.
delivered_whole_example :
    (finished.asyncworker.stop ≡ true)
    × All
        (λ s. s ≡ lines_of texts (message_of 0 0 info (codes "f") 12 (codes "x") start ∷ []))
        ended.sinks
delivered_whole_example =
    delivered_whole builder (omega arith) start_built life thread_ended ended_returned

abbrev a_name : ℕ → Bytes
a_name logger = codes "a"

abbrev some_calls : List (Call ℕ)
some_calls = add_call 3 ∷ shutdown_call ∷ add_call 4 ∷ add_call 5 ∷ []

abbrev first_manager : LoggerManager ℕ
first_manager = new_manager a_name 1

-- A second logger of the same name is not taken, and a shutdown forgets all.
get_logger-run_calls_example :
    get_logger a_name (codes "a") (run_calls a_name some_calls first_manager)
    ≡ first_added a_name (codes "a") some_calls (get_logger a_name (codes "a") first_manager)
get_logger-run_calls_example = get_logger-run_calls a_name (codes "a") some_calls first_manager
