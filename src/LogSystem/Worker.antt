-- ===== src/LogSystem/Worker.antt =====
-- log_system/logs_code/AsyncWorker.hpp and the sinks' side of AsyncLogger.hpp: producers push
-- records into one buffer, a thread swaps it for an empty one and hands the bytes to every sink.
pub mod Invariant
pub mod Drain
pub mod Blocking
mod Tests
use kama_asyn_log_system_clo.Base.{
  ◌≡◌, Bool, true, false, not, ◌&&◌, ◌||◌, List, ◌++◌, map, Option, none, some, Bytes, length, leb,
  if◌then◌else◌,
}
use kama_asyn_log_system_clo.LogSystem.Buffer
use kama_asyn_log_system_clo.LogSystem.Buffer.{
  Conf, Buffer, writeable_size, is_empty, content, swap, reset,
}

pub data AsyncType : Type 0 where
  async_safe async_unsafe : AsyncType

-- Where the thread stands in `ThreadEntry`: before the wait, before the callback, before the
-- reset, or behind the `return`.
pub data Phase : Type 0 where
  waiting flushing resetting returned : Phase

-- `sinks` is what each `LogFlush` of the logger has been given so far; `pushed` is the history of
-- all bytes that were pushed, which the program does not keep.
pub record Worker : Type 0 where
  pub async_type : AsyncType
  pub stop : Bool
  pub producer : Buffer
  pub consumer : Buffer
  pub phase : Phase
  pub sinks : List Bytes
  pub pushed : Bytes

-- `AsyncLogger::RealFlush`: every sink is given the readable bytes.
unfoldable pub real_flush : Buffer → List Bytes → List Bytes
real_flush b sinks = map (λ s. s ++ content b) sinks

-- The wait of `Push`: in safe mode a producer goes on only if its record fits.
unfoldable pub may_push : Worker → Bytes → Bool
may_push w bytes = elim w.async_type [
  | async_safe ↦ leb (length bytes) (writeable_size w.producer)
  | async_unsafe ↦ true
]

-- The part of `ThreadEntry` under the lock, once `cond_consumer_` lets it run; `none` is a wait.
unfoldable pub take_over : Worker → Option Worker
unfolding is_empty swap
take_over w =
    if w.stop || not (is_empty w.producer)
    then (if w.stop && is_empty w.producer
        then some (record w { phase = returned })
        else (let (p, c) = swap w.producer w.consumer in
            some (record w { producer = p; consumer = c; phase = flushing })))
    else none

-- One step of the thread that stands at the given place; `none` if it waits or has returned.
unfoldable pub thread_step_at : Phase → Worker → Option Worker
unfolding take_over real_flush reset
thread_step_at waiting w = take_over w
thread_step_at flushing w =
    some (record w { sinks = real_flush w.consumer w.sinks; phase = resetting })
thread_step_at resetting w = some (record w { consumer = reset w.consumer; phase = waiting })
thread_step_at returned w = none

unfoldable pub thread_step : Worker → Option Worker
unfolding thread_step_at
thread_step w = thread_step_at w.phase w

-- The steps of the whole: a producer passes its wait and pushes, somebody calls `Stop`, the thread
-- makes a step. A push that writes behind the storage is undefined behaviour and no step.
pub data Step (conf : Conf) (w : Worker) : Worker → Type 0 where
  producer_push :
      (bytes : Bytes) {b : Buffer}
      → may_push w bytes ≡ true
      → Buffer.push conf w.producer bytes ≡ some b
      → Step conf w (record w { producer = b; pushed = w.pushed ++ bytes })
  stop_call : Step conf w (record w { stop = true })
  thread_run : {u : Worker} → thread_step w ≡ some u → Step conf w u

-- A worker as its constructor leaves it, with `n` sinks that have been given nothing.
unfoldable pub new_worker : Conf → AsyncType → List Bytes → Worker
unfolding Buffer.init
new_worker conf type sinks = record {
  async_type = type;
  stop = false;
  producer = Buffer.init conf;
  consumer = Buffer.init conf;
  phase = waiting;
  sinks = map (λ _. List.[]) sinks;
  pushed = List.[];
}

pub data Reach (conf : Conf) (w : Worker) : Worker → Type 0 where
  here : Reach conf w w
  later : {u v : Worker} → Reach conf w u → Step conf u v → Reach conf w v
