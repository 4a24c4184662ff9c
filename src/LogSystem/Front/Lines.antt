-- ===== src/LogSystem/Front/Lines.antt =====
-- What is logged reaches the sinks: AsyncLogger.hpp and AsyncWorker.hpp of src/log_system/logs_code.
use kama_asyn_log_system_clo.LogSystem.Buffer
use kama_asyn_log_system_clo.LogSystem.Buffer.{Conf, size_mod}
use kama_asyn_log_system_clo.LogSystem.Worker.{
  AsyncType, Worker, Phase, returned, may_push, new_worker, thread_step, Step, producer_push,
  stop_call, thread_run, Reach, here, later, waiting, flushing, resetting, thread_step_at,
  take_over,
}
use kama_asyn_log_system_clo.LogSystem.Worker.Drain.{return_complete}
use kama_asyn_log_system_clo.Base.{
  if◌then◌else◌, Bool-cases, some_eq, Bytes, bytes_eq, All, ℕ, ◌<◌, ◌≡◌, refl, sym, ap, subst, ◌∙◌,
  inl, inr, true, Option, none, some, List, [], ◌∷◌, ◌++◌, append-nil, append_assoc, arith,
}
use kama_asyn_log_system_clo.LogSystem.Front.{
  LoggerBuilder, sinks_or_stdout, build, pushed_to, working_in, LogLevel, LogMessage, Texts, format,
  AsyncLogger, push_record, message_of, push_line, serialize,
}

-- The lines of messages, one behind the other.
unfoldable pub lines_of : Texts → List LogMessage → Bytes
lines_of texts [] = []
lines_of texts (m ∷ ms) = format texts m ++ lines_of texts ms

lines_of-append :
    (texts : Texts) (ms : List LogMessage) (m : LogMessage)
    → lines_of texts (ms ++ m ∷ []) ≡ lines_of texts ms ++ format texts m
unfolding lines_of
lines_of-append texts [] m = append-nil (format texts m)
lines_of-append texts (k ∷ ms) m =
    ap (λ s. format texts k ++ s) (lines_of-append texts ms m)
    ∙ sym (append_assoc (format texts k) (lines_of texts ms) (format texts m))

-- The life of a logger: calls that log, a call of `Stop`, and steps of its thread, in any order,
-- with the messages that were logged.
pub data Logged (conf : Conf) (texts : Texts) (start : AsyncLogger)
    : List LogMessage → AsyncLogger → Type 0 where
  built : Logged conf texts start [] start
  logs :
      {ms : List LogMessage} {a b : AsyncLogger} (now tid : ℕ) (level : LogLevel) (file : Bytes)
      (line : ℕ) (payload : Bytes)
      → Logged conf texts start ms a
      → serialize conf texts now tid level file line payload a ≡ some b
      → Logged conf texts start (ms ++ message_of now tid level file line payload a ∷ []) b
  stops :
      {ms : List LogMessage} {a : AsyncLogger}
      → Logged conf texts start ms a
      → Logged conf texts start ms (record a { asyncworker = record a.asyncworker { stop = true } })
  runs :
      {ms : List LogMessage} {a : AsyncLogger} {w : Worker}
      → Logged conf texts start ms a
      → thread_step a.asyncworker ≡ some w
      → Logged conf texts start ms (record a { asyncworker = w })

pushed_at :
    (conf : Conf) (data_ : Bytes) (w u : Worker) (b : Option Buffer.Buffer)
    → may_push w data_ ≡ true
    → Buffer.push conf w.producer data_ ≡ b
    → pushed_to data_ w b ≡ some u
    → Step conf w u × (u.pushed ≡ w.pushed ++ data_)
unfolding pushed_to
pushed_at conf data_ w u none fits at e = cc
pushed_at conf data_ w u (some b) fits at e =
    subst (λ v. Step conf w v × (v.pushed ≡ w.pushed ++ data_)) (some_eq e)
      (producer_push data_ fits at, refl)

pushed_by :
    (conf : Conf) (data_ : Bytes) (w u : Worker)
    → push_record conf data_ w ≡ some u
    → Step conf w u × (u.pushed ≡ w.pushed ++ data_)
unfolding push_record
pushed_by conf data_ w u e = elim (Bool-cases (may_push w data_)) [
  | inl fits ↦ pushed_at conf data_ w u (Buffer.push conf w.producer data_) fits refl (
      sym (ap (λ b. if b then pushed_to data_ w (Buffer.push conf w.producer data_) else none) fits)
      ∙ e)
  | inr waits ↦ ground (arith, waits, e)
]

working_by :
    (conf : Conf) (data_ : Bytes) (a b : AsyncLogger) (w : Option Worker)
    → push_record conf data_ a.asyncworker ≡ w
    → working_in a w ≡ some b
    → Step conf a.asyncworker b.asyncworker × (b.asyncworker.pushed ≡ a.asyncworker.pushed ++ data_)
unfolding working_in
working_by conf data_ a b none at e = cc
working_by conf data_ a b (some w) at e =
    subst
      (λ c.
        Step conf a.asyncworker c.asyncworker
        × (c.asyncworker.pushed ≡ a.asyncworker.pushed ++ data_))
      (some_eq e) (pushed_by conf data_ a.asyncworker w at)

serialized :
    (conf : Conf) (texts : Texts) (now tid : ℕ) (level : LogLevel) (file : Bytes) (line : ℕ)
    (payload : Bytes) (a b : AsyncLogger)
    → serialize conf texts now tid level file line payload a ≡ some b
    → Step conf a.asyncworker b.asyncworker
      × (b.asyncworker.pushed
          ≡ a.asyncworker.pushed ++ format texts (message_of now tid level file line payload a))
unfolding serialize push_line
serialized conf texts now tid level file line payload a b e =
    working_by conf (format texts (message_of now tid level file line payload a)) a b _ refl e

step_at-pushed :
    (phase : Phase) (w u : Worker) → thread_step_at phase w ≡ some u → u.pushed ≡ w.pushed
unfolding thread_step_at take_over
step_at-pushed waiting w u e = ground arith
step_at-pushed flushing w u e = ground arith
step_at-pushed resetting w u e = ground arith
step_at-pushed returned w u e = ground arith

-- A step of the thread pushes nothing.
thread_step-pushed : (w u : Worker) → thread_step w ≡ some u → u.pushed ≡ w.pushed
unfolding thread_step
thread_step-pushed w u e = step_at-pushed w.phase w u e

Logged-Reach :
    {conf : Conf} {texts : Texts} {start a : AsyncLogger} {ms : List LogMessage}
    → start.asyncworker.pushed ≡ []
    → Logged conf texts start ms a
    → Reach conf start.asyncworker a.asyncworker × (a.asyncworker.pushed ≡ lines_of texts ms)
unfolding lines_of
Logged-Reach none_yet built = (here, none_yet)
Logged-Reach {conf} {texts} none_yet (logs {ms} {a} {b} now tid level file line payload before e) =
    let (reached, same) = Logged-Reach none_yet before in
    let (step, more) = serialized conf texts now tid level file line payload a b e in
    (
      later reached step,
      more
          ∙ ap (λ s. s ++ format texts (message_of now tid level file line payload a)) same
          ∙ sym (lines_of-append texts ms (message_of now tid level file line payload a)),
    )
Logged-Reach none_yet (stops before) =
    let (reached, same) = Logged-Reach none_yet before in (later reached stop_call, same)
Logged-Reach none_yet (runs {a = a} {w} before e) =
    let (reached, same) = Logged-Reach none_yet before in
    (later reached (thread_run e), thread_step-pushed a.asyncworker w e ∙ same)

built_with :
    (conf : Conf) (b : LoggerBuilder) (start : AsyncLogger)
    → build conf b ≡ some start
    → new_worker conf b.async_type (sinks_or_stdout b.flushs) ≡ start.asyncworker
unfolding build
built_with conf b start e = elim (Bool-cases (bytes_eq b.logger_name [])) [
  | inl empty ↦ ground (arith, empty, e)
  | inr named ↦
      let logger : AsyncLogger = record {
        logger_name = b.logger_name;
        asyncworker = new_worker conf b.async_type (sinks_or_stdout b.flushs);
      } in
      let same : some logger ≡ some start =
        sym (ap (λ c. if c then none else some logger) named) ∙ e in
      ap (λ l. l.asyncworker) (some_eq same)
]

new_worker-pushed :
    (conf : Conf) (type : AsyncType) (sinks : List Bytes) → (new_worker conf type sinks).pushed ≡ []
unfolding new_worker
new_worker-pushed conf type sinks = refl

-- Let the buffer size fit a `size_t`. Whatever a built logger was called for, and however its thread
-- has run meanwhile: when the thread returns, `Stop` was called, and every sink has been given the
-- lines of all messages that were logged, whole and in order.
pub delivered_whole :
    {conf : Conf} {texts : Texts} {start a : AsyncLogger} {ms : List LogMessage} {u : Worker}
    → (b : LoggerBuilder) → conf.buffer_size < size_mod
    → build conf b ≡ some start
    → Logged conf texts start ms a
    → thread_step a.asyncworker ≡ some u
    → u.phase ≡ returned
    → (a.asyncworker.stop ≡ true) × All (λ s. s ≡ lines_of texts ms) u.sinks
delivered_whole {conf} {texts} {start} {a} {ms} {u} b small made logged e ended =
    let worker = built_with conf b start made in
    let none_yet =
      sym (ap (λ w. w.pushed) worker)
      ∙ new_worker-pushed conf b.async_type (sinks_or_stdout b.flushs) in
    let (reached, same) = Logged-Reach none_yet logged in
    let from_new = subst (λ w. Reach conf w a.asyncworker) (sym worker) reached in
    let (stopped, whole) =
      return_complete b.async_type (sinks_or_stdout b.flushs) small from_new e ended in
    (stopped, subst (λ k. All (λ s. s ≡ k) u.sinks) same whole)
