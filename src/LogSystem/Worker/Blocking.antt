-- ===== src/LogSystem/Worker/Blocking.antt =====
-- The wait of `Push` in safe mode: AsyncWorker.hpp.
use kama_asyn_log_system_clo.Base.{
  leb, leb→le, Bytes, length, ℕ, ◌^◌, ◌≤◌, ◌<◌, ◌≡◌, true, false, some, List, arith,
}
use kama_asyn_log_system_clo.LogSystem.Buffer
use kama_asyn_log_system_clo.LogSystem.Buffer.{Conf, Buffer, writeable_size}
use kama_asyn_log_system_clo.LogSystem.Buffer.Content.{writeable_size_lem}
use kama_asyn_log_system_clo.LogSystem.Buffer.Growth.{push_fits}
use kama_asyn_log_system_clo.LogSystem.Worker.{
  AsyncType, async_safe, async_unsafe, Phase, waiting, Worker, take_over, may_push, thread_step_at,
  thread_step, new_worker, Reach,
}
use kama_asyn_log_system_clo.LogSystem.Worker.Invariant.{Inv, thread_step-Inv, reachable-Inv}
use kama_asyn_log_system_clo.LogSystem.Worker.Drain.{thread_steps, thread_steps_keep}

-- Let the buffer size of the configuration be below 2 ^ 64 and its linear growth below 2 ^ 63. In
-- safe mode a producer that passes its wait never writes behind the storage, in any state that is
-- reachable from a new worker and whose producers' storage is below 2 GiB.
pub safe_push_fits :
    {conf : Conf} (type : AsyncType) (sinks : List Bytes) {w : Worker} (bytes : Bytes)
    → conf.buffer_size < Buffer.size_mod
    → conf.linear_growth < 2 ^ 63
    → Reach conf (new_worker conf type sinks) w
    → w.async_type ≡ async_safe
    → length w.producer.buffer < 2 ^ 31
    → may_push w bytes ≡ true
    → (b : Buffer) × (Buffer.push conf w.producer bytes ≡ some b)
unfolding may_push
safe_push_fits {conf} type sinks {w} bytes small lin r safe size h =
    push_fits conf bytes (reachable-Inv type sinks small r).producer_valid size lin
      (fits w.async_type safe h)
  where
    fits :
        (t : AsyncType)
        → t ≡ async_safe
        → (elim t [
          | async_safe ↦ leb (length bytes) (writeable_size w.producer)
          | async_unsafe ↦ true
        ])
          ≡ true
        → length bytes ≤ writeable_size w.producer
    fits async_safe _ e = leb→le _ _ e
    fits async_unsafe e _ = cc

-- A record longer than both storages.
pub record IsTooLong (bytes : Bytes) (w : Worker) : Type 0 where
  pub safe : w.async_type ≡ async_safe
  pub producer : length w.producer.buffer < length bytes
  pub consumer : length w.consumer.buffer < length bytes

thread_step_at-IsTooLong :
    (bytes : Bytes) (p : Phase) {w u : Worker}
    → thread_step_at p w ≡ some u
    → IsTooLong bytes w
    → IsTooLong bytes u
unfolding thread_step_at take_over
thread_step_at-IsTooLong bytes waiting h t = ground arith
thread_step_at-IsTooLong bytes _ h t = ground arith

-- In a state reachable from a new worker whose buffers fit in 64 bits, a producer whose record is
-- longer than both storages does not pass its wait in safe mode, however far the thread runs.
pub too_long_blocks :
    {conf : Conf} (type : AsyncType) (sinks : List Bytes) {w : Worker} (bytes : Bytes) (n : ℕ)
    → conf.buffer_size < Buffer.size_mod
    → Reach conf (new_worker conf type sinks) w
    → IsTooLong bytes w
    → may_push (thread_steps n w) bytes ≡ false
unfolding may_push thread_step
too_long_blocks type sinks {w} bytes n small r t =
    ground (arith, long.safe, long.producer, writeable_size_lem inv.producer_valid)
  where
    long : IsTooLong bytes (thread_steps n w)
    long =
        thread_steps_keep (IsTooLong bytes) (λ v u l e. thread_step_at-IsTooLong bytes v.phase e l)
          n w t

    inv : Inv (thread_steps n w)
    inv =
        thread_steps_keep Inv (λ v u i e. thread_step-Inv v i e) n w
          (reachable-Inv type sinks small r)
