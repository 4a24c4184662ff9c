-- ===== src/LogSystem/Worker/Tests.antt =====
-- Runs of AsyncWorker.hpp at small inputs.
use kama_asyn_log_system_clo.LogSystem.Buffer
use kama_asyn_log_system_clo.LogSystem.Buffer.{Conf, Buffer, content, writeable_size}
use kama_asyn_log_system_clo.Base.{codes, ◌≡◌, refl, true, false, some, [], ◌∷◌, ◌++◌, arith}
use kama_asyn_log_system_clo.LogSystem.Worker.{
  async_safe, waiting, returned, new_worker, Reach, may_push, thread_step, producer_push, stop_call,
  thread_run, here, later, Worker,
}
use kama_asyn_log_system_clo.LogSystem.Worker.Invariant.{Inv, reachable-Inv}
use kama_asyn_log_system_clo.LogSystem.Worker.Drain.{Drained, thread_steps, stop_drains}
use kama_asyn_log_system_clo.LogSystem.Worker.Blocking.{safe_push_fits, too_long_blocks}

abbrev conf : Conf
conf = record { buffer_size = 4; threshold = 10; linear_growth = 5 }

abbrev empty : Buffer
empty = record { buffer = 0 ∷ 0 ∷ 0 ∷ 0 ∷ []; write_pos = 0; read_pos = 0 }

abbrev two : Buffer
two = record { buffer = codes "ab" ++ (0 ∷ 0 ∷ []); write_pos = 2; read_pos = 0 }

abbrev fresh : Worker
fresh = record {
  async_type = async_safe;
  stop = false;
  producer = empty;
  consumer = empty;
  phase = waiting;
  sinks = [] ∷ [];
  pushed = [];
}

-- "ab" was pushed.
abbrev loaded : Worker
loaded = record fresh { producer = two; pushed = codes "ab" }

abbrev stopped : Worker
stopped = record loaded { stop = true }

-- The thread has handed "ab" to the sink and waits again.
abbrev handed : Worker
handed = record stopped {
  producer = empty;
  consumer = record two { write_pos = 0 };
  sinks = codes "ab" ∷ [];
}

abbrev ended : Worker
ended = record handed { phase = returned }

loaded-Reach : Reach conf (new_worker conf async_safe ([] ∷ [])) loaded
unfolding new_worker may_push Buffer.push writeable_size
loaded-Reach = later {u = fresh} here (producer_push (codes "ab") refl refl)

stopped-Reach : Reach conf (new_worker conf async_safe ([] ∷ [])) stopped
stopped-Reach = later {u = loaded} loaded-Reach stop_call

handed-Reach : Reach conf (new_worker conf async_safe ([] ∷ [])) handed
unfolding thread_step content
handed-Reach =
    later (later (later stopped-Reach (thread_run refl)) (thread_run refl)) (thread_run refl)

handed_returns : thread_step handed ≡ some ended
unfolding thread_step
handed_returns = refl

reachable-Inv_example : Inv stopped
reachable-Inv_example = reachable-Inv async_safe ([] ∷ []) (omega arith) stopped-Reach

stop_drains_example : Drained stopped (thread_steps 6 stopped)
stop_drains_example = stop_drains async_safe ([] ∷ []) (omega arith) stopped-Reach refl (λ e. cc)

-- "cd" comes too late: the sink keeps "ab".
abbrev late : Worker
late = record ended {
  producer = record two { buffer = codes "cd" ++ (0 ∷ 0 ∷ []) };
  pushed = codes "abcd";
}

safe_push_fits_example : (b : Buffer) × (Buffer.push conf loaded.producer (codes "cd") ≡ some b)
unfolding may_push writeable_size
safe_push_fits_example =
    safe_push_fits async_safe ([] ∷ []) (codes "cd") (omega arith) (omega arith) loaded-Reach refl
      (omega arith) refl

too_long_blocks_example : may_push (thread_steps 9 loaded) (codes "too long") ≡ false
too_long_blocks_example =
    too_long_blocks async_safe ([] ∷ []) (codes "too long") 9 (omega arith) loaded-Reach
      (record { safe = refl; producer = omega arith; consumer = omega arith })
