-- ===== src/LogSystem/Worker/Drain.antt =====
-- What `Stop` and the destructor rely on: once stopped, the thread drains the buffers and returns
-- (AsyncWorker.hpp), and behind its return nothing reaches a sink.
use kama_asyn_log_system_clo.Base.{
  if◌then◌else◌, Bool-cases, Option-cases, Bytes, All, All-imp, ℕ, zero, suc, ◌+◌, ◌≤◌, ◌<◌, ◌≡◌,
  refl, sym, ap, subst, ◌∙◌, ◌≢◌, ◌⊎◌, inl, inr, true, none, some, List, ◌++◌, append-nil, arith,
}
use kama_asyn_log_system_clo.LogSystem.Buffer
use kama_asyn_log_system_clo.LogSystem.Buffer.{Conf, Buffer, is_empty, reset}
use kama_asyn_log_system_clo.LogSystem.Buffer.Content.{is_empty-content}
use kama_asyn_log_system_clo.LogSystem.Worker.{
  here, later, AsyncType, Phase, waiting, flushing, resetting, returned, Worker, real_flush,
  take_over, thread_step_at, thread_step, producer_push, stop_call, thread_run, new_worker, Reach,
}
use kama_asyn_log_system_clo.LogSystem.Worker.Invariant.{
  InvAt, Inv, AccountsAt, thread_step-Inv, reachable-Inv, take_over_cases,
}

-- `n` steps of the thread with nobody in between; a thread that waits or has returned stays.
unfoldable pub thread_steps : ℕ → Worker → Worker
thread_steps zero w = w
thread_steps (suc n) w = elim (thread_step w) [ none ↦ w | some u ↦ thread_steps n u ]

-- What every step of the thread keeps, any number of them keeps.
pub thread_steps_keep {ℓ} :
    (P : Worker → Type ℓ)
    → ((w u : Worker) → P w → thread_step w ≡ some u → P u)
    → (n : ℕ) (w : Worker) → P w
    → P (thread_steps n w)
unfolding thread_steps
thread_steps_keep P keep zero w h = h
thread_steps_keep P keep (suc n) w h = elim (Option-cases (thread_step w)) [
  | inl e ↦ rw (e, thread_steps) h
  | inr (u, e) ↦ rw (e, thread_steps) (thread_steps_keep P keep n u (keep w u h e))
]

-- How many steps the thread of a stopped worker has before it, if nothing more is pushed.
abbrev place : Phase → ℕ
place waiting = 1
place resetting = 2
place flushing = 3
place returned = 0

abbrev left : Buffer → ℕ
left b = if is_empty b then 0 else 3

-- The thread of a stopped worker goes on until it returns, and then has left nothing.
record Progress (p : Phase) (w u : Worker) : Type 0 where
  step : thread_step_at p w ≡ some u
  stop : u.stop ≡ true
  pushed : u.pushed ≡ w.pushed
  nearer : place u.phase + left u.producer < place p + left w.producer
  empty : u.phase ≡ returned → is_empty u.producer ≡ true

Progress-at :
    (p : Phase) (w : Worker)
    → InvAt p w
    → w.stop ≡ true
    → p ≢ returned
    → (u : Worker) × Progress p w u
unfolding thread_step_at take_over
Progress-at waiting w inv stop ne = elim (Bool-cases (is_empty w.producer)) [
  | inl e ↦ (record w { phase = returned }, ground arith)
  | inr e ↦ (
    record w { producer = w.consumer; consumer = w.producer; phase = flushing },
    ground (arith, (is_empty-content inv.consumer_valid).1 inv.idle),
  )
]
Progress-at flushing w inv stop ne =
    (record w { sinks = real_flush w.consumer w.sinks; phase = resetting }, ground arith)
Progress-at resetting w inv stop ne =
    (record w { consumer = reset w.consumer; phase = waiting }, ground arith)
Progress-at returned w inv stop ne = absurd (ne refl)

progress :
    (w : Worker) → Inv w → w.stop ≡ true → w.phase ≢ returned → (u : Worker) × Progress w.phase w u
progress w = Progress-at w.phase w

-- At a return with nothing left every sink has been given all that was pushed.
empty-flushed :
    (p : Phase) (w : Worker)
    → InvAt p w
    → p ≡ returned
    → is_empty w.producer ≡ true
    → All (λ s. s ≡ w.pushed) w.sinks
empty-flushed returned w inv _ e =
    All-imp (AccountsAt returned w) _
      (λ s a.
        sym (append-nil s) ∙ ap (λ r. s ++ r) (sym ((is_empty-content inv.producer_valid).0 e)) ∙ a)
      w.sinks inv.accounts
empty-flushed waiting w inv h e = cc
empty-flushed flushing w inv h e = cc
empty-flushed resetting w inv h e = cc

-- What the thread of a stopped worker has done when it returns.
abbrev pub Drained : Worker → Worker → Type 0
Drained w u = (u.phase ≡ returned) × (u.pushed ≡ w.pushed) × All (λ s. s ≡ w.pushed) u.sinks

place-pos : (p : Phase) → p ≢ returned → 0 < place p
place-pos returned h = absurd (h refl)
place-pos waiting h = omega arith
place-pos flushing h = omega arith
place-pos resetting h = omega arith

returned_cases : (p : Phase) → (p ≡ returned) ⊎ (p ≢ returned)
returned_cases returned = inl refl
returned_cases waiting = inr (λ e. cc)
returned_cases flushing = inr (λ e. cc)
returned_cases resetting = inr (λ e. cc)

-- A thread that has returned makes no more steps.
thread_steps-returned : (n : ℕ) (w : Worker) → w.phase ≡ returned → thread_steps n w ≡ w
unfolding thread_steps thread_step thread_step_at
thread_steps-returned zero w h = refl
thread_steps-returned (suc n) w h = rw h

thread_steps-suc :
    (n : ℕ) (w u : Worker) → thread_step w ≡ some u → thread_steps (suc n) w ≡ thread_steps n u
unfolding thread_steps
thread_steps-suc n w u h = ground arith

thread_steps-Drained :
    (n : ℕ) (w : Worker)
    → Inv w
    → w.stop ≡ true
    → w.phase ≢ returned
    → place w.phase + left w.producer ≤ n
    → Drained w (thread_steps n w)
thread_steps-Drained zero w inv stop ne enough = absurd (omega (arith, place-pos w.phase ne))
thread_steps-Drained (suc n) w inv stop ne enough =
    let (u, p) = progress w inv stop ne in
    let go : thread_step w ≡ some u = unfold thread_step in p.step in
    let inv' : Inv u = thread_step-Inv w inv go in
    subst (Drained w) (sym (thread_steps-suc n w u go)) (elim (returned_cases u.phase) [
      | inl e ↦
          rw (thread_steps-returned n u e)
            (e, p.pushed, rw (← p.pushed) (empty-flushed u.phase u inv' e (p.empty e)))
      | inr more ↦
          rw (← p.pushed) (thread_steps-Drained n u inv' p.stop more (omega (arith, p.nearer)))
    ])

-- In a state reachable from a new worker whose buffers fit in 64 bits: once `Stop` was called and
-- nobody pushes any more, a thread that has not returned does so within six of its steps, wherever
-- it stands, and every sink has then been given exactly what was pushed, in order.
pub stop_drains :
    {conf : Conf} (type : AsyncType) (sinks : List Bytes) {w : Worker}
    → conf.buffer_size < Buffer.size_mod
    → Reach conf (new_worker conf type sinks) w
    → w.stop ≡ true
    → w.phase ≢ returned
    → Drained w (thread_steps 6 w)
stop_drains type sinks {w} small r stop ne =
    thread_steps-Drained 6 w (reachable-Inv type sinks small r) stop ne (at_most w.phase w.producer)
  where
    at_most : (p : Phase) (b : Buffer) → place p + left b ≤ 6
    at_most waiting b = ground arith
    at_most flushing b = ground arith
    at_most resetting b = ground arith
    at_most returned b = ground arith

return_at :
    (p : Phase) (w : Worker) {u : Worker}
    → InvAt p w
    → thread_step_at p w ≡ some u
    → u.phase ≡ returned
    → (w.stop ≡ true) × All (λ s. s ≡ w.pushed) u.sinks
unfolding thread_step_at
return_at waiting w {u} inv h e = elim (take_over_cases w h) [
  | inl (stop, none_left, same) ↦ rw same (
    stop,
    empty-flushed returned w
        (record {
          producer_valid = inv.producer_valid;
          consumer_valid = inv.consumer_valid;
          idle = inv.idle;
          stopped = stop;
          accounts = inv.accounts;
        })
        refl none_left,
  )
  | inr (_, same) ↦ cc
]
return_at flushing w inv h e = ground arith
return_at resetting w inv h e = ground arith
return_at returned w inv h e = ground arith

-- In a state reachable from a new worker whose buffers fit in 64 bits, whenever the thread
-- returns, `Stop` was called and every sink holds all that was pushed.
pub return_complete :
    {conf : Conf} (type : AsyncType) (sinks : List Bytes) {w u : Worker}
    → conf.buffer_size < Buffer.size_mod
    → Reach conf (new_worker conf type sinks) w
    → thread_step w ≡ some u
    → u.phase ≡ returned
    → (w.stop ≡ true) × All (λ s. s ≡ w.pushed) u.sinks
unfolding thread_step
return_complete type sinks {w} small r h e =
    return_at w.phase w (reachable-Inv type sinks small r) h e

-- Behind its return the thread takes nothing over: whatever is pushed then reaches no sink.
pub returned_forever :
    {conf : Conf} {w u : Worker}
    → Reach conf w u
    → w.phase ≡ returned
    → (u.phase ≡ returned) × (u.sinks ≡ w.sinks)
unfolding thread_step thread_step_at
returned_forever here h = (h, refl)
returned_forever (later r (producer_push bytes _ _)) h = returned_forever r h
returned_forever (later r stop_call) h = returned_forever r h
returned_forever (later r (thread_run s)) h = ground (arith, returned_forever r h)
