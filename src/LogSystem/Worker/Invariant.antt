-- ===== src/LogSystem/Worker/Invariant.antt =====
-- No record is lost, doubled or reordered between `Push` and the sinks: AsyncWorker.hpp.
use kama_asyn_log_system_clo.Base.{
  some_eq, Bytes, All, All-imp, ◌<◌, ◌≡◌, refl, sym, ap, subst, ◌∙◌, ◌⊎◌, inl, inr, Bool, true,
  false, some, List, [], ◌∷◌, ◌++◌, map, append-nil, append_assoc, arith,
}
use kama_asyn_log_system_clo.LogSystem.Buffer
use kama_asyn_log_system_clo.LogSystem.Buffer.{
  Conf, Buffer, content, is_empty, size_mod, readable_size,
}
use kama_asyn_log_system_clo.LogSystem.Buffer.Content.{
  IsValid, push-content, reset-content, length-resize,
}
use kama_asyn_log_system_clo.LogSystem.Worker.{
  AsyncType, Phase, waiting, flushing, resetting, returned, Worker, take_over, thread_step_at,
  thread_step, Step, producer_push, stop_call, thread_run, new_worker, Reach, here, later,
}

-- The bytes that the thread has taken over and not yet handed to the sinks.
abbrev pub in_hand : Phase → Buffer → Bytes
in_hand flushing b = content b
in_hand _ b = []

-- The consumer's buffer is empty while the thread waits.
abbrev pub IsIdle : Phase → Buffer → Type 0
IsIdle waiting b = content b ≡ []
IsIdle returned b = content b ≡ []
IsIdle _ b = Unit

-- A sink together with the bytes in hand and the bytes in the producers' buffer is the history.
abbrev pub AccountsAt : Phase → Worker → Bytes → Type 0
AccountsAt p w sink = sink ++ (in_hand p w.consumer ++ content w.producer) ≡ w.pushed

-- The thread returns only behind `Stop`.
abbrev pub StopsLast : Phase → Bool → Type 0
StopsLast returned stop = stop ≡ true
StopsLast _ stop = Unit

pub record InvAt (p : Phase) (w : Worker) : Type 0 where
  pub producer_valid : IsValid w.producer
  pub consumer_valid : IsValid w.consumer
  pub idle : IsIdle p w.consumer
  pub stopped : StopsLast p w.stop
  pub accounts : All (AccountsAt p w) w.sinks

abbrev pub Inv : Worker → Type 0
Inv w = InvAt w.phase w

All-map {ℓ κ} :
    {A : Type ℓ} (P Q : A → Type κ) (f : A → A)
    → ((a : A) → P a → Q (f a))
    → (xs : List A) → All P xs
    → All Q (map f xs)
All-map P Q f step [] h = tt
All-map P Q f step (x ∷ xs) h = (step x h.0, All-map P Q f step xs h.1)

-- A push by a producer keeps the invariant.
push-Inv :
    (conf : Conf) (w : Worker) (bytes : Bytes) {b : Buffer}
    → Inv w
    → Buffer.push conf w.producer bytes ≡ some b
    → Inv (record w { producer = b; pushed = w.pushed ++ bytes })
push-Inv conf w bytes {b} inv h = record {
  producer_valid = pushed.0;
  consumer_valid = inv.consumer_valid;
  idle = inv.idle;
  stopped = inv.stopped;
  accounts =
      All-imp (AccountsAt w.phase w) _
        (λ s e. rw pushed.1 (
          ap (λ r. s ++ r) (sym (append_assoc hand (content w.producer) bytes))
          ∙ sym (append_assoc s (hand ++ content w.producer) bytes)
          ∙ ap (λ r. r ++ bytes) e))
        w.sinks inv.accounts;
}
  where
    pushed : IsValid b × (content b ≡ content w.producer ++ bytes)
    pushed = push-content conf bytes inv.producer_valid h

    hand : Bytes
    hand = in_hand w.phase w.consumer

-- Under the lock the thread returns, if it is stopped and nothing is left, or swaps the buffers,
-- if something is left.
pub take_over_cases :
    (w : Worker) {u : Worker}
    → take_over w ≡ some u
    → ((w.stop ≡ true) × (is_empty w.producer ≡ true) × (u ≡ record w { phase = returned }))
      ⊎ ((is_empty w.producer ≡ false)
          × (u ≡ record w { producer = w.consumer; consumer = w.producer; phase = flushing }))
unfolding take_over
take_over_cases w h = ground arith

take_over-Inv : (w : Worker) {u : Worker} → InvAt waiting w → take_over w ≡ some u → Inv u
take_over-Inv w {u} inv h = elim (take_over_cases w h) [
  | inl (stop, _, e) ↦ subst Inv (sym e) (record {
    producer_valid = inv.producer_valid;
    consumer_valid = inv.consumer_valid;
    idle = inv.idle;
    stopped = stop;
    accounts = inv.accounts;
  })
  | inr (_, e) ↦ subst Inv (sym e) (record {
    producer_valid = inv.consumer_valid;
    consumer_valid = inv.producer_valid;
    idle = tt;
    stopped = tt;
    accounts =
        All-imp (AccountsAt waiting w) _
          (λ s a.
            ap (λ r. s ++ (content w.producer ++ r)) inv.idle
            ∙ ap (λ r. s ++ r) (append-nil (content w.producer))
            ∙ a)
          w.sinks inv.accounts;
  })
]

thread_step_at-Inv :
    (p : Phase) (w : Worker) {u : Worker} → InvAt p w → thread_step_at p w ≡ some u → Inv u
unfolding thread_step_at
thread_step_at-Inv waiting w inv h = take_over-Inv w inv h
thread_step_at-Inv flushing w inv h = subst Inv (some_eq h) (record {
  producer_valid = inv.producer_valid;
  consumer_valid = inv.consumer_valid;
  idle = tt;
  stopped = tt;
  accounts =
      All-map (AccountsAt flushing w) _ (λ s. s ++ content w.consumer)
        (λ s e. append_assoc s (content w.consumer) (content w.producer) ∙ e) w.sinks inv.accounts;
})
thread_step_at-Inv resetting w inv h = subst Inv (some_eq h) (record {
  producer_valid = inv.producer_valid;
  consumer_valid = (reset-content inv.consumer_valid).0;
  idle = (reset-content inv.consumer_valid).1;
  stopped = tt;
  accounts = inv.accounts;
})
thread_step_at-Inv returned w inv h = cc

pub thread_step-Inv : (w : Worker) {u : Worker} → Inv w → thread_step w ≡ some u → Inv u
unfolding thread_step
thread_step-Inv w inv h = thread_step_at-Inv w.phase w inv h

-- Every step keeps the invariant.
pub Step-Inv : {conf : Conf} {w u : Worker} → Step conf w u → Inv w → Inv u
Step-Inv {conf} {w} (producer_push bytes _ h) inv = push-Inv conf w bytes inv h
Step-Inv {w} stop_call inv = record {
  producer_valid = inv.producer_valid;
  consumer_valid = inv.consumer_valid;
  idle = inv.idle;
  stopped = StopsLast-true w.phase;
  accounts = inv.accounts;
}
  where
    StopsLast-true : (p : Phase) → StopsLast p true
    StopsLast-true returned = refl
    StopsLast-true waiting = tt
    StopsLast-true flushing = tt
    StopsLast-true resetting = tt
Step-Inv {w} (thread_run h) inv = thread_step-Inv w inv h

fresh-content :
    (conf : Conf)
    → conf.buffer_size < size_mod
    → IsValid (Buffer.init conf) × (content (Buffer.init conf) ≡ [])
unfolding Buffer.init content readable_size
fresh-content conf h = (
  record {
    ordered = omega arith;
    inside = omega arith;
    small = omega (arith, length-resize [] conf.buffer_size);
  },
  refl,
)

pub new_worker-Inv :
    (conf : Conf) (type : AsyncType) (sinks : List Bytes)
    → conf.buffer_size < size_mod
    → Inv (new_worker conf type sinks)
unfolding new_worker
new_worker-Inv conf type sinks h = record {
  producer_valid = (fresh-content conf h).0;
  consumer_valid = (fresh-content conf h).0;
  idle = (fresh-content conf h).1;
  stopped = tt;
  accounts = nothing sinks;
}
  where
    nothing :
        (xs : List Bytes)
        → All (λ s. s ++ ([] ++ content (Buffer.init conf)) ≡ []) (map (λ _. []) xs)
    nothing [] = tt
    nothing (x ∷ xs) = ((fresh-content conf h).1, nothing xs)

Reach-Inv : {conf : Conf} {w u : Worker} → Inv w → Reach conf w u → Inv u
Reach-Inv inv here = inv
Reach-Inv inv (later r s) = Step-Inv s (Reach-Inv inv r)

-- From a new worker whose buffers fit in 64 bits, however producers, `Stop` and the thread
-- interleave: what any sink has been given, followed by the bytes in the thread's hands and the
-- bytes still in the producers' buffer, is exactly what was pushed, in order. Both buffers stay
-- valid, and the thread has returned only after `Stop`.
pub reachable-Inv :
    {conf : Conf} (type : AsyncType) (sinks : List Bytes) {w : Worker}
    → conf.buffer_size < size_mod
    → Reach conf (new_worker conf type sinks) w
    → Inv w
reachable-Inv {conf} type sinks h r = Reach-Inv (new_worker-Inv conf type sinks h) r
