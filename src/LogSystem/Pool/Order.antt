-- ===== src/LogSystem/Pool/Order.antt =====
-- Tasks start once, in the order in which they were accepted: src/log_system/logs_code/ThreadPoll.hpp.
use kama_asyn_log_system_clo.Base.{
  if◌then◌else◌, Bool-cases, some_eq, ℕ, ◌≡◌, refl, sym, ap, subst, ◌∙◌, inl, inr, none, some, List,
  [], ◌∷◌, ◌++◌, append_assoc, arith,
}
use kama_asyn_log_system_clo.LogSystem.Pool.{
  Phase, waiting, returned, running, Pool, new_pool, enqueue, take_task, worker_step, set_stop,
  enqueues, stops, moves, Reach, begins, goes_on,
}

abbrev pub InOrder : Pool → Type 0
InOrder p = p.accepted ≡ p.started ++ p.tasks

enqueue-InOrder : (task : ℕ) (p q : Pool) → InOrder p → enqueue task p ≡ some q → InOrder q
unfolding enqueue
enqueue-InOrder task p q h e = elim (Bool-cases p.stop) [
  | inl s ↦ ground (arith, s, e)
  | inr s ↦
      let same : some
            (record p { tasks = p.tasks ++ task ∷ []; accepted = p.accepted ++ task ∷ [] })
          ≡ some q =
        ap
          (λ b.
            if b
            then none
            else some
                (record p { tasks = p.tasks ++ task ∷ []; accepted = p.accepted ++ task ∷ [] }))
          (sym s)
        ∙ e in
      subst InOrder (some_eq same)
        (ap (λ k. k ++ task ∷ []) h ∙ append_assoc p.started p.tasks (task ∷ []))
]

take_task-InOrder :
    (tasks : List ℕ) (p q : Pool) (phase : Phase)
    → p.tasks ≡ tasks
    → InOrder p
    → take_task tasks p ≡ some (phase, q)
    → InOrder q
unfolding take_task
take_task-InOrder [] p q phase same h e = elim (Bool-cases p.stop) [
  | inl s ↦
      let there : some (returned, p) ≡ some (phase, q) =
        sym (ap (λ b. if b then some (returned, p) else none) s) ∙ e in
      subst InOrder (ap (λ x. x.1) (some_eq there)) h
  | inr s ↦ ground (arith, s, e)
]
take_task-InOrder (task ∷ tasks) p q phase same h e =
    subst InOrder (ap (λ x. x.1) (some_eq e))
      (h ∙ ap (λ k. p.started ++ k) same ∙ sym (append_assoc p.started (task ∷ []) tasks))

worker_step-InOrder :
    (before : Phase) (p q : Pool) (after : Phase)
    → InOrder p
    → worker_step before p ≡ some (after, q)
    → InOrder q
unfolding worker_step
worker_step-InOrder waiting p q after h e = take_task-InOrder p.tasks p q after refl h e
worker_step-InOrder (running task) p q after h e = subst InOrder (ap (λ x. x.1) (some_eq e)) h
worker_step-InOrder returned p q after h e = cc

-- In every state that can be reached, what has been started followed by what is queued is what
-- has been accepted: no task is lost or started twice, and they start in order.
pub reachable-InOrder : {p : Pool} → Reach p → InOrder p
unfolding new_pool set_stop
reachable-InOrder (begins threads) = refl
reachable-InOrder (goes_on {p} {q} reached (enqueues task e)) =
    enqueue-InOrder task p q (reachable-InOrder reached) e
reachable-InOrder (goes_on reached stops) = reachable-InOrder reached
reachable-InOrder (goes_on {p} reached (moves {q = q} phase phase' before behind at e)) =
    worker_step-InOrder phase p q phase' (reachable-InOrder reached) e
