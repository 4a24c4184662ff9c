-- ===== src/LogSystem/Pool/Joined.antt =====
-- What a worker that has returned means: src/log_system/logs_code/ThreadPoll.hpp.
use kama_asyn_log_system_clo.Base.{
  if◌then◌else◌, Bool-cases, some_eq, length, length-append, ℕ, zero, suc, ◌+◌, ◌<◌, ◌≡◌, refl, sym,
  ap, subst, ◌∙◌, inl, inr, true, none, some, List, [], ◌∷◌, ◌++◌, append-nil, arith,
}
use kama_asyn_log_system_clo.LogSystem.Pool.{
  Phase, waiting, returned, running, Pool, new_pool, start_workers, enqueue, take_task, worker_step,
  set_stop, with_worker, enqueues, stops, moves, Reach, begins, goes_on,
}
use kama_asyn_log_system_clo.LogSystem.Pool.Order.{reachable-InOrder}

-- How many workers have returned, and how many are in a task.
unfoldable pub has_returned : Phase → ℕ
has_returned waiting = 0
has_returned returned = 1
has_returned (running task) = 0

unfoldable pub is_running : Phase → ℕ
is_running waiting = 0
is_running returned = 0
is_running (running task) = 1

unfoldable pub count : (Phase → ℕ) → List Phase → ℕ
count f [] = 0
count f (phase ∷ workers) = f phase + count f workers

count-append :
    (f : Phase → ℕ) (before : List Phase) (phase : Phase) (behind : List Phase)
    → count f (before ++ phase ∷ behind) ≡ f phase + (count f before + count f behind)
unfolding count
count-append f [] phase behind = omega arith
count-append f (x ∷ before) phase behind =
    let rest = count-append f before phase behind in omega (arith, rest)

count-start_workers :
    (f : Phase → ℕ) (threads : ℕ) → f waiting ≡ 0 → count f (start_workers threads) ≡ 0
unfolding count start_workers
count-start_workers f zero h = refl
count-start_workers f (suc n) h = let rest = count-start_workers f n h in omega (arith, rest, h)

-- Once a worker has returned, the pool is stopped and nothing is queued. Every started task is
-- finished or in a worker.
pub record IsJoined (p : Pool) : Type 0 where
  pub stopped : 0 < count has_returned p.workers → p.stop ≡ true
  pub emptied : 0 < count has_returned p.workers → p.tasks ≡ []
  pub accounted : length p.started ≡ length p.finished + count is_running p.workers

enqueue-IsJoined : (task : ℕ) (p q : Pool) → IsJoined p → enqueue task p ≡ some q → IsJoined q
unfolding enqueue
enqueue-IsJoined task p q h e = elim (Bool-cases p.stop) [
  | inl s ↦ ground (arith, s, e)
  | inr s ↦
      let same : some
            (record p { tasks = p.tasks ++ task ∷ []; accepted = p.accepted ++ task ∷ [] })
          ≡ some q =
        ap
          (λ b.
            if b
            then none
            else some
                (record p { tasks = p.tasks ++ task ∷ []; accepted = p.accepted ++ task ∷ [] }))
          (sym s)
        ∙ e in
      subst IsJoined (some_eq same) (record {
        stopped = h.stopped;
        emptied = λ k. (let bad = h.stopped k in cc);
        accounted = h.accounted;
      })
]

stop-IsJoined : (p : Pool) → IsJoined p → IsJoined (set_stop p)
unfolding set_stop
stop-IsJoined p h = record { stopped = λ k. refl; emptied = h.emptied; accounted = h.accounted }

new_pool-IsJoined : (threads : ℕ) → IsJoined (new_pool threads)
unfolding new_pool has_returned is_running
new_pool-IsJoined threads =
    let none_returned = count-start_workers has_returned threads refl in
    let none_running = count-start_workers is_running threads refl in
    record {
      stopped = λ k. ground (arith, k, none_returned);
      emptied = λ k. refl;
      accounted = ap (λ n. 0 + n) (sym none_running);
    }

module _ (p : Pool) (before behind : List Phase) (h : IsJoined p) where
  -- A worker that goes from one phase to another.
  counted :
      (f : Phase → ℕ) (phase : Phase)
      → p.workers ≡ before ++ phase ∷ behind
      → count f p.workers ≡ f phase + (count f before + count f behind)
  counted f phase at = ap (count f) at ∙ count-append f before phase behind

  returns-IsJoined :
      p.workers ≡ before ++ waiting ∷ behind
      → p.stop ≡ true
      → p.tasks ≡ []
      → IsJoined (with_worker before returned behind p)
  unfolding is_running
  returns-IsJoined at stop empty =
      let old = counted is_running waiting at in
      let new = count-append is_running before returned behind in
      let all = h.accounted in
      record { stopped = λ k. stop; emptied = λ k. empty; accounted = omega (arith, old, new, all) }

  starts-IsJoined :
      (task : ℕ) (tasks : List ℕ)
      → p.workers ≡ before ++ waiting ∷ behind
      → p.tasks ≡ task ∷ tasks
      → IsJoined (
          with_worker before
            (running task)
            behind
            (record p { tasks = tasks; started = p.started ++ task ∷ [] }))
  unfolding is_running has_returned
  starts-IsJoined task tasks at queued =
      let old = counted is_running waiting at in
      let new = count-append is_running before (running task) behind in
      let old_returned = counted has_returned waiting at in
      let new_returned = count-append has_returned before (running task) behind in
      let same = new_returned ∙ sym old_returned in
      let all = h.accounted in
      let more = length-append p.started (task ∷ []) in
      record {
        stopped = λ k. h.stopped (subst (λ n. 0 < n) same k);
        emptied = λ k. (let none_queued = h.emptied (subst (λ n. 0 < n) same k) in cc);
        accounted = omega (arith, old, new, all, more);
      }

  finishes-IsJoined :
      (task : ℕ)
      → p.workers ≡ before ++ running task ∷ behind
      → IsJoined (with_worker before waiting behind (record p { finished = task ∷ p.finished }))
  unfolding is_running has_returned
  finishes-IsJoined task at =
      let old = counted is_running (running task) at in
      let new = count-append is_running before waiting behind in
      let old_returned = counted has_returned (running task) at in
      let new_returned = count-append has_returned before waiting behind in
      let same = new_returned ∙ sym old_returned in
      let all = h.accounted in
      record {
        stopped = λ k. h.stopped (subst (λ n. 0 < n) same k);
        emptied = λ k. h.emptied (subst (λ n. 0 < n) same k);
        accounted = omega (arith, old, new, all);
      }

  take_task-IsJoined :
      (tasks : List ℕ) (q : Pool) (after : Phase)
      → p.workers ≡ before ++ waiting ∷ behind
      → p.tasks ≡ tasks
      → take_task tasks p ≡ some (after, q)
      → IsJoined (with_worker before after behind q)
  unfolding take_task
  take_task-IsJoined [] q after at queued e = elim (Bool-cases p.stop) [
    | inl s ↦
        let there : some (returned, p) ≡ some (after, q) =
          sym (ap (λ b. if b then some (returned, p) else none) s) ∙ e in
        subst (λ x. IsJoined (with_worker before x.0 behind x.1)) (some_eq there)
          (returns-IsJoined at s queued)
    | inr s ↦ ground (arith, s, e)
  ]
  take_task-IsJoined (task ∷ tasks) q after at queued e =
      subst (λ x. IsJoined (with_worker before x.0 behind x.1)) (some_eq e)
        (starts-IsJoined task tasks at queued)

  worker_step-IsJoined :
      (phase : Phase) (q : Pool) (after : Phase)
      → p.workers ≡ before ++ phase ∷ behind
      → worker_step phase p ≡ some (after, q)
      → IsJoined (with_worker before after behind q)
  unfolding worker_step
  worker_step-IsJoined waiting q after at e = take_task-IsJoined p.tasks q after at refl e
  worker_step-IsJoined (running task) q after at e =
      subst (λ x. IsJoined (with_worker before x.0 behind x.1)) (some_eq e)
        (finishes-IsJoined task at)
  worker_step-IsJoined returned q after at e = cc

reachable-IsJoined : {p : Pool} → Reach p → IsJoined p
reachable-IsJoined (begins threads) = new_pool-IsJoined threads
reachable-IsJoined (goes_on {p} {q} reached (enqueues task e)) =
    enqueue-IsJoined task p q (reachable-IsJoined reached) e
reachable-IsJoined (goes_on {p} reached stops) = stop-IsJoined p (reachable-IsJoined reached)
reachable-IsJoined (goes_on {p} reached (moves {q = q} phase phase' before behind at e)) =
    worker_step-IsJoined p before behind (reachable-IsJoined reached) phase q phase' at e

-- Every worker has returned.
unfoldable pub AllReturned : List Phase → Type 0
AllReturned [] = Unit
AllReturned (phase ∷ workers) = (phase ≡ returned) × AllReturned workers

counted_returned :
    (workers : List Phase)
    → AllReturned workers
    → (count has_returned workers ≡ length workers) × (count is_running workers ≡ 0)
unfolding AllReturned count has_returned is_running
counted_returned [] h = (refl, refl)
counted_returned (phase ∷ workers) (here, rest) =
    let (whole, zeros) = counted_returned workers rest in
    let one : has_returned phase ≡ 1 = ap has_returned here in
    let none_running : is_running phase ≡ 0 = ap is_running here in
    (omega (arith, whole, one), omega (arith, zeros, none_running))

-- What the joins of the destructor wait for: where a pool of at least one worker has come to a
-- state in which every worker has returned, every task that was ever accepted has been started, in
-- the order in which they were accepted, and as many have been finished.
pub joined_complete :
    {p : Pool}
    → Reach p
    → 0 < length p.workers
    → AllReturned p.workers
    → (p.started ≡ p.accepted) × (length p.finished ≡ length p.accepted)
joined_complete {p} reached some_workers all =
    let h = reachable-IsJoined reached in
    let (whole, zeros) = counted_returned p.workers all in
    let queued = h.emptied (subst (λ n. 0 < n) (sym whole) some_workers) in
    let same =
      sym (append-nil p.started)
      ∙ ap (λ k. p.started ++ k) (sym queued)
      ∙ sym (reachable-InOrder reached) in
    let started_all = h.accounted in
    let as_many = ap length same in (same, omega (arith, started_all, zeros, as_many))
