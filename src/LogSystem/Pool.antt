-- ===== src/LogSystem/Pool.antt =====
-- The pool of threads: src/log_system/logs_code/ThreadPoll.hpp. A task is known by a number, and
-- each critical section of `queue_mutex` is one step.
pub mod Order
pub mod Joined
mod Tests
use kama_asyn_log_system_clo.Base.{
  if◌then◌else◌, ℕ, zero, suc, ◌≡◌, Bool, true, false, Option, none, some, List, [], ◌∷◌, ◌++◌,
}

-- Where a worker stands: before its wait, in a task, or at its end.
pub data Phase : Type 0 where
  waiting returned : Phase
  running : ℕ → Phase

-- `ThreadPool`, with what has been accepted, started and finished so far.
pub record Pool : Type 0 where
  pub workers : List Phase
  pub tasks : List ℕ
  pub stop : Bool
  pub accepted : List ℕ
  pub started : List ℕ
  pub finished : List ℕ

-- The constructor and its loop.
unfoldable pub start_workers : ℕ → List Phase
start_workers zero = []
start_workers (suc threads) = waiting ∷ start_workers threads

unfoldable pub new_pool : ℕ → Pool
new_pool threads = record {
  workers = start_workers threads;
  tasks = [];
  stop = false;
  accepted = [];
  started = [];
  finished = [];
}

-- `enqueue`; `none` is the exception.
unfoldable pub enqueue : ℕ → Pool → Option Pool
enqueue task p =
    if p.stop
    then none
    else some (record p { tasks = p.tasks ++ task ∷ []; accepted = p.accepted ++ task ∷ [] })

-- A worker that has been woken; `none` goes on waiting.
unfoldable pub take_task : List ℕ → Pool → Option (Phase × Pool)
take_task [] p = if p.stop then some (returned, p) else none
take_task (task ∷ tasks) p =
    some (running task, record p { tasks = tasks; started = p.started ++ task ∷ [] })

-- The next step of a worker.
unfoldable pub worker_step : Phase → Pool → Option (Phase × Pool)
worker_step waiting p = take_task p.tasks p
worker_step (running task) p = some (waiting, record p { finished = task ∷ p.finished })
worker_step returned p = none

-- The first half of the destructor.
unfoldable pub set_stop : Pool → Pool
set_stop p = record p { stop = true }

abbrev pub with_worker : List Phase → Phase → List Phase → Pool → Pool
with_worker before phase behind p = record p { workers = before ++ phase ∷ behind }

pub data Step : Pool → Pool → Type 0 where
  enqueues : {p q : Pool} (task : ℕ) → enqueue task p ≡ some q → Step p q
  stops : {p : Pool} → Step p (set_stop p)
  moves :
      {p q : Pool} (phase phase' : Phase) (before behind : List Phase)
      → p.workers ≡ before ++ phase ∷ behind
      → worker_step phase p ≡ some (phase', q)
      → Step p (with_worker before phase' behind q)

pub data Reach : Pool → Type 0 where
  begins : (threads : ℕ) → Reach (new_pool threads)
  goes_on : {p q : Pool} → Reach p → Step p q → Reach q
