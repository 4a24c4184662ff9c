-- ===== src/LogSystem/Pool/Tests.antt =====
-- Runs of the pool of threads: src/log_system/logs_code/ThreadPoll.hpp.
use kama_asyn_log_system_clo.Base.{
  length, ◌<◌, ◌≡◌, refl, true, false, none, some, [], ◌∷◌, ◌++◌, arith,
}
use kama_asyn_log_system_clo.LogSystem.Pool.{
  waiting, returned, running, Pool, new_pool, start_workers, enqueue, take_task, worker_step,
  set_stop, with_worker, Step, enqueues, stops, moves, Reach, begins, goes_on,
}
use kama_asyn_log_system_clo.LogSystem.Pool.Joined.{AllReturned, joined_complete}
use kama_asyn_log_system_clo.LogSystem.Pool.Order.{reachable-InOrder}

-- A pool of two threads.
abbrev idle : Pool
idle = new_pool 2

-- Two tasks have been accepted, and the second thread has started the first.
abbrev pub busy : Pool
busy = record {
  workers = waiting ∷ running 7 ∷ [];
  tasks = 9 ∷ [];
  stop = false;
  accepted = 7 ∷ 9 ∷ [];
  started = 7 ∷ [];
  finished = [];
}

abbrev pub one_queued : Pool
one_queued = record idle { tasks = 7 ∷ []; accepted = 7 ∷ [] }

abbrev pub two_queued : Pool
two_queued = record idle { tasks = 7 ∷ 9 ∷ []; accepted = 7 ∷ 9 ∷ [] }

first_accepted : Step idle one_queued
unfolding enqueue new_pool start_workers
first_accepted = enqueues {p = idle} {q = one_queued} 7 refl

second_accepted : Step one_queued two_queued
unfolding enqueue new_pool start_workers
second_accepted = enqueues {p = one_queued} {q = two_queued} 9 refl

first_started : Step two_queued (
    with_worker
      (waiting ∷ [])
      (running 7)
      []
      (record two_queued { tasks = 9 ∷ []; started = 7 ∷ [] }))
unfolding worker_step take_task new_pool start_workers
first_started =
    moves {p = two_queued} {q = record two_queued { tasks = 9 ∷ []; started = 7 ∷ [] }} waiting
      (running 7) (waiting ∷ []) [] refl refl

abbrev busy_reached : Reach busy
unfolding new_pool start_workers
busy_reached = goes_on (goes_on (goes_on (begins 2) first_accepted) second_accepted) first_started

stopped_refuses : enqueue 8 (set_stop busy) ≡ none
unfolding enqueue set_stop
stopped_refuses = refl

stopped_goes_on :
    worker_step waiting (set_stop busy)
    ≡ some (running 9, record busy { tasks = []; stop = true; started = 7 ∷ 9 ∷ [] })
unfolding worker_step take_task set_stop
stopped_goes_on = refl

-- The accepted tasks are the started one and the queued one.
reachable-InOrder_example : busy.accepted ≡ busy.started ++ busy.tasks
reachable-InOrder_example = reachable-InOrder busy_reached

-- A pool of one thread runs one task and is destroyed.
abbrev pub accepted_one : Pool
accepted_one = record {
  workers = waiting ∷ [];
  tasks = 5 ∷ [];
  stop = false;
  accepted = 5 ∷ [];
  started = [];
  finished = [];
}

abbrev pub in_task : Pool
in_task = record accepted_one { workers = running 5 ∷ []; tasks = []; started = 5 ∷ [] }

abbrev pub stopped_in_task : Pool
stopped_in_task = record in_task { stop = true }

abbrev pub task_done : Pool
task_done = record stopped_in_task { workers = waiting ∷ []; finished = 5 ∷ [] }

abbrev pub all_done : Pool
all_done = record task_done { workers = returned ∷ [] }

one_accepted : Step (new_pool 1) accepted_one
unfolding enqueue new_pool start_workers
one_accepted = enqueues {p = new_pool 1} {q = accepted_one} 5 refl

one_started : Step accepted_one in_task
unfolding worker_step take_task
one_started =
    moves {p = accepted_one} {q = record accepted_one { tasks = []; started = 5 ∷ [] }} waiting
      (running 5) [] [] refl refl

one_stopped : Step in_task stopped_in_task
unfolding set_stop
one_stopped = stops {p = in_task}

one_finished : Step stopped_in_task task_done
unfolding worker_step
one_finished =
    moves {p = stopped_in_task} {q = record stopped_in_task { finished = 5 ∷ [] }} (running 5)
      waiting [] [] refl refl

one_returned : Step task_done all_done
unfolding worker_step take_task
one_returned = moves {p = task_done} {q = task_done} waiting returned [] [] refl refl

abbrev all_done_reached : Reach all_done
all_done_reached =
    goes_on
      (goes_on (goes_on (goes_on (goes_on (begins 1) one_accepted) one_started) one_stopped)
        one_finished)
      one_returned

one_worker : 0 < length all_done.workers
one_worker = omega arith

all_done_returned : AllReturned all_done.workers
unfolding AllReturned
all_done_returned = (refl, tt)

joined_complete_example :
    (all_done.started ≡ all_done.accepted) × (length all_done.finished ≡ length all_done.accepted)
joined_complete_example = joined_complete all_done_reached one_worker all_done_returned
