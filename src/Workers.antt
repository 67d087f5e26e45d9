-- ===== src/Workers.antt =====
-- The worker pool of database/workers.go: the goroutine of `dispatch`, the workers, and those who
-- submit and stop, as the steps that they take one after the other.
pub mod Steps
pub mod Order
pub mod Counts
pub mod Balance
pub mod Progress
use atomix_db.Prelude.{
  ℕ, ◌+◌, ◌-◌, ◌%◌, ◌≡◌, Bool, true, false, List, [], ◌∷◌, ◌++◌, ltb, if◌then◌else◌, length,
}

-- A task that is not nil, under a number that names it.
abbrev pub Task : Type 0
Task = ℕ

-- Where `dispatch` is: in its loop, in `runQueuedTasks`, where it ends its workers, and at its end.
pub data Phase : Type 0 where
  looping : Phase
  draining : Phase
  killing : Phase
  ended : Phase

-- `worker_count` and `idle` are variables of `dispatch`, `waiting` is an int32 by its bits, `closed`
-- says that taskQueue is closed. Of the workers, `ready` wait for a task and one runs each of `busy`;
-- `started` and `finished` are the tasks that workers were given and ran, in their order.
pub record WorkerPool : Type 0 where
  pub max_workers : ℕ
  pub waiting_queue : List Task
  pub waiting : ℕ
  pub wait : Bool
  pub closed : Bool
  pub phase : Phase
  pub worker_count : ℕ
  pub idle : Bool
  pub ready : ℕ
  pub busy : List Task
  pub started : List Task
  pub finished : List Task

unfoldable pub new_pool : ℕ → WorkerPool
new_pool max_workers = record {
  max_workers = if ltb max_workers 1 then 1 else max_workers;
  waiting_queue = [];
  waiting = 0;
  wait = false;
  closed = false;
  phase = looping;
  worker_count = 0;
  idle = false;
  ready = 0;
  busy = [];
  started = [];
  finished = [];
}

-- The queue with its length in `waiting`.
unfoldable pub set_queue : List Task → WorkerPool → WorkerPool
set_queue queue p = record p { waiting_queue = queue; waiting = length queue % 4294967296 }

-- A task is sent to workerQueue, where a worker takes it.
unfoldable pub give : Task → WorkerPool → WorkerPool
give task p = record p {
  ready = p.ready - 1;
  busy = task ∷ p.busy;
  started = p.started ++ (task ∷ []);
}

-- A new worker begins with the task.
unfoldable pub spawn : Task → WorkerPool → WorkerPool
spawn task p = record p {
  worker_count = p.worker_count + 1;
  busy = task ∷ p.busy;
  started = p.started ++ (task ∷ []);
}

-- `dispatch` receives a task where its queue is empty.
unfoldable pub receive : Task → WorkerPool → WorkerPool
unfolding set_queue give spawn
receive task p =
    let taken =
      if ltb 0 p.ready
      then give task p
      else if ltb p.worker_count p.max_workers
      then spawn task p
      else set_queue (p.waiting_queue ++ (task ∷ [])) p in
    record taken { idle = false }

-- `killIdleWorker`: whether a worker was ready to end, and the pool without it.
unfoldable pub kill_idle_worker : WorkerPool → Bool × WorkerPool
kill_idle_worker p = if ltb 0 p.ready then (true, record p { ready = p.ready - 1 }) else (false, p)

-- The timer of `dispatch` fires.
unfoldable pub timer_fired : WorkerPool → WorkerPool
unfolding kill_idle_worker
timer_fired p =
    let (killed, p') = kill_idle_worker p in
    let left = if killed then record p' { worker_count = p.worker_count - 1 } else p in
    record (if p.idle then (if ltb 0 p.worker_count then left else p) else p) { idle = true }

-- `processWaitingQueue` receives a task.
unfoldable pub queue_task : Task → WorkerPool → WorkerPool
unfolding set_queue
queue_task task p = set_queue (p.waiting_queue ++ (task ∷ [])) p

-- The front of the queue, with `rest` behind it, goes to a worker that is ready.
unfoldable pub next_task : Task → List Task → WorkerPool → WorkerPool
unfolding set_queue give
next_task front rest p = set_queue rest (give front p)

-- `stop`, where it is the first call.
unfoldable pub stop : Bool → WorkerPool → WorkerPool
stop wait p = record p { wait = wait; closed = true }

-- `dispatch` finds taskQueue closed.
unfoldable pub leave_loop : WorkerPool → WorkerPool
leave_loop p = record p { phase = if p.wait then draining else killing }

-- A worker that is ready is sent nil and ends.
unfoldable pub end_worker : WorkerPool → WorkerPool
end_worker p = record p { worker_count = p.worker_count - 1; ready = p.ready - 1 }

-- A worker is done with the task that stands between `before` and `after`.
unfoldable pub finish_task : List Task → Task → List Task → WorkerPool → WorkerPool
finish_task before task after p = record p {
  busy = before ++ after;
  ready = p.ready + 1;
  finished = p.finished ++ (task ∷ []);
}
