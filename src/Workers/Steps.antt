-- ===== src/Workers/Steps.antt =====
-- The steps of the pool of database/workers.go, with the tasks that are submitted in each.
use atomix_db.Prelude.{
  ℕ, ◌-◌, ◌<◌, ◌≤◌, ◌≡◌, refl, inl, inr, Bool, true, false, List, [], ◌∷◌, ◌++◌, ltb, Bool-cases,
  arith,
}
use atomix_db.Workers.{
  Task, looping, draining, killing, ended, WorkerPool, give, spawn, receive, kill_idle_worker,
  timer_fired, queue_task, next_task, stop, leave_loop, end_worker, finish_task,
}

-- One step. An unbuffered channel passes a task on where both sides are ready for it.
pub data Step (p : WorkerPool) : List Task → WorkerPool → Type 0 where
  submitted :
      (task : Task)
      → p.phase ≡ looping
      → p.closed ≡ false
      → p.waiting_queue ≡ []
      → Step p (task ∷ []) (receive task p)
  submitted_behind :
      (front : Task) (rest : List Task) (task : Task)
      → p.phase ≡ looping
      → p.closed ≡ false
      → p.waiting_queue ≡ front ∷ rest
      → Step p (task ∷ []) (queue_task task p)
  handed :
      (front : Task) (rest : List Task)
      → p.phase ≡ looping
      → p.waiting_queue ≡ front ∷ rest
      → 0 < p.ready
      → Step p [] (next_task front rest p)
  timed : p.phase ≡ looping → p.waiting_queue ≡ [] → Step p [] (timer_fired p)
  finished :
      (before : List Task) (task : Task) (after : List Task)
      → p.busy ≡ before ++ (task ∷ after)
      → Step p [] (finish_task before task after p)
  stopped : (wait : Bool) → p.closed ≡ false → Step p [] (stop wait p)
  left : p.phase ≡ looping → p.closed ≡ true → Step p [] (leave_loop p)
  drained :
      (front : Task) (rest : List Task)
      → p.phase ≡ draining
      → p.waiting_queue ≡ front ∷ rest
      → 0 < p.ready
      → Step p [] (next_task front rest p)
  emptied : p.phase ≡ draining → p.waiting_queue ≡ [] → Step p [] (record p { phase = killing })
  killed : p.phase ≡ killing → 0 < p.worker_count → 0 < p.ready → Step p [] (end_worker p)
  over : p.phase ≡ killing → p.worker_count ≡ 0 → Step p [] (record p { phase = ended })

-- Steps from one pool to another, with the tasks submitted on the way.
pub data Steps (p : WorkerPool) : List Task → WorkerPool → Type 0 where
  here : Steps p [] p
  next : {ts us : List Task} {q r : WorkerPool} → Steps p ts q → Step q us r → Steps p (ts ++ us) r

less_of : (a b : ℕ) → ltb a b ≡ true → a < b
less_of a b h = ground arith

least_of : (a b : ℕ) → ltb a b ≡ false → b ≤ a
least_of a b h = ground arith

-- Whom a task goes to that `dispatch` receives where its queue is empty.
pub data Received (task : Task) (p : WorkerPool) : Type 0 where
  to_ready : 0 < p.ready → receive task p ≡ record (give task p) { idle = false } → Received task p
  to_new :
      p.worker_count < p.max_workers
      → receive task p ≡ record (spawn task p) { idle = false }
      → Received task p
  to_queue :
      p.ready ≡ 0
      → p.max_workers ≤ p.worker_count
      → receive task p ≡ record (queue_task task p) { idle = false }
      → Received task p

pub receive-cases : (task : Task) (p : WorkerPool) → Received task p
unfolding receive queue_task
receive-cases task p = elim (Bool-cases (ltb 0 p.ready)) [
  | inl some_ready ↦ to_ready (less_of 0 p.ready some_ready) (rw some_ready refl)
  | inr none_ready ↦ elim (Bool-cases (ltb p.worker_count p.max_workers)) [
    | inl few ↦ to_new (less_of p.worker_count p.max_workers few) (rw (none_ready, few) refl)
    | inr full ↦
        to_queue (omega (arith, least_of 0 p.ready none_ready))
          (least_of p.worker_count p.max_workers full) (rw (none_ready, full) refl)
  ]
]

-- What is left when the timer fires: the same workers, or one fewer of those that are ready.
pub data Fired (p : WorkerPool) : Type 0 where
  none_ended : timer_fired p ≡ record p { idle = true } → Fired p
  one_ended :
      0 < p.ready
      → timer_fired p
        ≡ record p { ready = p.ready - 1; worker_count = p.worker_count - 1; idle = true }
      → Fired p

pub timer_cases : (p : WorkerPool) → Fired p
unfolding timer_fired
timer_cases p = elim (Bool-cases p.idle) [
  | inr not_idle ↦ none_ended (rw not_idle refl)
  | inl was_idle ↦ elim (Bool-cases (ltb 0 p.worker_count)) [
    | inr no_worker ↦ none_ended (rw (was_idle, no_worker) refl)
    | inl some_worker ↦ elim (Bool-cases (ltb 0 p.ready)) [
      | inl some_ready ↦
          one_ended (less_of 0 p.ready some_ready)
            (rw (was_idle, some_worker, kill_idle_worker, some_ready) refl)
      | inr none_ready ↦ none_ended (rw (was_idle, some_worker, kill_idle_worker, none_ready) refl)
    ]
  ]
]
