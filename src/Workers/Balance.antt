-- ===== src/Workers/Balance.antt =====
-- No task is lost and none is run twice by the pool of database/workers.go.
use atomix_db.Prelude.{
  ℕ, ◌+◌, ◌≡◌, refl, sym, ap, ◌∙◌, subst, List, [], ◌∷◌, ◌++◌, ◌==◌, if◌then◌else◌, arith,
}
use atomix_db.Workers.{
  Task, WorkerPool, new_pool, set_queue, give, spawn, receive, timer_fired, queue_task, next_task,
  stop, leave_loop, end_worker, finish_task,
}
use atomix_db.Workers.Steps.{
  Step, submitted, submitted_behind, handed, timed, finished, stopped, left, drained, emptied,
  killed, over, Steps, here, next, to_ready, to_new, to_queue, receive-cases, none_ended, one_ended,
  timer_cases,
}
use atomix_db.Workers.Order.{Steps-in_order}

-- How often a task is in a list.
unfoldable pub count : Task → List Task → ℕ
count task [] = 0
count task (t ∷ ts) = let rest = count task ts in if t == task then 1 + rest else rest

count_cons :
    (task t : Task) (ts : List Task) → count task (t ∷ ts) ≡ count task (t ∷ []) + count task ts
unfolding count
count_cons task t ts = ground arith

count-append :
    (task : Task) (ts us : List Task) → count task (ts ++ us) ≡ count task ts + count task us
unfolding count
count-append task [] us = omega arith
count-append task (t ∷ ts) us = ground (arith, count-append task ts us)

-- Each task that a worker was given is run or was run.
abbrev Balanced : WorkerPool → Type 0
Balanced p = (task : Task) → count task p.started ≡ count task p.busy + count task p.finished

one_more :
    (t : Task) (p : WorkerPool)
    → Balanced p
    → (task : Task)
    → count task (p.started ++ (t ∷ [])) ≡ count task (t ∷ p.busy) + count task p.finished
one_more t p h task =
    omega (arith, count-append task p.started (t ∷ []), count_cons task t p.busy, h task)

receive-Balanced : (t : Task) (p : WorkerPool) → Balanced p → Balanced (receive t p)
unfolding give spawn queue_task set_queue
receive-Balanced t p h = elim (receive-cases t p) [
  | to_ready _ e ↦ subst Balanced (sym e) (one_more t p h)
  | to_new _ e ↦ subst Balanced (sym e) (one_more t p h)
  | to_queue _ _ e ↦ subst Balanced (sym e) h
]

timer_fired-Balanced : (p : WorkerPool) → Balanced p → Balanced (timer_fired p)
timer_fired-Balanced p h = elim (timer_cases p) [
  | none_ended e ↦ subst Balanced (sym e) h
  | one_ended _ e ↦ subst Balanced (sym e) h
]

finish_task-Balanced :
    (before : List Task) (t : Task) (after : List Task) (p : WorkerPool)
    → p.busy ≡ before ++ (t ∷ after)
    → Balanced p
    → Balanced (finish_task before t after p)
unfolding finish_task
finish_task-Balanced before t after p split h task = omega (
  arith,
  h task,
  ap (count task) split,
  count-append task before (t ∷ after),
  count-append task before after,
  count_cons task t after,
  count-append task p.finished (t ∷ []),
)

Step-Balanced : {p q : WorkerPool} {ts : List Task} → Step p ts q → Balanced p → Balanced q
unfolding queue_task set_queue next_task give stop leave_loop end_worker
Step-Balanced {p} (submitted t _ _ _) h = receive-Balanced t p h
Step-Balanced (submitted_behind _ _ _ _ _ _) h = h
Step-Balanced {p} (handed front _ _ _ _) h = one_more front p h
Step-Balanced {p} (timed _ _) h = timer_fired-Balanced p h
Step-Balanced {p} (finished before t after split) h = finish_task-Balanced before t after p split h
Step-Balanced (stopped _ _) h = h
Step-Balanced (left _ _) h = h
Step-Balanced {p} (drained front _ _ _ _) h = one_more front p h
Step-Balanced (emptied _ _) h = h
Step-Balanced (killed _ _ _) h = h
Step-Balanced (over _ _) h = h

Steps-Balanced : (n : ℕ) {p : WorkerPool} {ts : List Task} → Steps (new_pool n) ts p → Balanced p
unfolding new_pool count
Steps-Balanced n here = λ task. refl
Steps-Balanced n (next steps step) = Step-Balanced step (Steps-Balanced n steps)

-- Whatever steps a pool takes from its start, each task is as often in the queue, in a worker that runs
-- it, or among those that were run, as it was submitted.
pub Steps-count :
    (n : ℕ) {p : WorkerPool} {ts : List Task}
    → Steps (new_pool n) ts p
    → (task : Task)
    → count task ts ≡ count task p.waiting_queue + (count task p.busy + count task p.finished)
Steps-count n {p} steps task =
    ap (count task) (sym (Steps-in_order n steps))
    ∙ omega (arith, count-append task p.started p.waiting_queue, Steps-Balanced n steps task)

-- The tasks of a pool that has none left were run as often as they were submitted.
pub Steps-all_run :
    (n : ℕ) {p : WorkerPool} {ts : List Task}
    → Steps (new_pool n) ts p
    → p.waiting_queue ≡ []
    → p.busy ≡ []
    → (task : Task) → count task p.finished ≡ count task ts
unfolding count
Steps-all_run n steps none_waits none_runs task =
    omega (arith, Steps-count n steps task, ap (count task) none_waits, ap (count task) none_runs)
