-- ===== src/Workers/Order.antt =====
-- The pool of database/workers.go starts the tasks in the order in which they were submitted.
use atomix_db.Prelude.{ℕ, ◌≡◌, refl, sym, ap, ◌∙◌, List, [], ◌∷◌, ◌++◌, append_assoc, append-nil}
use atomix_db.Workers.{
  Task, WorkerPool, new_pool, set_queue, give, spawn, receive, timer_fired, queue_task, next_task,
  stop, leave_loop, end_worker, finish_task,
}
use atomix_db.Workers.Steps.{
  Step, submitted, submitted_behind, handed, timed, finished, stopped, left, drained, emptied,
  killed, over, Steps, here, next, to_ready, to_new, to_queue, receive-cases, none_ended, one_ended,
  timer_cases,
}

-- The tasks in the order of their start, those that still wait last.
abbrev in_order : WorkerPool → List Task
in_order p = p.started ++ p.waiting_queue

queued :
    (task : Task) (p : WorkerPool)
    → p.started ++ (p.waiting_queue ++ (task ∷ [])) ≡ in_order p ++ (task ∷ [])
queued task p = sym (append_assoc p.started p.waiting_queue (task ∷ []))

handed_on :
    (front : Task) (rest : List Task) (p : WorkerPool)
    → p.waiting_queue ≡ front ∷ rest
    → (p.started ++ (front ∷ [])) ++ rest ≡ in_order p ++ []
handed_on front rest p queue =
    append_assoc p.started (front ∷ []) rest
    ∙ ap (λ l. p.started ++ l) (sym queue)
    ∙ sym (append-nil (in_order p))

receive-in_order :
    (task : Task) (p : WorkerPool)
    → p.waiting_queue ≡ []
    → in_order (receive task p) ≡ in_order p ++ (task ∷ [])
unfolding give spawn queue_task set_queue
receive-in_order task p empty = elim (receive-cases task p) [
  | to_ready _ e ↦ ap in_order e ∙ given
  | to_new _ e ↦ ap in_order e ∙ given
  | to_queue _ _ e ↦ ap in_order e ∙ queued task p
]
  where
    given : (p.started ++ (task ∷ [])) ++ p.waiting_queue ≡ in_order p ++ (task ∷ [])
    given = simp (empty, append-nil)

timer_fired-in_order : (p : WorkerPool) → in_order (timer_fired p) ≡ in_order p ++ []
timer_fired-in_order p = elim (timer_cases p) [
  | none_ended e ↦ ap in_order e ∙ sym (append-nil (in_order p))
  | one_ended _ e ↦ ap in_order e ∙ sym (append-nil (in_order p))
]

Step-in_order : {p q : WorkerPool} {ts : List Task} → Step p ts q → in_order q ≡ in_order p ++ ts
unfolding queue_task set_queue next_task give stop leave_loop end_worker finish_task
Step-in_order {p} (submitted task _ _ empty) = receive-in_order task p empty
Step-in_order {p} (submitted_behind _ _ task _ _ _) = queued task p
Step-in_order {p} (handed front rest _ queue _) = handed_on front rest p queue
Step-in_order {p} (timed _ _) = timer_fired-in_order p
Step-in_order {p} (finished _ _ _ _) = sym (append-nil (in_order p))
Step-in_order {p} (stopped _ _) = sym (append-nil (in_order p))
Step-in_order {p} (left _ _) = sym (append-nil (in_order p))
Step-in_order {p} (drained front rest _ queue _) = handed_on front rest p queue
Step-in_order {p} (emptied _ _) = sym (append-nil (in_order p))
Step-in_order {p} (killed _ _ _) = sym (append-nil (in_order p))
Step-in_order {p} (over _ _) = sym (append-nil (in_order p))

-- Whatever steps a pool takes from its start, the tasks that workers were given, in their order,
-- followed by those in the queue are the tasks submitted, in their order.
pub Steps-in_order :
    (n : ℕ) {p : WorkerPool} {ts : List Task}
    → Steps (new_pool n) ts p
    → p.started ++ p.waiting_queue ≡ ts
unfolding new_pool
Steps-in_order n here = refl
Steps-in_order n (next {us = us} steps step) =
    Step-in_order step ∙ ap (λ l. l ++ us) (Steps-in_order n steps)
