-- ===== src/Workers/Counts.antt =====
-- What the pool of database/workers.go keeps: how many workers there are, and which tasks they run.
use atomix_db.Prelude.{
  ℕ, ◌+◌, ◌%◌, ◌<◌, ◌≤◌, ◌≡◌, ◌≢◌, refl, sym, ap, ◌∙◌, subst, inl, inr, true, List, [], ◌∷◌, ◌++◌,
  if◌then◌else◌, length, length-append, Bool-cases, arith,
}
use mathlib.Core.Bool.{false≢true}
use atomix_db.Workers.{
  Task, Phase, looping, draining, killing, ended, WorkerPool, new_pool, set_queue, give, spawn,
  receive, timer_fired, queue_task, next_task, stop, leave_loop, end_worker, finish_task,
}
use atomix_db.Workers.Steps.{
  Step, submitted, submitted_behind, handed, timed, finished, stopped, left, drained, emptied,
  killed, over, Steps, here, next, to_ready, to_new, to_queue, receive-cases, none_ended, one_ended,
  timer_cases,
}

-- `dispatch` still gives tasks out.
abbrev pub Serves : Phase → Type 0
Serves looping = Unit
Serves draining = Unit
Serves killing = ⊥
Serves ended = ⊥

-- The workers are counted and no more than allowed; while tasks wait and are given out there are as
-- many as allowed; the counter of the waiting tasks is right; a pool that was stopped to run what waits
-- has an empty queue when it ends its workers, and at the end there is no worker.
pub record IsPool (p : WorkerPool) : Type 0 where
  pub counted : p.worker_count ≡ length p.busy + p.ready
  pub bounded : p.worker_count ≤ p.max_workers
  pub some_allowed : 1 ≤ p.max_workers
  pub all_work : Serves p.phase → p.waiting_queue ≢ [] → p.worker_count ≡ p.max_workers
  pub waiting_lem : p.waiting ≡ length p.waiting_queue % 4294967296
  pub closed_lem : p.phase ≢ looping → p.closed ≡ true
  pub emptied : ¬ Serves p.phase → p.wait ≡ true → p.waiting_queue ≡ []
  pub none_left : p.phase ≡ ended → p.worker_count ≡ 0

looping-ne-draining : looping ≢ draining
looping-ne-draining e = cc

looping-ne-killing : looping ≢ killing
looping-ne-killing e = cc

looping-ne-ended : looping ≢ ended
looping-ne-ended e = cc

draining-ne-ended : draining ≢ ended
draining-ne-ended e = cc

killing-ne-ended : killing ≢ ended
killing-ne-ended e = cc

new_pool-IsPool : (n : ℕ) → IsPool (new_pool n)
unfolding new_pool
new_pool-IsPool n = record {
  counted = omega arith;
  bounded = omega arith;
  some_allowed = ground arith;
  all_work = λ s some. absurd (some refl);
  waiting_lem = omega arith;
  closed_lem = λ h. absurd (h refl);
  emptied = λ h _. refl;
  none_left = λ _. refl;
}

receive-IsPool :
    (task : Task) (p : WorkerPool)
    → IsPool p
    → p.phase ≡ looping
    → p.waiting_queue ≡ []
    → IsPool (receive task p)
unfolding give spawn queue_task set_queue
receive-IsPool task p h l empty = elim (receive-cases task p) [
  | to_ready some_ready e ↦ subst IsPool (sym e) (record {
    counted = omega (arith, h.counted);
    bounded = h.bounded;
    some_allowed = h.some_allowed;
    all_work = h.all_work;
    waiting_lem = h.waiting_lem;
    closed_lem = h.closed_lem;
    emptied = h.emptied;
    none_left = h.none_left;
  })
  | to_new few e ↦ subst IsPool (sym e) (record {
    counted = omega (arith, h.counted);
    bounded = omega (arith, few);
    some_allowed = h.some_allowed;
    all_work = λ s some. absurd (some empty);
    waiting_lem = h.waiting_lem;
    closed_lem = h.closed_lem;
    emptied = h.emptied;
    none_left = λ end. absurd (not_over end);
  })
  | to_queue none_ready full e ↦ subst IsPool (sym e) (record {
    counted = h.counted;
    bounded = h.bounded;
    some_allowed = h.some_allowed;
    all_work = λ s some. omega (arith, h.bounded);
    waiting_lem = refl;
    closed_lem = h.closed_lem;
    emptied = λ n. absurd (n (subst Serves (sym l) tt));
    none_left = h.none_left;
  })
]
  where
    not_over : ¬ (p.phase ≡ ended)
    not_over e = looping-ne-ended (sym l ∙ e)

timer_fired-IsPool :
    (p : WorkerPool) → IsPool p → p.phase ≡ looping → p.waiting_queue ≡ [] → IsPool (timer_fired p)
timer_fired-IsPool p h l empty = elim (timer_cases p) [
  | none_ended e ↦ subst IsPool (sym e) (record {
    counted = h.counted;
    bounded = h.bounded;
    some_allowed = h.some_allowed;
    all_work = h.all_work;
    waiting_lem = h.waiting_lem;
    closed_lem = h.closed_lem;
    emptied = h.emptied;
    none_left = h.none_left;
  })
  | one_ended some_ready e ↦ subst IsPool (sym e) (record {
    counted = omega (arith, h.counted);
    bounded = omega (arith, h.bounded);
    some_allowed = h.some_allowed;
    all_work = λ s some. absurd (some empty);
    waiting_lem = h.waiting_lem;
    closed_lem = h.closed_lem;
    emptied = h.emptied;
    none_left = λ end. absurd (looping-ne-ended (sym l ∙ end));
  })
]

next_task-IsPool :
    (front : Task) (rest : List Task) (p : WorkerPool)
    → IsPool p
    → Serves p.phase
    → p.waiting_queue ≡ front ∷ rest
    → 0 < p.ready
    → IsPool (next_task front rest p)
unfolding next_task give set_queue
next_task-IsPool front rest p h s queue some_ready = record {
  counted = omega (arith, h.counted);
  bounded = h.bounded;
  some_allowed = h.some_allowed;
  all_work = λ _ _. h.all_work s (λ none. cc);
  waiting_lem = refl;
  closed_lem = h.closed_lem;
  emptied = λ n. absurd (n s);
  none_left = h.none_left;
}

finish_task-IsPool :
    (before : List Task) (task : Task) (after : List Task) (p : WorkerPool)
    → IsPool p
    → p.busy ≡ before ++ (task ∷ after)
    → IsPool (finish_task before task after p)
unfolding finish_task
finish_task-IsPool before task after p h split = record {
  counted = omega (
    arith,
    h.counted,
    ap length split,
    length-append before (task ∷ after),
    length-append before after,
  );
  bounded = h.bounded;
  some_allowed = h.some_allowed;
  all_work = h.all_work;
  waiting_lem = h.waiting_lem;
  closed_lem = h.closed_lem;
  emptied = h.emptied;
  none_left = h.none_left;
}

leave_loop-IsPool :
    (p : WorkerPool) → IsPool p → p.phase ≡ looping → p.closed ≡ true → IsPool (leave_loop p)
unfolding leave_loop
leave_loop-IsPool p h l closed = elim (Bool-cases p.wait) [
  | inl waits ↦ record {
    counted = h.counted;
    bounded = h.bounded;
    some_allowed = h.some_allowed;
    all_work = λ _ some. h.all_work (subst Serves (sym l) tt) some;
    waiting_lem = h.waiting_lem;
    closed_lem = λ _. closed;
    emptied =
        λ n. absurd (n (subst (λ b. Serves (if b then draining else killing)) (sym waits) tt));
    none_left = λ end.
        absurd (draining-ne-ended (sym (ap (λ b. if b then draining else killing) waits) ∙ end));
  }
  | inr leaves ↦ record {
    counted = h.counted;
    bounded = h.bounded;
    some_allowed = h.some_allowed;
    all_work = λ s. absurd (subst (λ b. Serves (if b then draining else killing)) leaves s);
    waiting_lem = h.waiting_lem;
    closed_lem = λ _. closed;
    emptied = λ _ waits. absurd (false≢true (sym leaves ∙ waits));
    none_left = λ end.
        absurd (killing-ne-ended (sym (ap (λ b. if b then draining else killing) leaves) ∙ end));
  }
]

pub Step-IsPool : {p q : WorkerPool} {ts : List Task} → Step p ts q → IsPool p → IsPool q
unfolding queue_task set_queue stop end_worker
Step-IsPool {p} (submitted task l _ empty) h = receive-IsPool task p h l empty
Step-IsPool {p} (submitted_behind front rest task l _ queue) h = record {
  counted = h.counted;
  bounded = h.bounded;
  some_allowed = h.some_allowed;
  all_work = λ s _. h.all_work s (λ none. cc);
  waiting_lem = refl;
  closed_lem = h.closed_lem;
  emptied = λ n. absurd (n (subst Serves (sym l) tt));
  none_left = h.none_left;
}
Step-IsPool {p} (handed front rest l queue some_ready) h =
    next_task-IsPool front rest p h (subst Serves (sym l) tt) queue some_ready
Step-IsPool {p} (timed l empty) h = timer_fired-IsPool p h l empty
Step-IsPool {p} (finished before task after split) h =
    finish_task-IsPool before task after p h split
Step-IsPool {p} (stopped wait opened) h = record {
  counted = h.counted;
  bounded = h.bounded;
  some_allowed = h.some_allowed;
  all_work = h.all_work;
  waiting_lem = h.waiting_lem;
  closed_lem = λ _. refl;
  emptied = λ n. absurd (serves n);
  none_left = h.none_left;
}
  where
    serves : ¬ (¬ Serves p.phase)
    serves n = false≢true (sym opened ∙ h.closed_lem (λ l. n (subst Serves (sym l) tt)))
Step-IsPool {p} (left l closed) h = leave_loop-IsPool p h l closed
Step-IsPool {p} (drained front rest d queue some_ready) h =
    next_task-IsPool front rest p h (subst Serves (sym d) tt) queue some_ready
Step-IsPool {p} (emptied d empty) h = record {
  counted = h.counted;
  bounded = h.bounded;
  some_allowed = h.some_allowed;
  all_work = λ s. absurd s;
  waiting_lem = h.waiting_lem;
  closed_lem = λ _. h.closed_lem (λ l. looping-ne-draining (sym l ∙ d));
  emptied = λ _ _. empty;
  none_left = λ end. absurd (killing-ne-ended end);
}
Step-IsPool {p} (killed k some_left some_ready) h = record {
  counted = omega (arith, h.counted);
  bounded = omega (arith, h.bounded);
  some_allowed = h.some_allowed;
  all_work = λ s. absurd (subst Serves k s);
  waiting_lem = h.waiting_lem;
  closed_lem = h.closed_lem;
  emptied = h.emptied;
  none_left = λ end. omega (arith, h.none_left end);
}
Step-IsPool {p} (over k none) h = record {
  counted = h.counted;
  bounded = h.bounded;
  some_allowed = h.some_allowed;
  all_work = λ s. absurd s;
  waiting_lem = h.waiting_lem;
  closed_lem = λ _. h.closed_lem (λ l. looping-ne-killing (sym l ∙ k));
  emptied = λ _. h.emptied (λ s. subst Serves k s);
  none_left = λ _. none;
}

-- Whatever steps a pool takes from its start, its workers are counted and no more than allowed, there
-- are as many as allowed whenever a task waits that is still to be given out, and the counter of the
-- waiting tasks is that of the queue; a pool that was stopped to run what waits has no task left when
-- it ends its workers, and at its end it has no worker.
pub Steps-IsPool : (n : ℕ) {p : WorkerPool} {ts : List Task} → Steps (new_pool n) ts p → IsPool p
Steps-IsPool n here = new_pool-IsPool n
Steps-IsPool n (next steps step) = Step-IsPool step (Steps-IsPool n steps)
