-- ===== src/Workers/Progress.antt =====
-- The pool of database/workers.go can always finish the tasks that were submitted.
use atomix_db.Prelude.{
  ℕ, zero, suc, ◌+◌, ◌*◌, ◌<◌, ◌≤◌, ◌≡◌, ◌⊎◌, refl, sym, ap, ◌∙◌, subst, inl, inr, false, List, [],
  ◌∷◌, ◌++◌, length, append_assoc, append-nil, arith,
}
use mathlib.Core.Bool.{false≢true}
use atomix_db.Workers.{
  Task, Phase, looping, draining, killing, ended, WorkerPool, new_pool, set_queue, give, next_task,
  stop, leave_loop, end_worker, finish_task,
}
use atomix_db.Workers.Steps.{
  Step, handed, finished, stopped, left, drained, killed, over, Steps, here, next,
}
use atomix_db.Workers.Counts.{IsPool, Serves, Step-IsPool, Steps-IsPool}
use atomix_db.Workers.Balance.{count, Steps-count, Steps-all_run}

list-cases : (ts : List Task) → (ts ≡ []) ⊎ ((t : Task) × (us : List Task) × (ts ≡ t ∷ us))
list-cases [] = inl refl
list-cases (t ∷ us) = inr (t, us, refl)

Phase-cases : (ph : Phase) → Serves ph → (ph ≡ looping) ⊎ (ph ≡ draining)
Phase-cases looping s = inl refl
Phase-cases draining s = inr refl
Phase-cases killing s = absurd s
Phase-cases ended s = absurd s

Steps-trans :
    {p q r : WorkerPool} {ts us : List Task} → Steps p ts q → Steps q us r → Steps p (ts ++ us) r
Steps-trans {p} {q} {ts = ts} first here = subst (λ l. Steps p l q) (sym (append-nil ts)) first
Steps-trans {p} {r = r} {ts = ts} first (next {ts = vs} {us} steps step) =
    subst (λ l. Steps p l r) (append_assoc ts vs us) (next (Steps-trans first steps) step)

handed_over :
    (front : Task) (rest : List Task) (p : WorkerPool)
    → Serves p.phase
    → p.waiting_queue ≡ front ∷ rest
    → 0 < p.ready
    → Step p [] (next_task front rest p)
handed_over front rest p s queue some_ready = elim (Phase-cases p.phase s) [
  | inl l ↦ handed front rest l queue some_ready
  | inr d ↦ drained front rest d queue some_ready
]

-- Steps that leave no task waiting and none being run, where `dispatch` stays in its phase.
abbrev Finishes : WorkerPool → Type 0
Finishes p =
    (q : WorkerPool) × Steps p [] q
    × IsPool q
    × (q.phase ≡ p.phase)
    × (q.waiting_queue ≡ [])
    × (q.busy ≡ [])

module _ {p q : WorkerPool} (step : Step p [] q) (same : q.phase ≡ p.phase) where
  before : Finishes q → Finishes p
  before (r, steps, h, phase, none_waits, none_runs) =
      (r, Steps-trans (next here step) steps, h, phase ∙ same, none_waits, none_runs)

finish_all :
    (n : ℕ) (p : WorkerPool)
    → IsPool p
    → Serves p.phase
    → 2 * length p.waiting_queue + length p.busy ≤ n
    → Finishes p
unfolding finish_task next_task give set_queue
finish_all zero p h s few = elim (list-cases p.busy) [
  | inr (t, us, split) ↦ absurd (omega (arith, ap length split))
  | inl none_runs ↦ elim (list-cases p.waiting_queue) [
    | inl none_waits ↦ (p, here, h, refl, none_waits, none_runs)
    | inr (front, rest, queue) ↦ absurd (omega (arith, ap length queue))
  ]
]
finish_all (suc n) p h s few = elim (list-cases p.busy) [
  | inr (t, us, split) ↦
      let step : Step p [] (finish_task [] t us p) = finished [] t us split in
      before step refl (
        finish_all n (finish_task [] t us p) (Step-IsPool step h) s
          (omega (arith, ap length split)))
  | inl none_runs ↦ elim (list-cases p.waiting_queue) [
    | inl none_waits ↦ (p, here, h, refl, none_waits, none_runs)
    | inr (front, rest, queue) ↦
        let staffed : p.worker_count ≡ p.max_workers = h.all_work s (λ none. cc) in
        let step : Step p [] (next_task front rest p) =
          handed_over front rest p s queue
            (omega (arith, staffed, h.counted, h.some_allowed, ap length none_runs)) in
        before step refl (
          finish_all n (next_task front rest p) (Step-IsPool step h) s
            (omega (arith, ap length queue, ap length none_runs)))
  ]
]

-- Whatever steps a pool took from its start, as long as `dispatch` gives tasks out there are further
-- steps, without a submission, after which no task waits, none is being run, and each was run as often
-- as it was submitted.
pub Steps-finished :
    (n : ℕ) {p : WorkerPool} {ts : List Task}
    → Steps (new_pool n) ts p
    → Serves p.phase
    → (q : WorkerPool) × Steps p [] q
      × (q.waiting_queue ≡ [])
      × (q.busy ≡ [])
      × ((task : Task) → count task q.finished ≡ count task ts)
Steps-finished n {p} {ts} steps s =
    let (q, more, h, phase, none_waits, none_runs) =
      finish_all (2 * length p.waiting_queue + length p.busy) p (Steps-IsPool n steps) s
        (omega arith) in
    (
      q,
      more,
      none_waits,
      none_runs,
      λ task.
          Steps-all_run n (Steps-trans steps more) none_waits none_runs task
          ∙ ap (count task) (append-nil ts),
    )

-- Steps that end the workers of a pool, where the queue stays as it is.
abbrev Ends : WorkerPool → Type 0
Ends p =
    (q : WorkerPool) × Steps p [] q
    × (q.phase ≡ ended)
    × (q.waiting_queue ≡ p.waiting_queue)
    × (q.busy ≡ [])

earlier : {p q : WorkerPool} → Step p [] q → q.waiting_queue ≡ p.waiting_queue → Ends q → Ends p
earlier step same (r, steps, end, queue, none_runs) =
    (r, Steps-trans (next here step) steps, end, queue ∙ same, none_runs)

zero-or-more : (n : ℕ) → (n ≡ 0) ⊎ (0 < n)
zero-or-more zero = inl refl
zero-or-more (suc n) = inr (omega arith)

end_workers :
    (n : ℕ) (p : WorkerPool)
    → IsPool p
    → p.phase ≡ killing
    → length p.busy + (length p.busy + p.ready) < n
    → Ends p
unfolding finish_task end_worker
end_workers zero p h k few = absurd (omega arith)
end_workers (suc n) p h k few = elim (list-cases p.busy) [
  | inr (t, us, split) ↦
      let step : Step p [] (finish_task [] t us p) = finished [] t us split in
      earlier step refl (
        end_workers n (finish_task [] t us p) (Step-IsPool step h) k
          (omega (arith, ap length split)))
  | inl none_runs ↦ elim (zero-or-more p.worker_count) [
    | inl none_left ↦
        (record p { phase = ended }, next here (over k none_left), refl, refl, none_runs)
    | inr some_left ↦
        let some_ready : 0 < p.ready = omega (arith, h.counted, ap length none_runs) in
        let step : Step p [] (end_worker p) = killed k some_left some_ready in
        earlier step refl (end_workers n (end_worker p) (Step-IsPool step h) k (omega arith))
  ]
]

opened-looping : (p : WorkerPool) → IsPool p → p.closed ≡ false → p.phase ≡ looping
opened-looping p h opened = by_phase p.phase refl
  where
    by_phase : (ph : Phase) → p.phase ≡ ph → p.phase ≡ looping
    by_phase looping e = e
    by_phase draining e = absurd (false≢true (sym opened ∙ h.closed_lem (λ l. cc)))
    by_phase killing e = absurd (false≢true (sym opened ∙ h.closed_lem (λ l. cc)))
    by_phase ended e = absurd (false≢true (sym opened ∙ h.closed_lem (λ l. cc)))

-- The end of a pool that is stopped without waiting: what is in the queue stays there.
module _ (p : WorkerPool) (h : IsPool p) (opened : p.closed ≡ false) where
  stopping : Step p [] (stop false p)
  stopping = stopped false opened

  leaving : Step (stop false p) [] (leave_loop (stop false p))
  unfolding stop
  leaving = left (opened-looping p h opened) refl

  stop_now : Ends (stop false p)
  unfolding stop leave_loop
  stop_now = earlier leaving refl (
      end_workers (suc (length p.busy + (length p.busy + p.ready))) (leave_loop (stop false p))
        (Step-IsPool leaving (Step-IsPool stopping h)) refl (omega arith))

-- A pool that has ended runs no task.
none_runs_after : {p : WorkerPool} → IsPool p → p.phase ≡ ended → p.busy ≡ []
none_runs_after {p} h end = elim (list-cases p.busy) [
  | inl none_runs ↦ none_runs
  | inr (t, us, split) ↦ absurd (omega (arith, h.counted, h.none_left end, ap length split))
]

-- `Stop` of a pool that was not stopped yet, whatever steps the pool took before. It can come to its end
-- with the queue as it was: there are further steps, without a submission, after which all workers have
-- ended and the tasks that waited wait still. And however it comes to its end without a submission, no
-- task is being run then, and each is as often in the queue or among those that were run as it was
-- submitted.
pub Steps-stopped :
    (n : ℕ) {p : WorkerPool} {ts : List Task}
    → Steps (new_pool n) ts p
    → p.closed ≡ false
    → ((q : WorkerPool) × Steps (stop false p) [] q
        × (q.phase ≡ ended)
        × (q.waiting_queue ≡ p.waiting_queue))
      × ((q : WorkerPool)
          → Steps (stop false p) [] q
          → q.phase ≡ ended
          → (q.busy ≡ [])
            × ((task : Task) → count task ts ≡ count task q.waiting_queue + count task q.finished))
unfolding count stop
Steps-stopped n {p} {ts} steps opened =
    let h = Steps-IsPool n steps in
    let (q, more, end, queue, none_runs) = stop_now p h opened in
    ((q, more, end, queue), λ r run end_r. at_end r run end_r h)
  where
    at_end :
        (r : WorkerPool)
        → Steps (stop false p) [] r
        → r.phase ≡ ended
        → IsPool p
        → (r.busy ≡ [])
          × ((task : Task) → count task ts ≡ count task r.waiting_queue + count task r.finished)
    at_end r run end h =
        let all : Steps (new_pool n) ((ts ++ []) ++ []) r =
          Steps-trans (next steps (stopping p h opened)) run in
        let none_runs = none_runs_after (Steps-IsPool n all) end in
        (
          none_runs,
          λ task. omega (
            arith,
            Steps-count n all task,
            ap (count task) (append-nil (ts ++ []) ∙ append-nil ts),
            ap (count task) none_runs,
          ),
        )
