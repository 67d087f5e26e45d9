-- ===== src/Tests/Pools.antt =====
-- A pool of one worker that runs a task while a second one waits.
use atomix_db.Prelude.{◌+◌, ◌≡◌, refl, sym, subst, false, [], ◌∷◌, ◌++◌}
use atomix_db.Workers.{
  Task, looping, ended, WorkerPool, new_pool, give, spawn, set_queue, receive, stop,
}
use atomix_db.Workers.Steps.{submitted, Steps, here, next}
use atomix_db.Workers.Order.{Steps-in_order}
use atomix_db.Workers.Counts.{IsPool, Serves, Steps-IsPool}
use atomix_db.Workers.Balance.{count, Steps-count}
use atomix_db.Workers.Progress.{Steps-finished, Steps-stopped}

first : WorkerPool
first = receive 7 (new_pool 1)

second : WorkerPool
second = receive 8 first

two_tasks : Steps (new_pool 1) (7 ∷ 8 ∷ []) second
unfolding first second new_pool receive give spawn set_queue
two_tasks = next (next here (submitted 7 refl refl refl)) (submitted 8 refl refl refl)

second-looping : second.phase ≡ looping
unfolding first second new_pool receive give spawn set_queue
second-looping = refl

second_open : second.closed ≡ false
unfolding first second new_pool receive give spawn set_queue
second_open = refl

Steps-in_order_example : second.started ++ second.waiting_queue ≡ 7 ∷ 8 ∷ []
Steps-in_order_example = Steps-in_order 1 two_tasks

Steps-IsPool_example : IsPool second
Steps-IsPool_example = Steps-IsPool 1 two_tasks

Steps-count_example :
    count 8 (7 ∷ 8 ∷ [])
    ≡ count 8 second.waiting_queue + (count 8 second.busy + count 8 second.finished)
Steps-count_example = Steps-count 1 two_tasks 8

Steps-finished_example :
    (q : WorkerPool) × Steps second [] q
    × (q.waiting_queue ≡ [])
    × (q.busy ≡ [])
    × ((task : Task) → count task q.finished ≡ count task (7 ∷ 8 ∷ []))
Steps-finished_example = Steps-finished 1 two_tasks (subst Serves (sym second-looping) tt)

Steps-stopped_example :
    ((q : WorkerPool) × Steps (stop false second) [] q
      × (q.phase ≡ ended)
      × (q.waiting_queue ≡ second.waiting_queue))
    × ((q : WorkerPool)
        → Steps (stop false second) [] q
        → q.phase ≡ ended
        → (q.busy ≡ [])
          × ((task : Task)
              → count task (7 ∷ 8 ∷ []) ≡ count task q.waiting_queue + count task q.finished))
Steps-stopped_example = Steps-stopped 1 two_tasks second_open
