-- ===== src/ThreadPool/Tests.antt =====
-- Runs of ThreadPool<T> (0211/threadPool.hpp) on small schedules, and the theorems there.
use os_net_work_code.Base.{ℕ, ◌+◌, ◌≡◌, refl, List, [], ◌∷◌, ◌++◌, some, arith, true, false}
use os_net_work_code.Base.Threads.{weigh}
use os_net_work_code.Sync.{lock, unlock}
use os_net_work_code.Sync.Cond.{signal_target}
use os_net_work_code.ThreadPool.Defs.{
  init, workers, idle, push_insert, work_lock, work_run, TaskEvent, pushed, taken, move,
}
use os_net_work_code.ThreadPool.System.{System, Action, push_task, run, start, exec, step}
use os_net_work_code.ThreadPool.Invariant.{pushes, takes, runs, carried}
use os_net_work_code.ThreadPool.Draining.{OnlyRuns, pool_drains}
use os_net_work_code.ThreadPool.Safety.{tasks_in_order, tasks_conserved}

-- One worker falls asleep, client 1 pushes task 5, and the worker runs it.
abbrev one_task : List (Action ℕ)
one_task =
    run 0 0
    ∷ run 0 0
    ∷ run 0 0
    ∷ push_task 1 5
    ∷ run 1 0
    ∷ run 1 0
    ∷ run 1 0
    ∷ run 1 0
    ∷ run 0 0
    ∷ run 0 0
    ∷ run 0 0
    ∷ run 0 0
    ∷ []

abbrev one_task_state : System ℕ
one_task_state = record {
  pool = record { task_queue = []; mutex = record { locked = false } };
  threads = work_run 5 ∷ idle ∷ [];
}

abbrev race : List (Action ℕ)
race = push_task 1 5 ∷ run 0 0 ∷ run 1 0 ∷ run 0 0 ∷ []

abbrev race_state : System ℕ
race_state = record {
  pool = record { task_queue = []; mutex = record { locked = true } };
  threads = work_lock ∷ push_insert 5 ∷ [];
}

tasks_in_order_example :
    (t : System ℕ) × (es : List (TaskEvent ℕ)) × (exec (start ℕ 1 1) one_task ≡ some (t, es))
    × (pushes es ≡ takes es ++ t.pool.task_queue)
tasks_in_order_example = tasks_in_order 1 1 one_task

tasks_conserved_example :
    weigh (λ t. t) (pushes (pushed 5 ∷ taken 5 ∷ []))
    ≡ weigh (λ t. t) one_task_state.pool.task_queue
      + weigh (carried (λ t. t)) one_task_state.threads
      + weigh (λ t. t) (runs (pushed 5 ∷ taken 5 ∷ []))
unfolding exec step start init workers move lock unlock signal_target
tasks_conserved_example =
    tasks_conserved 1 1 one_task {t = one_task_state} {es = pushed 5 ∷ taken 5 ∷ []} (λ t. t) refl

-- The client has the mutex and has still to insert its task.
pool_drains_example :
    (bs : List (Action ℕ)) × (u : System ℕ) × (fs : List (TaskEvent ℕ)) × OnlyRuns bs
    × (exec race_state bs ≡ some (u, fs))
    × (u.pool.task_queue ≡ [])
    × ((v : ℕ → ℕ) → weigh v (pushes ([] ++ fs)) ≡ weigh v (runs ([] ++ fs)))
unfolding exec step start init workers move lock unlock signal_target
pool_drains_example = pool_drains 1 1 race {t = race_state} {es = []} (omega arith) refl
