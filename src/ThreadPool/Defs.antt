-- ===== src/ThreadPool/Defs.antt =====
-- The task queue of ThreadPool<T>, and one thread inside `pushTask` or `routine`
-- (0211/threadPool.hpp).
use os_net_work_code.Base.{
  ℕ, Bool, Option, none, some, List, [], ◌∷◌, ◌++◌, length, if◌then◌else◌, ◌==◌, replicate,
}
use os_net_work_code.Sync.{Mutex, unlocked, lock, unlock}

-- The members that the threads share. The condition variable has no state of its own.
pub record Pool {ℓ} (T : Type ℓ) : Type ℓ where
  pub task_queue : List T
  pub mutex : Mutex

-- Where a thread stands: before the named action of `pushTask(task)`, or of `routine`.
pub data Pc {ℓ} (T : Type ℓ) : Type ℓ where
  idle : Pc T  -- a client, outside the pool
  push_lock : T → Pc T  -- the constructor of lockGuard
  push_insert : T → Pc T  -- __task_queue.push(task)
  push_signal : Pc T  -- pthread_cond_signal(&__cond)
  push_unlock : Pc T  -- the destructor of lockGuard
  created : Pc T  -- a worker that the constructor has made and `run` has not started
  work_lock : Pc T  -- the constructor of lockGuard
  work_test : Pc T  -- while (tp->isEmpty()), and the call of waitCond if so
  work_sleep : Pc T  -- asleep in waitCond
  work_wake : Pc T  -- woken there, before it has the mutex again
  work_take : Pc T  -- task = tp->getTask()
  work_unlock : T → Pc T  -- the destructor of lockGuard
  work_run : T → Pc T  -- task(td->__name)

-- What threads do that can be seen: a task is pushed, is taken from the queue, is run.
pub data TaskEvent {ℓ} (T : Type ℓ) : Type ℓ where
  pushed taken ran : T → TaskEvent T

-- What an action leaves; `signals` says whether it has called `pthread_cond_signal`.
pub record Outcome {ℓ} (T : Type ℓ) : Type ℓ where
  pub pool : Pool T
  pub place : Pc T
  pub trace : List (TaskEvent T)
  pub signals : Bool

-- The constructor: no task, and `thread_num` workers that are not started.
unfoldable pub init {ℓ} : (T : Type ℓ) → Pool T
init T = record { task_queue = []; mutex = unlocked }

unfoldable pub workers {ℓ} : {T : Type ℓ} → ℕ → List (Pc T)
workers thread_num = replicate thread_num created

module _ {ℓ} {T : Type ℓ} where
  unfoldable pub is_empty : Pool T → Bool
  is_empty b = length b.task_queue == 0

  abbrev pub quietly : Pool T → Pc T → Option (Outcome T)
  quietly b p = some (record { pool = b; place = p; trace = []; signals = Bool.false })

  -- Taking the mutex: from `p` to `p'`, or staying at `p` while it is held.
  unfoldable pub enter_lock : Pool T → Pc T → Pc T → Option (Outcome T)
  enter_lock b p p' = elim (lock b.mutex) [
    | none ↦ quietly b p
    | some m ↦ quietly (record b { mutex = m }) p'
  ]

  abbrev pub release : Pool T → Pool T
  release b = record b { mutex = unlock b.mutex }

  -- `front` and `pop` of an empty `std::queue` are undefined behaviour, `none`.
  unfoldable pub get_task : Pool T → List T → Option (Outcome T)
  get_task b [] = none
  get_task b (t ∷ rest) = some (record {
    pool = record b { task_queue = rest };
    place = work_unlock t;
    trace = taken t ∷ [];
    signals = Bool.false;
  })

  -- The next action of a thread. After a task a worker goes round its loop.
  unfoldable pub move : Pool T → Pc T → Option (Outcome T)
  unfolding is_empty enter_lock get_task
  move b idle = quietly b idle
  move b (push_lock t) = enter_lock b (push_lock t) (push_insert t)
  move b (push_insert t) = some (record {
    pool = record b { task_queue = b.task_queue ++ t ∷ [] };
    place = push_signal;
    trace = pushed t ∷ [];
    signals = Bool.false;
  })
  move b push_signal =
      some (record { pool = b; place = push_unlock; trace = []; signals = Bool.true })
  move b push_unlock = quietly (release b) idle
  move b created = quietly b work_lock
  move b work_lock = enter_lock b work_lock work_test
  move b work_test = if is_empty b then quietly (release b) work_sleep else quietly b work_take
  move b work_sleep = quietly b work_sleep
  move b work_wake = enter_lock b work_wake work_test
  move b work_take = get_task b b.task_queue
  move b (work_unlock t) = quietly (release b) (work_run t)
  move b (work_run t) =
      some (record { pool = b; place = work_lock; trace = ran t ∷ []; signals = Bool.false })
