-- ===== src/BlockQueue/Defs.antt =====
-- BlockQueue<T> and one thread inside its calls (0114/BlockQueue.hpp; the part under `#if 0` is not
-- compiled).
use os_net_work_code.Base.{
  ℕ, ◌/◌, Bool, Option, none, some, List, [], ◌∷◌, ◌++◌, length, if◌then◌else◌, leb, ◌==◌,
}
use os_net_work_code.Sync.{Mutex, unlocked, lock, unlock}
use os_net_work_code.Fifo.{Event, put, got}

-- The members of the class, but for the condition variables, which have no state of their own:
-- who waits on them is seen from the places of the threads.
pub record BlockQueue {ℓ} (A : Type ℓ) : Type ℓ where
  pub bq : List A
  pub capacity : ℕ
  pub mtx : Mutex

unfoldable pub init {ℓ} : (A : Type ℓ) → ℕ → BlockQueue A
init A capacity = record { bq = []; capacity = capacity; mtx = unlocked }

pub data Cond : Type 0 where
  empty_cond full_cond : Cond

-- Where a thread stands: before the named action of `push(x)` or `pop`.
pub data Pc {ℓ} (A : Type ℓ) : Type ℓ where
  idle : Pc A
  push_lock : A → Pc A  -- the constructor of lockGuard
  push_test : A → Pc A  -- while (__isQueueFull()), and the call of pthread_cond_wait if so
  push_sleep : A → Pc A  -- asleep in pthread_cond_wait(&__Full, &__mtx)
  push_wake : A → Pc A  -- woken there, before it has the mutex again
  push_insert : A → Pc A  -- __bq.push(in)
  push_signal : Pc A  -- if (__bq.size() >= __capacity / 2) pthread_cond_signal(&__Empty)
  push_unlock : Pc A  -- the destructor of lockGuard
  pop_lock : Pc A  -- the constructor of lockGuard
  pop_test : Pc A  -- while (__isQueueEmpty()), and the call of pthread_cond_wait if so
  pop_sleep : Pc A  -- asleep in pthread_cond_wait(&__Empty, &__mtx)
  pop_wake : Pc A  -- woken there, before it has the mutex again
  pop_take : Pc A  -- *out = __bq.front(); __bq.pop()
  pop_signal : Pc A  -- pthread_cond_signal(&__Full)
  pop_unlock : Pc A  -- the destructor of lockGuard

-- What an action leaves: the queue, the place of its thread, what it has put or got, and the
-- condition that it has signalled.
pub record Outcome {ℓ} (A : Type ℓ) : Type ℓ where
  pub queue : BlockQueue A
  pub place : Pc A
  pub trace : List (Event A)
  pub signal : Option Cond

module _ {ℓ} {A : Type ℓ} where
  unfoldable pub is_queue_empty : BlockQueue A → Bool
  is_queue_empty b = length b.bq == 0

  unfoldable pub is_queue_full : BlockQueue A → Bool
  is_queue_full b = length b.bq == b.capacity

  abbrev pub quietly : BlockQueue A → Pc A → Option (Outcome A)
  quietly b p = some (record { queue = b; place = p; trace = []; signal = none })

  -- Taking the mutex: from `p` to `p'`, or staying at `p` while it is held.
  unfoldable pub enter_lock : BlockQueue A → Pc A → Pc A → Option (Outcome A)
  enter_lock b p p' = elim (lock b.mtx) [
    | none ↦ quietly b p
    | some m ↦ quietly (record b { mtx = m }) p'
  ]

  abbrev pub release : BlockQueue A → BlockQueue A
  release b = record b { mtx = unlock b.mtx }

  -- `front` and `pop` of an empty `std::queue` are undefined behaviour, `none`.
  unfoldable pub take_front : BlockQueue A → List A → Option (Outcome A)
  take_front b [] = none
  take_front b (x ∷ rest) = some (record {
    queue = record b { bq = rest };
    place = pop_signal;
    trace = got x ∷ [];
    signal = none;
  })

  -- The next action of a thread. `pthread_cond_wait` releases the mutex as it falls asleep.
  unfoldable pub move : BlockQueue A → Pc A → Option (Outcome A)
  unfolding is_queue_empty is_queue_full enter_lock take_front
  move b idle = quietly b idle
  move b (push_lock x) = enter_lock b (push_lock x) (push_test x)
  move b (push_test x) =
      if is_queue_full b then quietly (release b) (push_sleep x) else quietly b (push_insert x)
  move b (push_sleep x) = quietly b (push_sleep x)
  move b (push_wake x) = enter_lock b (push_wake x) (push_test x)
  move b (push_insert x) = some (record {
    queue = record b { bq = b.bq ++ x ∷ [] };
    place = push_signal;
    trace = put x ∷ [];
    signal = none;
  })
  move b push_signal = some (record {
    queue = b;
    place = push_unlock;
    trace = [];
    signal = if leb (b.capacity / 2) (length b.bq) then some empty_cond else none;
  })
  move b push_unlock = quietly (release b) idle
  move b pop_lock = enter_lock b pop_lock pop_test
  move b pop_test = if is_queue_empty b then quietly (release b) pop_sleep else quietly b pop_take
  move b pop_sleep = quietly b pop_sleep
  move b pop_wake = enter_lock b pop_wake pop_test
  move b pop_take = take_front b b.bq
  move b pop_signal =
      some (record { queue = b; place = pop_unlock; trace = []; signal = some full_cond })
  move b pop_unlock = quietly (release b) idle
