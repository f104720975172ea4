-- ===== src/RingQueue/Defs.antt =====
-- RingQueue<T> and one thread inside its calls (0208/RingQueue/ringQueue.hpp).
use os_net_work_code.Base.{
  ℕ, ◌+◌, ◌%◌, Option, none, some, List, [], ◌∷◌, get_elem?, set, length, replicate, if◌then◌else◌,
  ltb,
}
use os_net_work_code.Sync.{Sem, sem_init, sem_p, sem_v, Mutex, unlocked, lock, unlock}
use os_net_work_code.Fifo.{Event, put, got}

-- The members of the class. `int` and `size_t` do not wrap below the capacity, so they are numbers.
pub record RingQueue {ℓ} (A : Type ℓ) : Type ℓ where
  pub ring_queue : List A
  pub size : ℕ
  pub c_step : ℕ
  pub p_step : ℕ
  pub space_sem : Sem
  pub data_sem : Sem
  pub c_lock : Mutex
  pub p_lock : Mutex

-- The constructor; the vector holds `default_num` value-initialised items.
unfoldable pub init {ℓ} : {A : Type ℓ} → A → ℕ → RingQueue A
unfolding sem_init
init blank default_num = record {
  ring_queue = replicate default_num blank;
  size = default_num;
  c_step = 0;
  p_step = 0;
  space_sem = sem_init default_num;
  data_sem = sem_init 0;
  c_lock = unlocked;
  p_lock = unlocked;
}

-- Where a thread stands: before the named action of `push(x)` or `pop`.
pub data Pc {ℓ} (A : Type ℓ) : Type ℓ where
  idle : Pc A
  push_wait : A → Pc A  -- __space_sem.p()
  push_lock : A → Pc A  -- pthread_mutex_lock(&__p_lock)
  push_write : A → Pc A  -- __ring_queue[__p_step++] = in
  push_wrap : Pc A  -- __p_step %= __size
  push_unlock : Pc A  -- pthread_mutex_unlock(&__p_lock)
  push_post : Pc A  -- __data_sem.v()
  pop_wait : Pc A  -- __data_sem.p()
  pop_lock : Pc A  -- pthread_mutex_lock(&__c_lock)
  pop_read : Pc A  -- *out = __ring_queue[__c_step++]
  pop_wrap : Pc A  -- __c_step %= __size
  pop_unlock : Pc A  -- pthread_mutex_unlock(&__c_lock)
  pop_post : Pc A  -- __space_sem.v()

-- The queue, the place of the thread that has moved, and what it has done.
abbrev pub Outcome {ℓ} : Type ℓ → Type ℓ
Outcome A = RingQueue A × Pc A × List (Event A)

module _ {ℓ} {A : Type ℓ} where
  -- `__ring_queue[__p_step++] = in`; an index out of range is undefined behaviour, `none`.
  unfoldable pub write : RingQueue A → A → Option (Outcome A)
  write r x =
      if ltb r.p_step (length r.ring_queue)
      then some (
        record r { ring_queue = set r.ring_queue r.p_step x; p_step = r.p_step + 1 },
        push_wrap,
        put x ∷ [],
      )
      else none

  -- `*out = __ring_queue[__c_step++]`
  unfoldable pub read : RingQueue A → Option (Outcome A)
  read r = elim (get_elem? r.ring_queue r.c_step) [
    | none ↦ none
    | some x ↦ some (record r { c_step = r.c_step + 1 }, pop_wrap, got x ∷ [])
  ]

  -- The next action of a thread. One that blocks stays where it is.
  unfoldable pub move : RingQueue A → Pc A → Option (Outcome A)
  unfolding write read sem_p sem_v lock unlock
  move r idle = some (r, idle, [])
  move r (push_wait x) = elim (sem_p r.space_sem) [
    | none ↦ some (r, push_wait x, [])
    | some s ↦ some (record r { space_sem = s }, push_lock x, [])
  ]
  move r (push_lock x) = elim (lock r.p_lock) [
    | none ↦ some (r, push_lock x, [])
    | some m ↦ some (record r { p_lock = m }, push_write x, [])
  ]
  move r (push_write x) = write r x
  move r push_wrap = some (record r { p_step = r.p_step % r.size }, push_unlock, [])
  move r push_unlock = some (record r { p_lock = unlock r.p_lock }, push_post, [])
  move r push_post = some (record r { data_sem = sem_v r.data_sem }, idle, [])
  move r pop_wait = elim (sem_p r.data_sem) [
    | none ↦ some (r, pop_wait, [])
    | some s ↦ some (record r { data_sem = s }, pop_lock, [])
  ]
  move r pop_lock = elim (lock r.c_lock) [
    | none ↦ some (r, pop_lock, [])
    | some m ↦ some (record r { c_lock = m }, pop_read, [])
  ]
  move r pop_read = read r
  move r pop_wrap = some (record r { c_step = r.c_step % r.size }, pop_unlock, [])
  move r pop_unlock = some (record r { c_lock = unlock r.c_lock }, pop_post, [])
  move r pop_post = some (record r { space_sem = sem_v r.space_sem }, idle, [])
