-- ===== src/RingQueue/Invariant.antt =====
-- The invariant of RingQueue<T> (0208/RingQueue/ringQueue.hpp): how the semaphores, the locks and
-- the two indices count the threads inside `push` and `pop`, and what the vector holds.
use os_net_work_code.Base.{
  ℕ, ◌+◌, ◌%◌, ◌<◌, ◌≡◌, refl, List, [], length, length-replicate, get_elem?, some, set, arith,
}
use os_net_work_code.Base.Threads.{weigh, weigh-set, weigh-replicate}
use os_net_work_code.Sync.{held, sem_init}
use os_net_work_code.RingQueue.Defs.{
  RingQueue, init, Pc, idle, push_lock, push_write, push_wrap, push_unlock, push_post, pop_lock,
  pop_read, pop_wrap, pop_unlock, pop_post,
}
use os_net_work_code.RingQueue.System.{System, start}

module _ {ℓ} {A : Type ℓ} where
  abbrev pub at_push_lock : Pc A → ℕ
  at_push_lock (push_lock _) = 1
  at_push_lock _ = 0

  abbrev pub at_push_write : Pc A → ℕ
  at_push_write (push_write _) = 1
  at_push_write _ = 0

  abbrev pub at_push_wrap : Pc A → ℕ
  at_push_wrap push_wrap = 1
  at_push_wrap _ = 0

  abbrev pub at_push_unlock : Pc A → ℕ
  at_push_unlock push_unlock = 1
  at_push_unlock _ = 0

  abbrev pub at_push_post : Pc A → ℕ
  at_push_post push_post = 1
  at_push_post _ = 0

  abbrev pub at_pop_lock : Pc A → ℕ
  at_pop_lock pop_lock = 1
  at_pop_lock _ = 0

  abbrev pub at_pop_read : Pc A → ℕ
  at_pop_read pop_read = 1
  at_pop_read _ = 0

  abbrev pub at_pop_wrap : Pc A → ℕ
  at_pop_wrap pop_wrap = 1
  at_pop_wrap _ = 0

  abbrev pub at_pop_unlock : Pc A → ℕ
  at_pop_unlock pop_unlock = 1
  at_pop_unlock _ = 0

  abbrev pub at_pop_post : Pc A → ℕ
  at_pop_post pop_post = 1
  at_pop_post _ = 0

  -- Producers that have booked a place and not written it yet; that have written and not posted.
  abbrev pub booked : List (Pc A) → ℕ
  booked ps = weigh at_push_lock ps + weigh at_push_write ps

  abbrev pub written : List (Pc A) → ℕ
  written ps = weigh at_push_wrap ps + weigh at_push_unlock ps + weigh at_push_post ps

  -- Consumers that have booked an item and not read it yet; that have read and not posted.
  abbrev pub claimed : List (Pc A) → ℕ
  claimed ps = weigh at_pop_lock ps + weigh at_pop_read ps

  abbrev pub freed : List (Pc A) → ℕ
  freed ps = weigh at_pop_wrap ps + weigh at_pop_unlock ps + weigh at_pop_post ps

  -- The threads between `pthread_mutex_lock` and `pthread_mutex_unlock`, of `push` and of `pop`.
  abbrev pub in_push : List (Pc A) → ℕ
  in_push ps = weigh at_push_write ps + weigh at_push_wrap ps + weigh at_push_unlock ps

  abbrev pub in_pop : List (Pc A) → ℕ
  in_pop ps = weigh at_pop_read ps + weigh at_pop_wrap ps + weigh at_pop_unlock ps

  -- Locks, semaphores and the ranges of the indices, `n` items being in the queue.
  pub record Counts (cap n : ℕ) (r : RingQueue A) (ps : List (Pc A)) : Type ℓ where
    pub positive : 0 < cap
    pub size_cap : r.size ≡ cap
    pub room : length r.ring_queue ≡ cap
    pub p_held : held r.p_lock ≡ in_push ps
    pub c_held : held r.c_lock ≡ in_pop ps
    pub p_range : r.p_step < cap + weigh at_push_wrap ps
    pub c_range : r.c_step < cap + weigh at_pop_wrap ps
    pub space : r.space_sem.value + booked ps + n + freed ps ≡ cap
    pub ready : r.data_sem.value + written ps + claimed ps ≡ n

  -- The items `q` stand in the vector from the consumers' index on, and the producers' index is
  -- behind them.
  pub record Content (cap : ℕ) (buf : List A) (c p : ℕ) (q : List A) : Type ℓ where
    pub behind : p % cap ≡ (c + length q) % cap
    pub stored : (k : ℕ) → k < length q → get_elem? buf ((c + k) % cap) ≡ get_elem? q k

  pub record Inv (cap : ℕ) (s : System A) (q : List A) : Type ℓ where
    pub counts : Counts cap (length q) s.ring s.threads
    pub content : Content cap s.ring.ring_queue s.ring.c_step s.ring.p_step q

  -- How the number of threads at each place changes when thread `i` goes from `p` to `p'`.
  pub record Shift (ps : List (Pc A)) (i : ℕ) (p p' : Pc A) : Type 0 where
    pub push_lock_moved :
        weigh at_push_lock (set ps i p') + at_push_lock p ≡ weigh at_push_lock ps + at_push_lock p'
    pub push_write_moved :
        weigh at_push_write (set ps i p') + at_push_write p
        ≡ weigh at_push_write ps + at_push_write p'
    pub push_wrap_moved :
        weigh at_push_wrap (set ps i p') + at_push_wrap p ≡ weigh at_push_wrap ps + at_push_wrap p'
    pub push_unlock_moved :
        weigh at_push_unlock (set ps i p') + at_push_unlock p
        ≡ weigh at_push_unlock ps + at_push_unlock p'
    pub push_post_moved :
        weigh at_push_post (set ps i p') + at_push_post p ≡ weigh at_push_post ps + at_push_post p'
    pub pop_lock_moved :
        weigh at_pop_lock (set ps i p') + at_pop_lock p ≡ weigh at_pop_lock ps + at_pop_lock p'
    pub pop_read_moved :
        weigh at_pop_read (set ps i p') + at_pop_read p ≡ weigh at_pop_read ps + at_pop_read p'
    pub pop_wrap_moved :
        weigh at_pop_wrap (set ps i p') + at_pop_wrap p ≡ weigh at_pop_wrap ps + at_pop_wrap p'
    pub pop_unlock_moved :
        weigh at_pop_unlock (set ps i p') + at_pop_unlock p
        ≡ weigh at_pop_unlock ps + at_pop_unlock p'
    pub pop_post_moved :
        weigh at_pop_post (set ps i p') + at_pop_post p ≡ weigh at_pop_post ps + at_pop_post p'

  pub shift : (ps : List (Pc A)) (i : ℕ) (p p' : Pc A) → get_elem? ps i ≡ some p → Shift ps i p p'
  shift ps i p p' e = record {
    push_lock_moved = weigh-set at_push_lock ps i p p' e;
    push_write_moved = weigh-set at_push_write ps i p p' e;
    push_wrap_moved = weigh-set at_push_wrap ps i p p' e;
    push_unlock_moved = weigh-set at_push_unlock ps i p p' e;
    push_post_moved = weigh-set at_push_post ps i p p' e;
    pop_lock_moved = weigh-set at_pop_lock ps i p p' e;
    pop_read_moved = weigh-set at_pop_read ps i p p' e;
    pop_wrap_moved = weigh-set at_pop_wrap ps i p p' e;
    pop_unlock_moved = weigh-set at_pop_unlock ps i p p' e;
    pop_post_moved = weigh-set at_pop_post ps i p p' e;
  }

  -- The constructor establishes the invariant with no items.
  pub start-Inv : (blank : A) (cap n : ℕ) → 0 < cap → Inv cap (start blank cap n) []
  unfolding start init sem_init
  start-Inv blank cap n h = record { counts = counts; content = content }
    where
      none_at : (w : Pc A → ℕ) → w idle ≡ 0 → weigh w (start blank cap n).threads ≡ 0
      none_at w e = weigh-replicate w n idle e

      counts : Counts cap 0 (start blank cap n).ring (start blank cap n).threads
      counts = omega (
        arith,
        length-replicate cap blank,
        none_at at_push_lock refl,
        none_at at_push_write refl,
        none_at at_push_wrap refl,
        none_at at_push_unlock refl,
        none_at at_push_post refl,
        none_at at_pop_lock refl,
        none_at at_pop_read refl,
        none_at at_pop_wrap refl,
        none_at at_pop_unlock refl,
        none_at at_pop_post refl,
      )

      content : Content cap (start blank cap n).ring.ring_queue 0 0 []
      content = record { behind = refl; stored = λ k lt. elim lt [ ] }
