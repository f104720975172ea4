-- ===== src/ThreadPool/Effort.antt =====
-- What is left to do in the thread pool of 0211/threadPool.hpp, as a number that falls.
use os_net_work_code.Base.{
  ℕ, ◌+◌, ◌*◌, ◌≤◌, ◌<◌, ◌≡◌, refl, Bool, true, false, Bool-cases, some, Option-cases, List, [],
  ◌∷◌, length, length-append, get_elem?, set, if◌then◌else◌, arith, inl, inr,
}
use os_net_work_code.Base.Threads.{weigh, weigh-set}
use os_net_work_code.Sync.{held}
use os_net_work_code.Sync.Laws.{lock-cases}
use os_net_work_code.Sync.Cond.{signal_target}
use os_net_work_code.ThreadPool.Defs.{
  Pool, Pc, idle, push_lock, push_insert, push_signal, push_unlock, created, work_lock, work_test,
  work_sleep, work_wake, work_take, work_unlock, work_run, TaskEvent, Outcome, enter_lock, get_task,
  is_empty, release, move,
}
use os_net_work_code.ThreadPool.System.{System, asleep, awake, wake, signalled, finish, step_run}
use os_net_work_code.ThreadPool.Invariant.{taking}
use os_net_work_code.ThreadPool.Safety.{inside}

-- A signal may wake a worker.
abbrev owed : Bool → ℕ
owed true = 2
owed false = 0

module _ {ℓ} {T : Type ℓ} where
  -- A task that waits in the queue costs 5, a wake-up 2.
  abbrev pub effort : Pc T → ℕ
  effort idle = 0
  effort (push_lock t) = 11
  effort (push_insert t) = 10
  effort push_signal = 4
  effort push_unlock = 1
  effort created = 3
  effort work_lock = 2
  effort work_test = 1
  effort work_sleep = 0
  effort work_wake = 2
  effort work_take = 0
  effort (work_unlock t) = 4
  effort (work_run t) = 3

  abbrev pub effort_of : System T → ℕ
  effort_of s = weigh effort s.threads + 5 * length s.pool.task_queue

  -- Outside the mutex, and neither at rest nor asleep.
  abbrev pub outside : Pc T → ℕ
  outside (push_lock t) = 1
  outside created = 1
  outside work_lock = 1
  outside work_wake = 1
  outside (work_run t) = 1
  outside p = 0

  -- The next action of a thread is defined and leaves less to do.
  abbrev pub Less : Pool T → Pc T → Type ℓ
  Less b p =
      (o : Outcome T) × (move b p ≡ some o)
      × (effort o.place + 5 * length o.pool.task_queue + owed o.signals
          < effort p + 5 * length b.task_queue)

  get_task-Less :
      (b : Pool T) (q : List T)
      → 0 < length q
      → (o : Outcome T) × (get_task b q ≡ some o)
        × (effort o.place + 5 * length o.pool.task_queue + owed o.signals < 5 * length q)
  unfolding get_task
  get_task-Less b [] h = absurd (omega (arith, h))
  get_task-Less b (t ∷ q) h = (_, refl, omega arith)

  -- A thread that holds the mutex.
  pub inside-Less :
      (b : Pool T) (p : Pc T) → 0 < inside p → (0 < taking p → 0 < length b.task_queue) → Less b p
  unfolding move
  inside-Less b (push_insert t) h q = (_, refl, omega (arith, length-append b.task_queue (t ∷ [])))
  inside-Less b push_signal h q = (_, refl, omega arith)
  inside-Less b push_unlock h q = (_, refl, omega arith)
  inside-Less b work_test h q = elim (Bool-cases (is_empty b)) [
    | inl e ↦ (
      record { pool = release b; place = work_sleep; trace = []; signals = false },
      rw (e, move, if◌then◌else◌) refl,
      omega arith,
    )
    | inr e ↦ (
      record { pool = b; place = work_take; trace = []; signals = false },
      rw (e, move, if◌then◌else◌) refl,
      omega arith,
    )
  ]
  inside-Less b work_take h q =
      let (o, e, less) = get_task-Less b b.task_queue (q (omega arith)) in
      (o, e, omega (arith, less))
  inside-Less b (work_unlock t) h q = (_, refl, omega arith)
  inside-Less b p h q = absurd (omega (arith, h))

  enter-Less :
      (b : Pool T) (p p' : Pc T)
      → held b.mutex ≡ 0
      → effort p' < effort p
      → (o : Outcome T) × (enter_lock b p p' ≡ some o)
        × (effort o.place + 5 * length o.pool.task_queue + owed o.signals
            < effort p + 5 * length b.task_queue)
  unfolding enter_lock
  enter-Less b p p' free h = elim (lock-cases b.mutex) [
    | inl (z, n) ↦ absurd (omega (arith, z, free))
    | inr (m, z, k, n) ↦ (
      record { pool = record b { mutex = m }; place = p'; trace = []; signals = false },
      rw (n, enter_lock) refl,
      omega (arith, h),
    )
  ]

  -- A thread outside, while the mutex is free.
  pub outside-Less : (b : Pool T) (p : Pc T) → held b.mutex ≡ 0 → 0 < outside p → Less b p
  unfolding move
  outside-Less b (push_lock t) free h =
      enter-Less b (push_lock t) (push_insert t) free (omega arith)
  outside-Less b created free h = (_, refl, omega arith)
  outside-Less b work_lock free h = enter-Less b work_lock work_test free (omega arith)
  outside-Less b work_wake free h = enter-Less b work_wake work_test free (omega arith)
  outside-Less b (work_run t) free h = (_, refl, omega arith)
  outside-Less b p free h = absurd (omega (arith, h))

  awake-effort : (p : Pc T) → effort (awake p) ≤ effort p + 2
  awake-effort work_sleep = omega arith
  awake-effort p = omega arith

  wake-effort : (ps : List (Pc T)) (k : ℕ) → weigh effort (wake ps k) ≤ weigh effort ps + 2
  unfolding wake
  wake-effort ps k = elim (Option-cases (get_elem? ps k)) [
    | inl e ↦ rw (wake, e) (omega arith)
    | inr (p, e) ↦ rw (wake, e) (omega (arith, weigh-set effort ps k p (awake p) e, awake-effort p))
  ]

  signalled-effort :
      (b : Bool) (j : ℕ) (ps : List (Pc T))
      → weigh effort (signalled b j ps) ≤ weigh effort ps + owed b
  unfolding signalled
  signalled-effort false j ps = omega arith
  signalled-effort true j ps = elim (Option-cases (signal_target asleep ps j)) [
    | inl e ↦ rw (signalled, e) (omega arith)
    | inr (k, e) ↦ rw (signalled, e) (wake-effort ps k)
  ]

  -- Such an action, in the system.
  pub step_run-Less :
      (s : System T) (i : ℕ) (p : Pc T)
      → get_elem? s.threads i ≡ some p
      → Less s.pool p
      → (t : System T) × (es : List (TaskEvent T)) × (step_run s i 0 ≡ some (t, es))
        × (effort_of t < effort_of s)
  unfolding step_run finish
  step_run-Less s i p e (o, m, less) = (
    record { pool = o.pool; threads = signalled o.signals 0 (set s.threads i o.place) },
    o.trace,
    rw (step_run, e, m, finish) refl,
    omega (
      arith,
      less,
      signalled-effort o.signals 0 (set s.threads i o.place),
      weigh-set effort s.threads i p o.place e,
    ),
  )
