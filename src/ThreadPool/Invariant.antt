-- ===== src/ThreadPool/Invariant.antt =====
-- The invariant of ThreadPool<T> (0211/threadPool.hpp): who holds the mutex, and that a worker
-- sleeps only while enough others are still to look at the queue.
use os_net_work_code.Base.{
  ℕ, ◌+◌, ◌≤◌, ◌≡◌, refl, ap, sym, ◌∙◌, append_assoc, ◌⊎◌, inl, inr, Bool, true, false, Option,
  none, some, List, [], ◌∷◌, ◌++◌, length, get_elem?, set, replicate, arith, Option-cases,
}
use os_net_work_code.Base.Threads.{weigh, weigh-set, weigh-replicate, weigh-append}
use os_net_work_code.Sync.{held}
use os_net_work_code.Sync.Cond.{Target, signal_target, signal_target-Target}
use os_net_work_code.ThreadPool.Defs.{
  Pool, init, workers, Pc, idle, push_insert, push_signal, push_unlock, created, work_test,
  work_sleep, work_wake, work_take, work_unlock, work_run, TaskEvent, pushed, taken, ran,
}
use os_net_work_code.ThreadPool.System.{start, asleep, awake, wake, signalled}

module _ {ℓ} {T : Type ℓ} where
  -- The tasks pushed, taken from the queue and run, in the order of a trace.
  unfoldable pub pushes : List (TaskEvent T) → List T
  pushes [] = []
  pushes (pushed t ∷ es) = t ∷ pushes es
  pushes (taken t ∷ es) = pushes es
  pushes (ran t ∷ es) = pushes es

  unfoldable pub takes : List (TaskEvent T) → List T
  takes [] = []
  takes (pushed t ∷ es) = takes es
  takes (taken t ∷ es) = t ∷ takes es
  takes (ran t ∷ es) = takes es

  unfoldable pub runs : List (TaskEvent T) → List T
  runs [] = []
  runs (pushed t ∷ es) = runs es
  runs (taken t ∷ es) = runs es
  runs (ran t ∷ es) = t ∷ runs es

  pub pushes-append : (es fs : List (TaskEvent T)) → pushes (es ++ fs) ≡ pushes es ++ pushes fs
  unfolding pushes
  pushes-append [] fs = refl
  pushes-append (pushed t ∷ es) fs = ap (◌∷◌ t) (pushes-append es fs)
  pushes-append (taken t ∷ es) fs = pushes-append es fs
  pushes-append (ran t ∷ es) fs = pushes-append es fs

  pub takes-append : (es fs : List (TaskEvent T)) → takes (es ++ fs) ≡ takes es ++ takes fs
  unfolding takes
  takes-append [] fs = refl
  takes-append (pushed t ∷ es) fs = takes-append es fs
  takes-append (taken t ∷ es) fs = ap (◌∷◌ t) (takes-append es fs)
  takes-append (ran t ∷ es) fs = takes-append es fs

  pub runs-append : (es fs : List (TaskEvent T)) → runs (es ++ fs) ≡ runs es ++ runs fs
  unfolding runs
  runs-append [] fs = refl
  runs-append (pushed t ∷ es) fs = runs-append es fs
  runs-append (taken t ∷ es) fs = runs-append es fs
  runs-append (ran t ∷ es) fs = ap (◌∷◌ t) (runs-append es fs)

  -- The queue `q` becomes `q'` by the trace, in first-in first-out order.
  abbrev pub InOrder : List T → List (TaskEvent T) → List T → Type ℓ
  InOrder q es q' = q ++ pushes es ≡ takes es ++ q'

  pub InOrder-append :
      (q q' q'' : List T) (es fs : List (TaskEvent T))
      → InOrder q es q'
      → InOrder q' fs q''
      → InOrder q (es ++ fs) q''
  InOrder-append q q' q'' es fs h k =
      rw (pushes-append es fs, takes-append es fs)
        (sym (append_assoc q (pushes es) (pushes fs))
          ∙ ap (λ l. l ++ pushes fs) h
          ∙ append_assoc (takes es) q' (pushes fs)
          ∙ ap (◌++◌ (takes es)) k
          ∙ sym (append_assoc (takes es) (takes fs) q''))

  -- The weight of the task that a worker has taken and not run to its end.
  abbrev pub carried : (T → ℕ) → Pc T → ℕ
  carried v (work_unlock t) = v t
  carried v (work_run t) = v t
  carried v p = 0

  abbrev pub taking : Pc T → ℕ
  taking work_take = 1
  taking p = 0

  -- Holding the mutex, and not about to take a task.
  abbrev pub holding : Pc T → ℕ
  holding (push_insert _) = 1
  holding push_signal = 1
  holding push_unlock = 1
  holding work_test = 1
  holding (work_unlock _) = 1
  holding p = 0

  abbrev pub sleeping : Pc T → ℕ
  sleeping work_sleep = 1
  sleeping p = 0

  -- A worker that will look at the queue again, or a client that has still to wake one.
  abbrev pub coming : Pc T → ℕ
  coming work_wake = 1
  coming work_test = 1
  coming work_take = 1
  coming push_signal = 1
  coming p = 0

  -- `owed` counts a wake-up that the action at hand has still to make.
  pub record Inv (owed : ℕ) (b : Pool T) (ps : List (Pc T)) : Type ℓ where
    pub held_by : held b.mutex ≡ weigh taking ps + weigh holding ps
    pub ready : weigh taking ps ≤ length b.task_queue
    pub served : (weigh sleeping ps ≡ 0) ⊎ (length b.task_queue ≤ weigh coming ps + owed)

  pub record Shift (ps : List (Pc T)) (i : ℕ) (p p' : Pc T) : Type ℓ where
    pub taking_moved : weigh taking (set ps i p') + taking p ≡ weigh taking ps + taking p'
    pub holding_moved : weigh holding (set ps i p') + holding p ≡ weigh holding ps + holding p'
    pub sleeping_moved : weigh sleeping (set ps i p') + sleeping p ≡ weigh sleeping ps + sleeping p'
    pub coming_moved : weigh coming (set ps i p') + coming p ≡ weigh coming ps + coming p'

  pub shift : (ps : List (Pc T)) (i : ℕ) (p p' : Pc T) → get_elem? ps i ≡ some p → Shift ps i p p'
  shift ps i p p' e = record {
    taking_moved = weigh-set taking ps i p p' e;
    holding_moved = weigh-set holding ps i p p' e;
    sleeping_moved = weigh-set sleeping ps i p p' e;
    coming_moved = weigh-set coming ps i p p' e;
  }

  pub weigh-start :
      (w : Pc T → ℕ) (n k : ℕ) → w created ≡ 0 → w idle ≡ 0 → weigh w (start T n k).threads ≡ 0
  unfolding start workers
  weigh-start w n k a b = omega (
    arith,
    weigh-append w (replicate n created) (replicate k idle),
    weigh-replicate w n created a,
    weigh-replicate w k idle b,
  )

  pub start-Inv : (n k : ℕ) → Inv 0 (start T n k).pool (start T n k).threads
  unfolding start init
  start-Inv n k = omega (
    arith,
    weigh-start taking n k refl refl,
    weigh-start holding n k refl refl,
    weigh-start sleeping n k refl refl,
  )

  module _ {b : Pool T} {ps : List (Pc T)} where
    awake-Inv :
        (k : ℕ) (p : Pc T) → get_elem? ps k ≡ some p → Inv 0 b ps → Inv 0 b (set ps k (awake p))
    awake-Inv k work_sleep e inv =
        let sh = shift ps k work_sleep work_wake e in omega (arith, inv, sh)
    awake-Inv k p e inv = let sh = shift ps k p (awake p) e in omega (arith, inv, sh)

    -- Waking a thread unasked keeps the invariant.
    pub wake-Inv : (k : ℕ) → Inv 0 b ps → Inv 0 b (wake ps k)
    unfolding wake
    wake-Inv k inv = elim (Option-cases (get_elem? ps k)) [
      | inl e ↦ rw (e, wake) inv
      | inr (p, e) ↦ rw (e, wake) (awake-Inv k p e inv)
    ]

    awake_sleeper-Inv :
        (k : ℕ) (p : Pc T)
        → get_elem? ps k ≡ some p
        → asleep p ≡ true
        → Inv 1 b ps
        → Inv 0 b (set ps k (awake p))
    awake_sleeper-Inv k work_sleep e a inv =
        let sh = shift ps k work_sleep work_wake e in omega (arith, inv, sh)
    awake_sleeper-Inv k p e a inv = absurd (cc)

    -- A signal pays the wake-up that is owed.
    pub signal-Inv : (j : ℕ) → Inv 1 b ps → Inv 0 b (signalled true j ps)
    unfolding signalled wake
    signal-Inv j inv = from (signal_target asleep ps j) (signal_target-Target _ ps j)
      where
        unasked : (p : Pc T) → asleep p ≡ false → sleeping p ≡ 0
        unasked work_sleep h = absurd (cc)
        unasked p h = refl

        from :
            (o : Option ℕ)
            → Target asleep ps o
            → Inv 0 b (elim o [ none ↦ ps | some k ↦ wake ps k ])
        from none t = omega (arith, inv, t sleeping unasked)
        from (some k) (p, e, a) = rw (e, wake) (awake_sleeper-Inv k p e a inv)

  -- Waking a thread moves no task.
  pub carried-wake :
      (v : T → ℕ) (ps : List (Pc T)) (k : ℕ) → weigh (carried v) (wake ps k) ≡ weigh (carried v) ps
  unfolding wake
  carried-wake v ps k = elim (Option-cases (get_elem? ps k)) [
    | inl e ↦ rw (e, wake)
    | inr (p, e) ↦ rw (e, wake) (unmoved p e)
  ]
    where
      unmoved :
          (p : Pc T)
          → get_elem? ps k ≡ some p
          → weigh (carried v) (set ps k (awake p)) ≡ weigh (carried v) ps
      unmoved work_sleep e = omega (arith, weigh-set (carried v) ps k work_sleep work_wake e)
      unmoved p e = omega (arith, weigh-set (carried v) ps k p (awake p) e)

  pub carried-signalled :
      (v : T → ℕ) (b : Bool) (j : ℕ) (ps : List (Pc T))
      → weigh (carried v) (signalled b j ps) ≡ weigh (carried v) ps
  unfolding signalled
  carried-signalled v false j ps = refl
  carried-signalled v true j ps = from (signal_target asleep ps j)
    where
      from :
          (o : Option ℕ)
          → weigh (carried v) (elim o [ none ↦ ps | some k ↦ wake ps k ]) ≡ weigh (carried v) ps
      from none = refl
      from (some k) = carried-wake v ps k
