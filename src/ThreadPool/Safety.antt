-- ===== src/ThreadPool/Safety.antt =====
-- Schedules of the threads of a ThreadPool<T> (0211/threadPool.hpp).
use os_net_work_code.Base.{
  ℕ, ◌+◌, ◌≤◌, ◌≡◌, ◌≢◌, refl, sym, ap, ◌∙◌, subst, List, [], ◌∷◌, ◌++◌, append-nil, length,
  get_elem?, set, some, Option, arith, inl, inr, Option-cases,
}
use os_net_work_code.Base.Threads.{
  weigh, weigh-ge, weigh-set, weigh-two, weigh-eq-zero, weigh-append,
}
use os_net_work_code.Sync.Laws.{held-le-one}
use os_net_work_code.ThreadPool.Defs.{init, Pc, idle, push_lock, work_sleep, TaskEvent}
use os_net_work_code.ThreadPool.System.{
  System, Action, push_task, run, spurious, start, begin, call, step_run, step, exec, wake,
}
use os_net_work_code.ThreadPool.Invariant.{
  pushes, takes, runs, takes-append, runs-append, InOrder-append, carried, carried-wake, Inv, shift,
  start-Inv, weigh-start, wake-Inv, taking, holding, sleeping, coming,
}
use os_net_work_code.ThreadPool.Entry.{Good}
use os_net_work_code.ThreadPool.Moves.{move-Good}

module _ {ℓ} {T : Type ℓ} where
  -- An action that touches the threads alone, and no task.
  still-Good :
      (s : System T) (ps : List (Pc T))
      → ((v : T → ℕ) → weigh (carried v) ps ≡ weigh (carried v) s.threads)
      → Inv 0 s.pool ps
      → Good s (some (record s { threads = ps }, []))
  unfolding pushes takes runs weigh
  still-Good s ps keeps inv = record {
    after = record s { threads = ps };
    trace = [];
    returns = refl;
    order = append-nil s.pool.task_queue;
    conserves = λ v. omega (arith, keeps v);
    inv = inv;
  }

  begin-Inv :
      {s : System T} (i : ℕ) (p : Pc T) (t : T)
      → get_elem? s.threads i ≡ some p
      → Inv 0 s.pool s.threads
      → Inv 0 s.pool (set s.threads i (begin p (push_lock t)))
  begin-Inv {s} i idle t e inv =
      let sh = shift s.threads i idle (push_lock t) e in omega (arith, inv, sh)
  begin-Inv {s} i p t e inv = let sh = shift s.threads i p p e in omega (arith, inv, sh)

  begin-carried :
      (v : T → ℕ) (ps : List (Pc T)) (i : ℕ) (p : Pc T) (t : T)
      → get_elem? ps i ≡ some p
      → weigh (carried v) (set ps i (begin p (push_lock t))) ≡ weigh (carried v) ps
  begin-carried v ps i idle t e = omega (arith, weigh-set (carried v) ps i idle (push_lock t) e)
  begin-carried v ps i p t e = omega (arith, weigh-set (carried v) ps i p p e)

  call-Good :
      {s : System T} (i : ℕ) (t : T)
      → Inv 0 s.pool s.threads
      → Good s (some (call s i (push_lock t), []))
  unfolding call
  call-Good {s} i t inv = elim (Option-cases (get_elem? s.threads i)) [
    | inl e ↦ rw (e, call) (still-Good s s.threads (λ v. refl) inv)
    | inr (p, e) ↦
        rw (e, call)
          (still-Good s (set s.threads i (begin p (push_lock t)))
            (λ v. begin-carried v s.threads i p t e) (begin-Inv {s = s} i p t e inv))
  ]

  pub step-Good : {s : System T} (a : Action T) → Inv 0 s.pool s.threads → Good s (step s a)
  unfolding step step_run
  step-Good (push_task i t) inv = call-Good i t inv
  step-Good {s} (run i j) inv = elim (Option-cases (get_elem? s.threads i)) [
    | inl e ↦ rw (e, step_run) (still-Good s s.threads (λ v. refl) inv)
    | inr (p, e) ↦ rw (e, step_run) (move-Good inv i j p e)
  ]
  step-Good {s} (spurious i) inv =
      still-Good s (wake s.threads i) (λ v. carried-wake v s.threads i) (wake-Inv i inv)

  pub exec-Good :
      (as' : List (Action T)) {s : System T} → Inv 0 s.pool s.threads → Good s (exec s as')
  unfolding exec
  exec-Good [] {s = s} inv = still-Good s s.threads (λ v. refl) inv
  exec-Good (a ∷ as') {s = s} inv =
      let g = step-Good a inv in
      let h = exec-Good as' g.inv in
      record {
        after = h.after;
        trace = g.trace ++ h.trace;
        returns = rw (g.returns, exec, h.returns);
        order =
            InOrder-append s.pool.task_queue g.after.pool.task_queue h.after.pool.task_queue g.trace
              h.trace g.order h.order;
        conserves = λ v. omega (
          arith,
          g.conserves v,
          h.conserves v,
          ap (weigh v) (takes-append g.trace h.trace),
          ap (weigh v) (runs-append g.trace h.trace),
          weigh-append v (takes g.trace) (takes h.trace),
          weigh-append v (runs g.trace) (runs h.trace),
        );
        inv = h.inv;
      }

  -- Under every schedule, spurious wake-ups included, `getTask` is never called on an empty queue,
  -- and tasks leave the queue in the order in which they were pushed: what was pushed is what was
  -- taken, followed by what the queue holds.
  pub tasks_in_order :
      (thread_num clients : ℕ) (as' : List (Action T))
      → (t : System T) × (es : List (TaskEvent T)) × (exec (start T thread_num clients) as'
          ≡ some (t, es))
        × (pushes es ≡ takes es ++ t.pool.task_queue)
  unfolding start init
  tasks_in_order n k as' =
      let g = exec-Good as' (start-Inv {T = T} n k) in (g.after, g.trace, g.returns, g.order)

  -- What is known of a system that a schedule has led to.
  pub record Reached (t : System T) (es : List (TaskEvent T)) : Type ℓ where
    pub order : pushes es ≡ takes es ++ t.pool.task_queue
    pub conserves :
        (v : T → ℕ) → weigh v (takes es) ≡ weigh (carried v) t.threads + weigh v (runs es)
    pub inv : Inv 0 t.pool t.threads

  pub exec-Reached :
      (thread_num clients : ℕ) (as' : List (Action T)) {t : System T} {es : List (TaskEvent T)}
      → exec (start T thread_num clients) as' ≡ some (t, es)
      → Reached t es
  exec-Reached n k as' {t} {es} e =
      subst (λ u. Reached u es) same_after (subst (λ fs. Reached g.after fs) same_trace here)
    where
      g : Good (start T n k) (exec (start T n k) as')
      g = exec-Good as' (start-Inv {T = T} n k)

      both :
          ◌≡◌ {A = Option (System T × List (TaskEvent T))} (some (g.after, g.trace)) (some (t, es))
      both = sym g.returns ∙ e

      same_after : g.after ≡ t
      same_after = cc both

      same_trace : g.trace ≡ es
      same_trace = cc both

      here : Reached g.after g.trace
      here = record {
        order = unfold start init in g.order;
        conserves = λ v. omega (arith, g.conserves v, weigh-start (carried v) n k refl refl);
        inv = g.inv;
      }

  -- No task is lost and none is run twice: under every weight of tasks, what was pushed weighs as
  -- much as what is queued, what workers have taken and not yet run, and what was run, together.
  pub tasks_conserved :
      (thread_num clients : ℕ) (as' : List (Action T)) {t : System T} {es : List (TaskEvent T)}
      (v : T → ℕ)
      → exec (start T thread_num clients) as' ≡ some (t, es)
      → weigh v (pushes es)
        ≡ weigh v t.pool.task_queue + weigh (carried v) t.threads + weigh v (runs es)
  tasks_conserved n k as' {t} {es} v e =
      let r = exec-Reached n k as' e in
      omega
        (arith, r.conserves v, ap (weigh v) r.order, weigh-append v (takes es) t.pool.task_queue)

  -- A thread that holds the mutex of the pool.
  abbrev pub inside : Pc T → ℕ
  inside p = taking p + holding p

  pub weigh-inside : (ps : List (Pc T)) → weigh inside ps ≡ weigh taking ps + weigh holding ps
  unfolding weigh
  weigh-inside [] = refl
  weigh-inside (p ∷ ps) = omega (arith, weigh-inside ps)

  -- At most one thread is between the constructor and the destructor of its lockGuard, threads in
  -- waitCond not counted.
  pub pool_exclusion :
      (thread_num clients : ℕ) (as' : List (Action T)) {t : System T} {es : List (TaskEvent T)}
      (i j : ℕ) (p p' : Pc T)
      → exec (start T thread_num clients) as' ≡ some (t, es)
      → i ≢ j
      → get_elem? t.threads i ≡ some p
      → get_elem? t.threads j ≡ some p'
      → inside p + inside p' ≤ 1
  pool_exclusion n k as' {t} i j p p' e ne ei ej =
      let r = exec-Reached n k as' e in
      omega (
        arith,
        r.inv,
        weigh-inside t.threads,
        weigh-two inside t.threads i j p p' ne ei ej,
        held-le-one t.pool.mutex,
      )

  -- While a worker sleeps and no thread is about to look at the queue or to signal, the queue is
  -- empty: no task waits beside a sleeping worker.
  pub no_task_stranded :
      (thread_num clients : ℕ) (as' : List (Action T)) {t : System T} {es : List (TaskEvent T)}
      (i : ℕ)
      → exec (start T thread_num clients) as' ≡ some (t, es)
      → get_elem? t.threads i ≡ some work_sleep
      → ((k : ℕ) (p : Pc T) → get_elem? t.threads k ≡ some p → coming p ≡ 0)
      → length t.pool.task_queue ≡ 0
  no_task_stranded n k as' {t} i e ei quiet =
      let r = exec-Reached n k as' e in
      omega (
        arith,
        r.inv,
        weigh-ge sleeping t.threads i work_sleep ei,
        weigh-eq-zero coming t.threads quiet,
      )
