-- ===== src/ThreadPool/Draining.antt =====
-- The thread pool of 0211/threadPool.hpp can always run what was pushed.
use os_net_work_code.Base.{
  ℕ, zero, suc, ◌≤◌, ◌<◌, ◌≡◌, refl, sym, ap, ◌∙◌, subst, Option, some, List, [], ◌∷◌, ◌++◌, length,
  arith, inl, inr,
}
use os_net_work_code.Base.Threads.{weigh, weigh-append}
use os_net_work_code.ThreadPool.Defs.{TaskEvent}
use os_net_work_code.ThreadPool.System.{System, Action, run, start, step, exec}
use os_net_work_code.ThreadPool.Invariant.{
  pushes, takes, runs, pushes-append, runs-append, Inv, InOrder,
}
use os_net_work_code.ThreadPool.Entry.{Good, Conserves, Good-Inv}
use os_net_work_code.ThreadPool.Safety.{step-Good, exec-Good, Reached, exec-Reached}
use os_net_work_code.ThreadPool.Effort.{effort_of, step_run-Less}
use os_net_work_code.ThreadPool.Workforce.{workforce, Staffed, exec-Staffed, workforce-start_pos}
use os_net_work_code.ThreadPool.Rest.{AtRest, carried-AtRest, AtRest-empty, progress}

module _ {ℓ} {T : Type ℓ} where
  abbrev pub OnlyRuns : List (Action T) → Type 0
  OnlyRuns [] = Unit {0}
  OnlyRuns (run i j ∷ as') = OnlyRuns as'
  OnlyRuns (a ∷ as') = ⊥

  -- Where a schedule leads that leaves all threads at rest.
  record Drained (s : System T) : Type ℓ where
    actions : List (Action T)
    after : System T
    trace : List (TaskEvent T)
    only_runs : OnlyRuns actions
    returns : exec s actions ≡ some (after, trace)
    rest : AtRest after.threads
    inv : Inv 0 after.pool after.threads

  rested : (s : System T) → AtRest s.threads → Inv 0 s.pool s.threads → Drained s
  unfolding exec
  rested s rest inv = record {
    actions = [];
    after = s;
    trace = [];
    only_runs = tt;
    returns = refl;
    rest = rest;
    inv = inv;
  }

  -- The effort is enough fuel.
  drain : (fuel : ℕ) (s : System T) → effort_of s ≤ fuel → Inv 0 s.pool s.threads → Drained s
  unfolding exec step
  drain zero s h inv = elim (progress s inv) [
    | inl rest ↦ rested s rest inv
    | inr (i, p, e, less) ↦
        let (t, es, e', small) = step_run-Less s i p e less in absurd (omega (arith, h, small))
  ]
  drain (suc fuel) s h inv = elim (progress s inv) [
    | inl rest ↦ rested s rest inv
    | inr (i, p, e, less) ↦
        let (t, es, e', small) = step_run-Less s i p e less in
        let d = drain fuel t (omega (arith, h, small)) (Good-Inv (step-Good (run i 0) inv) e') in
        record {
          actions = run i 0 ∷ d.actions;
          after = d.after;
          trace = es ++ d.trace;
          only_runs = d.only_runs;
          returns = rw (exec, e', d.returns) refl;
          rest = d.rest;
          inv = d.inv;
        }
  ]

  -- What a good run of known result keeps.
  result :
      {s t : System T} {r : Option (System T × List (TaskEvent T))} {es : List (TaskEvent T)}
      → Good s r
      → r ≡ some (t, es)
      → InOrder s.pool.task_queue es t.pool.task_queue × Conserves s es t
  result {s} {t} {r} {es} g e =
      subst (λ u. InOrder s.pool.task_queue u.1 u.0.pool.task_queue × Conserves s u.1 u.0) same
        (g.order, g.conserves)
    where
      both :
          ◌≡◌ {A = Option (System T × List (TaskEvent T))} (some (g.after, g.trace)) (some (t, es))
      both = sym g.returns ∙ e

      same : ◌≡◌ {A = System T × List (TaskEvent T)} (g.after, g.trace) (t, es)
      same = cc both

  no_task : (q : List T) → length q ≡ 0 → q ≡ []
  no_task [] h = refl
  no_task (t ∷ q) h = absurd (omega (arith, h))

  staff :
      (s : System T) {t : System T} {r : Option (System T × List (TaskEvent T))}
      {es : List (TaskEvent T)}
      → Staffed s r
      → r ≡ some (t, es)
      → workforce t.threads ≡ workforce s.threads
  staff s h e = subst (Staffed s) e h

  -- A pool with a worker never gets stuck: from every state that a schedule has led to, further
  -- actions of the threads, without any new call of pushTask and without spurious wake-ups, empty
  -- the queue, and then what was pushed in all is, under every weight of the tasks, what was run.
  pub pool_drains :
      (thread_num clients : ℕ) (as' : List (Action T)) {t : System T} {es : List (TaskEvent T)}
      → 0 < thread_num
      → exec (start T thread_num clients) as' ≡ some (t, es)
      → (bs : List (Action T)) × (u : System T) × (fs : List (TaskEvent T)) × OnlyRuns bs
        × (exec t bs ≡ some (u, fs))
        × (u.pool.task_queue ≡ [])
        × ((v : T → ℕ) → weigh v (pushes (es ++ fs)) ≡ weigh v (runs (es ++ fs)))
  unfolding weigh
  pool_drains n k as' {t} {es} h e =
      (d.actions, d.after, d.trace, d.only_runs, d.returns, empty, same)
    where
      reached : Reached t es
      reached = exec-Reached n k as' e

      d : Drained t
      d = drain (effort_of t) t (omega arith) reached.inv

      empty : d.after.pool.task_queue ≡ []
      empty = no_task d.after.pool.task_queue (
          AtRest-empty d.after d.inv
            (omega (
              arith,
              staff t (exec-Staffed d.actions t) d.returns,
              staff (start T n k) (exec-Staffed as' (start T n k)) e,
              workforce-start_pos T n k h,
            ))
            d.rest)

      g : InOrder t.pool.task_queue d.trace d.after.pool.task_queue × Conserves t d.trace d.after
      g = result (exec-Good d.actions reached.inv) d.returns

      same : (v : T → ℕ) → weigh v (pushes (es ++ d.trace)) ≡ weigh v (runs (es ++ d.trace))
      same v = omega (
        arith,
        ap (weigh v) (pushes-append es d.trace),
        ap (weigh v) (runs-append es d.trace),
        weigh-append v (pushes es) (pushes d.trace),
        weigh-append v (runs es) (runs d.trace),
        ap (weigh v) reached.order,
        weigh-append v (takes es) t.pool.task_queue,
        reached.conserves v,
        ap (weigh v) g.0,
        weigh-append v t.pool.task_queue (pushes d.trace),
        weigh-append v (takes d.trace) d.after.pool.task_queue,
        ap (weigh v) empty,
        g.1 v,
        carried-AtRest v d.after.threads d.rest,
      )
