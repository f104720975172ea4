-- ===== src/BlockQueue/Safety.antt =====
-- Schedules of threads over a BlockQueue<T> (0114/BlockQueue.hpp).
use os_net_work_code.Base.{
  ℕ, ◌+◌, ◌-◌, ◌/◌, ◌≤◌, ◌≡◌, ◌≢◌, refl, sym, ◌∙◌, subst, List, [], ◌∷◌, ◌++◌, length, get_elem?,
  set, some, Option, arith, inl, inr, ◌⊎◌, Option-cases,
}
use os_net_work_code.Base.Threads.{weigh, weigh-ge, weigh-two, weigh-eq-zero}
use os_net_work_code.Fifo.{Event, Steps, done, Steps-append}
use os_net_work_code.Sync.Laws.{held-le-one}
use os_net_work_code.BlockQueue.Defs.{init, Pc, idle, push_lock, push_sleep, pop_lock, pop_sleep}
use os_net_work_code.BlockQueue.System.{
  System, Action, call_push, call_pop, run, spurious, start, begin, call, step_run, step, exec,
  wake,
}
use os_net_work_code.BlockQueue.Invariant.{
  Inv, shift, start-Inv, wake-Inv, inserting, taking, holding, producer_asleep, consumer_asleep,
  producer_coming, consumer_coming,
}
use os_net_work_code.BlockQueue.Entry.{Good}
use os_net_work_code.BlockQueue.Moves.{move-Good}

module _ {ℓ} {A : Type ℓ} where
  stay-Good :
      {cap : ℕ} (q : List A) (s : System A)
      → s.queue.bq ≡ q
      → Inv cap 0 0 s.queue s.threads
      → Good cap q (some (s, []))
  stay-Good q s e inv = record {
    after = s;
    trace = [];
    returns = refl;
    steps = rw e done;
    inv = inv;
  }

  begin-Inv :
      {cap : ℕ} {s : System A} (i : ℕ) (p p' : Pc A)
      → get_elem? s.threads i ≡ some p
      → (p' ≡ pop_lock) ⊎ ((x : A) × (p' ≡ push_lock x))
      → Inv cap 0 0 s.queue s.threads
      → Inv cap 0 0 s.queue (set s.threads i (begin p p'))
  begin-Inv {s = s} i idle p' e (inl w) inv =
      rw w (let sh = shift s.threads i idle pop_lock e in omega (arith, inv, sh))
  begin-Inv {s = s} i idle p' e (inr (x, w)) inv =
      rw w (let sh = shift s.threads i idle (push_lock x) e in omega (arith, inv, sh))
  begin-Inv {s = s} i p p' e w inv = let sh = shift s.threads i p p e in omega (arith, inv, sh)

  call-Good :
      {cap : ℕ} {s : System A} (i : ℕ) (p' : Pc A)
      → (p' ≡ pop_lock) ⊎ ((x : A) × (p' ≡ push_lock x))
      → Inv cap 0 0 s.queue s.threads
      → Good cap s.queue.bq (some (call s i p', []))
  unfolding call
  call-Good {s = s} i p' w inv = elim (Option-cases (get_elem? s.threads i)) [
    | inl e ↦ rw (e, call) (stay-Good s.queue.bq s refl inv)
    | inr (p, e) ↦
        rw (e, call)
          (stay-Good s.queue.bq (record s { threads = set s.threads i (begin p p') }) refl
            (begin-Inv {s = s} i p p' e w inv))
  ]

  pub step-Good :
      {cap : ℕ} {s : System A} (a : Action A)
      → Inv cap 0 0 s.queue s.threads
      → Good cap s.queue.bq (step s a)
  unfolding step step_run
  step-Good (call_push i x) inv = call-Good i (push_lock x) (inr (x, refl)) inv
  step-Good (call_pop i) inv = call-Good i pop_lock (inl refl) inv
  step-Good {s = s} (run i j) inv = elim (Option-cases (get_elem? s.threads i)) [
    | inl e ↦ rw (e, step_run) (stay-Good s.queue.bq s refl inv)
    | inr (p, e) ↦ rw (e, step_run) (move-Good inv i j p e)
  ]
  step-Good {s = s} (spurious i) inv =
      stay-Good s.queue.bq (record s { threads = wake s.threads i }) refl (wake-Inv i inv)

  pub exec-Good :
      {cap : ℕ} (as' : List (Action A)) {s : System A}
      → Inv cap 0 0 s.queue s.threads
      → Good cap s.queue.bq (exec s as')
  unfolding exec
  exec-Good [] {s = s} inv = stay-Good s.queue.bq s refl inv
  exec-Good (a ∷ as') inv =
      let g = step-Good a inv in
      let h = exec-Good as' g.inv in
      record {
        after = h.after;
        trace = g.trace ++ h.trace;
        returns = rw (g.returns, exec, h.returns);
        steps = Steps-append g.steps h.steps;
        inv = h.inv;
      }

  -- Under every schedule, spurious wake-ups included, `front` and `pop` are never called on an
  -- empty queue, and the trace of what the threads put and got is a trace of a first-in first-out
  -- queue of the given capacity that ends with the items held.
  pub block_queue_refines :
      (capacity n : ℕ) (as' : List (Action A))
      → (t : System A) × (es : List (Event A)) × (exec (start A capacity n) as' ≡ some (t, es))
        × Steps capacity [] es t.queue.bq
  unfolding start init
  block_queue_refines capacity n as' =
      let g = exec-Good as' (start-Inv {A = A} capacity n) in (g.after, g.trace, g.returns, g.steps)

  pub exec-Inv :
      (capacity n : ℕ) (as' : List (Action A)) {t : System A} {es : List (Event A)}
      → exec (start A capacity n) as' ≡ some (t, es)
      → Inv capacity 0 0 t.queue t.threads
  exec-Inv capacity n as' {t} {es} e = subst (λ u. Inv capacity 0 0 u.queue u.threads) same g.inv
    where
      g : Good capacity (start A capacity n).queue.bq (exec (start A capacity n) as')
      g = exec-Good as' (start-Inv {A = A} capacity n)

      both : ◌≡◌ {A = Option (System A × List (Event A))} (some (g.after, g.trace)) (some (t, es))
      both = sym g.returns ∙ e

      same : g.after ≡ t
      same = cc both

  -- A thread that holds the mutex of the queue.
  abbrev pub inside : Pc A → ℕ
  inside p = inserting p + taking p + holding p

  pub weigh-inside :
      (ps : List (Pc A)) → weigh inside ps ≡ weigh inserting ps + weigh taking ps + weigh holding ps
  unfolding weigh
  weigh-inside [] = refl
  weigh-inside (p ∷ ps) = omega (arith, weigh-inside ps)

  -- Two different threads never hold the mutex together: at most one is between the constructor
  -- and the destructor of its lockGuard, threads that wait on a condition not counted.
  pub block_queue_exclusion :
      (capacity n : ℕ) (as' : List (Action A)) {t : System A} {es : List (Event A)} (i j : ℕ)
      (p p' : Pc A)
      → exec (start A capacity n) as' ≡ some (t, es)
      → i ≢ j
      → get_elem? t.threads i ≡ some p
      → get_elem? t.threads j ≡ some p'
      → inside p + inside p' ≤ 1
  block_queue_exclusion capacity n as' {t} i j p p' e ne ei ej =
      let inv = exec-Inv capacity n as' e in
      omega (
        arith,
        inv,
        weigh-inside t.threads,
        weigh-two inside t.threads i j p p' ne ei ej,
        held-le-one t.queue.mtx,
      )

  -- A producer asleep is not forgotten: while one sleeps and no thread is about to try again to
  -- push or about to signal that an item was taken, the queue is full.
  pub sleeping_producer :
      (capacity n : ℕ) (as' : List (Action A)) {t : System A} {es : List (Event A)} (i : ℕ) (x : A)
      → exec (start A capacity n) as' ≡ some (t, es)
      → get_elem? t.threads i ≡ some (push_sleep x)
      → ((k : ℕ) (p : Pc A) → get_elem? t.threads k ≡ some p → producer_coming p ≡ 0)
      → length t.queue.bq ≡ capacity
  sleeping_producer capacity n as' {t} i x e ei quiet =
      let inv = exec-Inv capacity n as' e in
      omega (
        arith,
        inv,
        weigh-ge producer_asleep t.threads i (push_sleep x) ei,
        weigh-eq-zero producer_coming t.threads quiet,
      )

  -- While a consumer sleeps and no thread is about to try again to pop or about to signal that an
  -- item was pushed, fewer items than half the capacity are in the queue (none, if that half is 0
  -- or 1).
  pub sleeping_consumer :
      (capacity n : ℕ) (as' : List (Action A)) {t : System A} {es : List (Event A)} (i : ℕ)
      → exec (start A capacity n) as' ≡ some (t, es)
      → get_elem? t.threads i ≡ some pop_sleep
      → ((k : ℕ) (p : Pc A) → get_elem? t.threads k ≡ some p → consumer_coming p ≡ 0)
      → length t.queue.bq ≤ capacity / 2 - 1
  sleeping_consumer capacity n as' {t} i e ei quiet =
      let inv = exec-Inv capacity n as' e in
      omega (
        arith,
        inv,
        weigh-ge consumer_asleep t.threads i pop_sleep ei,
        weigh-eq-zero consumer_coming t.threads quiet,
      )
