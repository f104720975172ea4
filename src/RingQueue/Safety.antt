-- ===== src/RingQueue/Safety.antt =====
-- Schedules of threads over a RingQueue<T> (0208/RingQueue/ringQueue.hpp).
use os_net_work_code.Base.{
  ℕ, ◌+◌, ◌≤◌, ◌<◌, ◌≡◌, ◌≢◌, refl, sym, ◌∙◌, subst, List, [], ◌∷◌, ◌++◌, length, get_elem?, some,
  Option, arith, inl, inr, ◌⊎◌, Option-cases,
}
use os_net_work_code.Base.Threads.{weigh, weigh-two}
use os_net_work_code.Fifo.{Steps-append, Event, puts, gots, Steps, done, Steps-order, Steps-length}
use os_net_work_code.Sync.Laws.{held-le-one}
use os_net_work_code.RingQueue.Defs.{
  Pc, idle, push_wait, push_write, push_wrap, push_unlock, pop_wait, pop_read, pop_wrap, pop_unlock,
}
use os_net_work_code.RingQueue.System.{
  System, Action, call_push, call_pop, run, start, begin, step_call, step_run, step, exec,
}
use os_net_work_code.RingQueue.Invariant.{in_push, in_pop, Inv, shift, start-Inv}
use os_net_work_code.RingQueue.Entry.{Good}
use os_net_work_code.RingQueue.Moves.{move-Good}

module _ {ℓ} {A : Type ℓ} where
  -- Entering `push` or `pop` touches nothing that is shared.
  begin-Inv :
      {cap : ℕ} {s : System A} {q : List A} (i : ℕ) (p p' : Pc A)
      → get_elem? s.threads i ≡ some p
      → (p' ≡ pop_wait) ⊎ ((x : A) × (p' ≡ push_wait x))
      → Inv cap s q
      → Inv cap (begin s i p p') q
  begin-Inv {s = s} i idle p' e (inl w) inv = rw w (record {
    counts = (let sh = shift s.threads i idle pop_wait e in omega (arith, inv.counts, sh));
    content = inv.content;
  })
  begin-Inv {s = s} i idle p' e (inr (x, w)) inv = rw w (record {
    counts = (let sh = shift s.threads i idle (push_wait x) e in omega (arith, inv.counts, sh));
    content = inv.content;
  })
  begin-Inv i p p' e w inv = inv

  stay-Good : {cap : ℕ} {q : List A} (s : System A) → Inv cap s q → Good cap q (some (s, []))
  stay-Good {q = q} s inv = record {
    after = s;
    trace = [];
    next = q;
    returns = refl;
    steps = done;
    inv = inv;
  }

  call-Inv :
      {cap : ℕ} {s : System A} {q : List A} (i : ℕ) (p' : Pc A)
      → (p' ≡ pop_wait) ⊎ ((x : A) × (p' ≡ push_wait x))
      → Inv cap s q
      → Inv cap (step_call s i (get_elem? s.threads i) p') q
  unfolding step_call
  call-Inv {s = s} i p' w inv = elim (Option-cases (get_elem? s.threads i)) [
    | inl e ↦ rw (e, step_call) inv
    | inr (p, e) ↦ rw (e, step_call) (begin-Inv i p p' e w inv)
  ]

  -- Every action of a schedule is defined, is a step of the bounded queue and keeps the invariant.
  pub step-Good :
      {cap : ℕ} {s : System A} {q : List A} (a : Action A) → Inv cap s q → Good cap q (step s a)
  unfolding step step_run
  step-Good {s = s} (call_push i x) inv =
      stay-Good (step_call s i (get_elem? s.threads i) (push_wait x))
        (call-Inv i (push_wait x) (inr (x, refl)) inv)
  step-Good {s = s} (call_pop i) inv =
      stay-Good (step_call s i (get_elem? s.threads i) pop_wait)
        (call-Inv i pop_wait (inl refl) inv)
  step-Good {s = s} (run i) inv = elim (Option-cases (get_elem? s.threads i)) [
    | inl e ↦ rw (e, step_run) (stay-Good s inv)
    | inr (p, e) ↦ rw (e, step_run) (move-Good inv i p e)
  ]

  pub exec-Good :
      {cap : ℕ} (as' : List (Action A)) {s : System A} {q : List A}
      → Inv cap s q
      → Good cap q (exec s as')
  unfolding exec
  exec-Good [] {s = s} inv = stay-Good s inv
  exec-Good (a ∷ as') inv =
      let g = step-Good a inv in
      let h = exec-Good as' g.inv in
      record {
        after = h.after;
        trace = g.trace ++ h.trace;
        next = h.next;
        returns = rw (g.returns, exec, h.returns);
        steps = Steps-append g.steps h.steps;
        inv = h.inv;
      }

  -- What is known of a system that a schedule has led to.
  pub record Reached (cap : ℕ) (t : System A) (es : List (Event A)) : Type ℓ where
    pub items : List A
    pub steps : Steps cap [] es items
    pub inv : Inv cap t items

  pub exec-Reached :
      (blank : A) (cap n : ℕ) (as' : List (Action A)) {t : System A} {es : List (Event A)}
      → 0 < cap
      → exec (start blank cap n) as' ≡ some (t, es)
      → Reached cap t es
  exec-Reached blank cap n as' {t} {es} pos e =
      subst (λ u. Reached cap u es) (same-after)
        (subst (λ fs. Reached cap g.after fs) same-trace here)
    where
      g : Good cap [] (exec (start blank cap n) as')
      g = exec-Good as' (start-Inv blank cap n pos)

      both : ◌≡◌ {A = Option (System A × List (Event A))} (some (g.after, g.trace)) (some (t, es))
      both = sym g.returns ∙ e

      same-after : g.after ≡ t
      same-after = cc both

      same-trace : g.trace ≡ es
      same-trace = cc both

      here : Reached cap g.after g.trace
      here = record { items = g.next; steps = g.steps; inv = g.inv }

  -- Started with a positive capacity, any number of threads under any schedule never index the
  -- vector out of range, and the trace of what they put and got is a trace of a first-in first-out
  -- queue of that capacity.
  pub ring_queue_refines :
      (blank : A) (cap n : ℕ) (as' : List (Action A))
      → 0 < cap
      → (t : System A) × (es : List (Event A)) × (q : List A) × (exec (start blank cap n) as'
          ≡ some (t, es))
        × Steps cap [] es q
  ring_queue_refines blank cap n as' pos =
      let g = exec-Good as' (start-Inv blank cap n pos) in
      (g.after, g.trace, g.next, g.returns, g.steps)

  -- Whatever has been got is the beginning of what has been put, in the same order, and what is
  -- left over fits the capacity.
  pub fifo_order :
      (blank : A) (cap n : ℕ) (as' : List (Action A)) {t : System A} {es : List (Event A)}
      → 0 < cap
      → exec (start blank cap n) as' ≡ some (t, es)
      → (rest : List A) × (puts es ≡ gots es ++ rest) × (length rest ≤ cap)
  fifo_order blank cap n as' pos e =
      let r = exec-Reached blank cap n as' pos e in
      (r.items, Steps-order r.steps, Steps-length r.steps (omega arith))

  -- A thread between taking and releasing the producers' lock, and the same for consumers.
  abbrev pub producing : Pc A → ℕ
  producing (push_write _) = 1
  producing push_wrap = 1
  producing push_unlock = 1
  producing _ = 0

  abbrev pub consuming : Pc A → ℕ
  consuming pop_read = 1
  consuming pop_wrap = 1
  consuming pop_unlock = 1
  consuming _ = 0

  pub weigh-producing : (ps : List (Pc A)) → weigh producing ps ≡ in_push ps
  unfolding weigh
  weigh-producing [] = refl
  weigh-producing (p ∷ ps) = ground (arith, weigh-producing ps)

  pub weigh-consuming : (ps : List (Pc A)) → weigh consuming ps ≡ in_pop ps
  unfolding weigh
  weigh-consuming [] = refl
  weigh-consuming (p ∷ ps) = ground (arith, weigh-consuming ps)

  -- Two different threads are never both inside the part of `push` that the producers' lock
  -- guards, nor both inside that of `pop`.
  pub ring_queue_exclusion :
      (blank : A) (cap n : ℕ) (as' : List (Action A)) {t : System A} {es : List (Event A)} (i j : ℕ)
      (p p' : Pc A)
      → 0 < cap
      → exec (start blank cap n) as' ≡ some (t, es)
      → i ≢ j
      → get_elem? t.threads i ≡ some p
      → get_elem? t.threads j ≡ some p'
      → (producing p + producing p' ≤ 1) × (consuming p + consuming p' ≤ 1)
  ring_queue_exclusion blank cap n as' {t} i j p p' pos e ne ei ej =
      let c = (exec-Reached blank cap n as' pos e).inv.counts in
      omega (
        arith,
        c,
        weigh-producing t.threads,
        weigh-consuming t.threads,
        weigh-two producing t.threads i j p p' ne ei ej,
        weigh-two consuming t.threads i j p p' ne ei ej,
        held-le-one t.ring.p_lock,
        held-le-one t.ring.c_lock,
      )
