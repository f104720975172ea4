-- ===== src/BlockQueue/Progress.antt =====
-- Which threads of a BlockQueue<T> (0114/BlockQueue.hpp) can go on.
use os_net_work_code.Base.{
  ℕ, ◌+◌, ◌≤◌, ◌<◌, ◌≡◌, ◌≢◌, refl, List, [], ◌∷◌, length, get_elem?, some, none, arith, inl, inr,
  dec_lt, Bool-cases, false,
}
use os_net_work_code.Base.Threads.{weigh, weigh-ge, weigh_pos}
use os_net_work_code.Fifo.{Event, put}
use os_net_work_code.Sync.{held, lock, unlock}
use os_net_work_code.Sync.Laws.{lock-cases}
use os_net_work_code.BlockQueue.Defs.{
  BlockQueue, init, Pc, idle, push_test, push_sleep, push_wake, push_insert, push_signal,
  push_unlock, pop_test, pop_sleep, pop_wake, pop_take, pop_signal, pop_unlock, Outcome, move,
  is_queue_full, is_queue_empty, enter_lock, take_front, release,
}
use os_net_work_code.BlockQueue.System.{System, Action, call_push, call_pop, run, start, exec, step}
use os_net_work_code.BlockQueue.Invariant.{
  Inv, taking, producer_asleep, consumer_asleep, producer_coming, consumer_coming,
}
use os_net_work_code.BlockQueue.Safety.{exec-Inv, inside, weigh-inside}

module _ {ℓ} {A : Type ℓ} where
  -- The next action of a thread at `p` changes where it stands.
  abbrev pub Goes : BlockQueue A → Pc A → Type ℓ
  Goes b p = (o : Outcome A) × (move b p ≡ some o) × (o.place ≢ p)

  -- Some thread can go on.
  abbrev pub SomeGoes : System A → Type ℓ
  SomeGoes s = (i : ℕ) × (p : Pc A) × (get_elem? s.threads i ≡ some p) × Goes s.queue p

  take-Goes :
      (b : BlockQueue A) (q : List A)
      → 0 < length q
      → (o : Outcome A) × (take_front b q ≡ some o) × (o.place ≢ pop_take)
  unfolding take_front
  take-Goes b [] h = elim h [ ]
  take-Goes b (x ∷ rest) h = (_, refl, λ e. cc)

  -- A thread that holds the mutex can go on.
  inside-Goes :
      (b : BlockQueue A) (p : Pc A) → 0 < inside p → (0 < taking p → 0 < length b.bq) → Goes b p
  unfolding move
  inside-Goes b (push_test x) h some_in = elim (Bool-cases (is_queue_full b)) [
    | inl e ↦ (
      record { queue = release b; place = push_sleep x; trace = []; signal = none },
      rw (e, move),
      λ e'. cc,
    )
    | inr e ↦ (
      record { queue = b; place = push_insert x; trace = []; signal = none },
      rw (e, move),
      λ e'. cc,
    )
  ]
  inside-Goes b (push_insert x) h some_in = (_, refl, λ e. cc)
  inside-Goes b push_signal h some_in = (_, refl, λ e. cc)
  inside-Goes b push_unlock h some_in = (_, refl, λ e. cc)
  inside-Goes b pop_test h some_in = elim (Bool-cases (is_queue_empty b)) [
    | inl e ↦ (
      record { queue = release b; place = pop_sleep; trace = []; signal = none },
      rw (e, move),
      λ e'. cc,
    )
    | inr e ↦
        (record { queue = b; place = pop_take; trace = []; signal = none }, rw (e, move), λ e'. cc)
  ]
  inside-Goes b pop_take h some_in = take-Goes b b.bq (some_in h)
  inside-Goes b pop_signal h some_in = (_, refl, λ e. cc)
  inside-Goes b pop_unlock h some_in = (_, refl, λ e. cc)
  inside-Goes b p h some_in = elim h [ ]

  enter-Goes :
      (b : BlockQueue A) (p p' : Pc A)
      → held b.mtx ≡ 0
      → p' ≢ p
      → (o : Outcome A) × (enter_lock b p p' ≡ some o) × (o.place ≢ p)
  unfolding enter_lock
  enter-Goes b p p' free ne = elim (lock-cases b.mtx) [
    | inl (z, n) ↦ absurd (omega arith)
    | inr (m, z, h, n) ↦ (
      record { queue = record b { mtx = m }; place = p'; trace = []; signal = none },
      rw (n, enter_lock),
      ne,
    )
  ]

  -- While the mutex is free a thread that has been woken can go on.
  woken-Goes :
      (b : BlockQueue A) (p : Pc A)
      → held b.mtx ≡ 0
      → inside p ≡ 0
      → 0 < producer_coming p + consumer_coming p
      → Goes b p
  unfolding move
  woken-Goes b (push_wake x) free out h = enter-Goes b (push_wake x) (push_test x) free (λ e. cc)
  woken-Goes b pop_wake free out h = enter-Goes b pop_wake pop_test free (λ e. cc)
  woken-Goes b p free out h = absurd (ground arith)

  module _ {capacity : ℕ} {s : System A} (inv : Inv capacity 0 0 s.queue s.threads) where
    abbrev threads : List (Pc A)
    threads = s.threads

    inside-SomeGoes : 0 < weigh inside threads → SomeGoes s
    inside-SomeGoes h =
        let (k, p, e, here) = weigh_pos inside threads h in
        (
          k,
          p,
          e,
          inside-Goes s.queue p here λ t. omega (arith, inv, t, weigh-ge taking threads k p e),
        )

    coming-SomeGoes :
        (w : Pc A → ℕ)
        → ((p : Pc A) → w p ≤ producer_coming p + consumer_coming p)
        → weigh inside threads ≡ 0
        → 0 < weigh w threads
        → SomeGoes s
    coming-SomeGoes w le out h =
        let (k, p, e, here) = weigh_pos w threads h in
        (
          k,
          p,
          e,
          woken-Goes s.queue p (omega (arith, inv, weigh-inside threads))
              (omega (arith, weigh-ge inside threads k p e)) (omega (arith, le p)),
        )

    either-SomeGoes :
        (i j : ℕ) (x : A)
        → 0 < capacity
        → get_elem? threads i ≡ some (push_sleep x)
        → get_elem? threads j ≡ some pop_sleep
        → SomeGoes s
    either-SomeGoes i j x pos ei ej = elim (dec_lt 0 (weigh inside threads)) [
      | yes h ↦ inside-SomeGoes h
      | no out ↦ elim (dec_lt 0 (weigh producer_coming threads)) [
        | yes h ↦ coming-SomeGoes producer_coming (λ p. omega arith) (omega arith) h
        | no no_producer ↦
            coming-SomeGoes consumer_coming (λ p. omega arith) (omega arith)
              (omega (
                arith,
                inv,
                weigh-ge producer_asleep threads i (push_sleep x) ei,
                weigh-ge consumer_asleep threads j pop_sleep ej,
              ))
      ]
    ]

  -- Producers and consumers never sleep on each other: with a positive capacity, whenever a
  -- producer and a consumer both sleep, the next action of some thread changes where it stands.
  pub block_queue_never_deadlocks :
      (capacity n : ℕ) (as' : List (Action A)) {t : System A} {es : List (Event A)} (i j : ℕ)
      (x : A)
      → 0 < capacity
      → exec (start A capacity n) as' ≡ some (t, es)
      → get_elem? t.threads i ≡ some (push_sleep x)
      → get_elem? t.threads j ≡ some pop_sleep
      → SomeGoes t
  block_queue_never_deadlocks capacity n as' i j x pos e ei ej =
      either-SomeGoes (exec-Inv capacity n as' e) i j x pos ei ej

  -- A consumer falls asleep on the empty queue, and then a producer pushes one item.
  abbrev pub one_item : A → List (Action A)
  one_item x =
      call_pop 0
      ∷ run 0 0
      ∷ run 0 0
      ∷ call_push 1 x
      ∷ run 1 0
      ∷ run 1 0
      ∷ run 1 0
      ∷ run 1 0
      ∷ run 1 0
      ∷ []

  abbrev pub stranded_state : ℕ → A → System A
  stranded_state capacity x = record {
    queue = record { bq = x ∷ []; capacity = capacity; mtx = record { locked = false } };
    threads = pop_sleep ∷ idle ∷ [];
  }

  -- From capacity 4 on (the default is 5) a consumer can be left asleep beside an item: after it
  -- has fallen asleep and one `push` has run to its end, it still sleeps, nobody has signalled it
  -- and the item is in the queue.
  pub consumer_stranded :
      (capacity : ℕ) (x : A)
      → 4 ≤ capacity
      → exec (start A capacity 2) (one_item x) ≡ some (stranded_state capacity x, put x ∷ [])
  unfolding exec step start init move lock unlock
  consumer_stranded capacity x h = ground arith
