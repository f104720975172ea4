-- ===== src/RingQueue/Progress.antt =====
-- Which threads of a RingQueue<T> (0208/RingQueue/ringQueue.hpp) can go on.
use os_net_work_code.Base.{
  ℕ, ◌+◌, ◌<◌, ◌≡◌, ◌≢◌, refl, List, [], ◌∷◌, length, get_elem?, set, some, arith, inl, inr, dec_lt,
  lt→ltb, Option-cases, get_elem?-ne-none,
}
use os_net_work_code.Base.Threads.{weigh, weigh-ge, weigh_pos}
use os_net_work_code.Fifo.{Event, put, got}
use os_net_work_code.Sync.{held}
use os_net_work_code.Sync.Laws.{sem_p-cases, lock-cases, held-le-one}
use os_net_work_code.RingQueue.Defs.{
  RingQueue, Pc, idle, push_wait, push_lock, push_write, push_wrap, push_unlock, push_post,
  pop_wait, pop_lock, pop_read, pop_wrap, pop_unlock, pop_post, move, read, write,
}
use os_net_work_code.RingQueue.System.{System, Action, start, exec}
use os_net_work_code.RingQueue.Invariant.{
  Counts, at_push_lock, at_push_post, at_push_write, at_pop_read, at_pop_lock, at_pop_post,
}
use os_net_work_code.RingQueue.Safety.{
  exec-Reached, producing, consuming, weigh-producing, weigh-consuming,
}

module _ {ℓ} {A : Type ℓ} where
  -- The next action of a thread at `p` changes where it stands.
  abbrev pub Goes : RingQueue A → Pc A → Type ℓ
  Goes r p =
      (p' : Pc A) × (r' : RingQueue A) × (es : List (Event A)) × (move r p ≡ some (r', p', es))
      × (p' ≢ p)

  -- Some thread can go on.
  abbrev pub SomeGoes : System A → Type ℓ
  SomeGoes s = (i : ℕ) × (p : Pc A) × (get_elem? s.threads i ≡ some p) × Goes s.ring p

  push_wait-Goes : (r : RingQueue A) (x : A) → 0 < r.space_sem.value → Goes r (push_wait x)
  unfolding move
  push_wait-Goes r x h = elim (sem_p-cases r.space_sem) [
    | inl (z, n) ↦ absurd (omega arith)
    | inr (t, z, n) ↦ (push_lock x, record r { space_sem = t }, [], rw (n, move), λ e. cc)
  ]

  pop_wait-Goes : (r : RingQueue A) → 0 < r.data_sem.value → Goes r pop_wait
  unfolding move
  pop_wait-Goes r h = elim (sem_p-cases r.data_sem) [
    | inl (z, n) ↦ absurd (omega arith)
    | inr (t, z, n) ↦ (pop_lock, record r { data_sem = t }, [], rw (n, move), λ e. cc)
  ]

  push_lock-Goes : (r : RingQueue A) (p : Pc A) → 0 < at_push_lock p → held r.p_lock ≡ 0 → Goes r p
  unfolding move
  push_lock-Goes r (push_lock x) h free = elim (lock-cases r.p_lock) [
    | inl (z, n) ↦ absurd (omega arith)
    | inr (m, z, y, n) ↦ (push_write x, record r { p_lock = m }, [], rw (n, move), λ e. cc)
  ]
  push_lock-Goes r p h free = elim h [ ]

  pop_lock-Goes : (r : RingQueue A) (p : Pc A) → 0 < at_pop_lock p → held r.c_lock ≡ 0 → Goes r p
  unfolding move
  pop_lock-Goes r pop_lock h free = elim (lock-cases r.c_lock) [
    | inl (z, n) ↦ absurd (omega arith)
    | inr (m, z, y, n) ↦ (pop_read, record r { c_lock = m }, [], rw (n, move), λ e. cc)
  ]
  pop_lock-Goes r p h free = elim h [ ]

  post-Goes : (r : RingQueue A) (p : Pc A) → 0 < at_push_post p + at_pop_post p → Goes r p
  unfolding move
  post-Goes r push_post h = (idle, _, [], refl, λ e. cc)
  post-Goes r pop_post h = (idle, _, [], refl, λ e. cc)
  post-Goes r p h = elim h [ ]

  producing-Goes :
      (r : RingQueue A) (p : Pc A)
      → 0 < producing p
      → (0 < at_push_write p → r.p_step < length r.ring_queue)
      → Goes r p
  unfolding move write
  producing-Goes r (push_write x) h fits = (
    push_wrap,
    record r { ring_queue = set r.ring_queue r.p_step x; p_step = r.p_step + 1 },
    put x ∷ [],
    rw (lt→ltb r.p_step (length r.ring_queue) (fits h)),
    λ e. cc,
  )
  producing-Goes r push_wrap h fits = (push_unlock, _, [], refl, λ e. cc)
  producing-Goes r push_unlock h fits = (push_post, _, [], refl, λ e. cc)
  producing-Goes r p h fits = elim h [ ]

  consuming-Goes :
      (r : RingQueue A) (p : Pc A)
      → 0 < consuming p
      → (0 < at_pop_read p → r.c_step < length r.ring_queue)
      → Goes r p
  unfolding move read
  consuming-Goes r pop_read h fits = elim (Option-cases (get_elem? r.ring_queue r.c_step)) [
    | inl e ↦ absurd (get_elem?-ne-none r.ring_queue r.c_step (fits h) e)
    | inr (x, e) ↦
        (pop_wrap, record r { c_step = r.c_step + 1 }, got x ∷ [], rw (e, read), λ e'. cc)
  ]
  consuming-Goes r pop_wrap h fits = (pop_unlock, _, [], refl, λ e. cc)
  consuming-Goes r pop_unlock h fits = (pop_post, _, [], refl, λ e. cc)
  consuming-Goes r p h fits = elim h [ ]

  module _ {cap n : ℕ} {s : System A} (c : Counts cap n s.ring s.threads) where
    abbrev threads : List (Pc A)
    threads = s.threads

    -- A thread inside either critical section can go on: its index is in range.
    producing-SomeGoes : 0 < weigh producing threads → SomeGoes s
    producing-SomeGoes h =
        let (i, p, e, here) = weigh_pos producing threads h in
        (
          i,
          p,
          e,
          producing-Goes s.ring p here λ w.
              omega (arith, c, w, weigh-ge at_push_write threads i p e, held-le-one s.ring.p_lock),
        )

    consuming-SomeGoes : 0 < weigh consuming threads → SomeGoes s
    consuming-SomeGoes h =
        let (i, p, e, here) = weigh_pos consuming threads h in
        (
          i,
          p,
          e,
          consuming-Goes s.ring p here λ w.
              omega (arith, c, w, weigh-ge at_pop_read threads i p e, held-le-one s.ring.c_lock),
        )

    -- A thread that has a semaphore and waits for a free lock, or has still to post, can go on.
    push_lock-SomeGoes : weigh producing threads ≡ 0 → 0 < weigh at_push_lock threads → SomeGoes s
    push_lock-SomeGoes none_in h =
        let (i, p, e, here) = weigh_pos at_push_lock threads h in
        (i, p, e, push_lock-Goes s.ring p here (omega (arith, c, weigh-producing threads)))

    pop_lock-SomeGoes : weigh consuming threads ≡ 0 → 0 < weigh at_pop_lock threads → SomeGoes s
    pop_lock-SomeGoes none_in h =
        let (i, p, e, here) = weigh_pos at_pop_lock threads h in
        (i, p, e, pop_lock-Goes s.ring p here (omega (arith, c, weigh-consuming threads)))

    push_post-SomeGoes : 0 < weigh at_push_post threads → SomeGoes s
    push_post-SomeGoes h =
        let (i, p, e, here) = weigh_pos at_push_post threads h in
        (i, p, e, post-Goes s.ring p (omega arith))

    pop_post-SomeGoes : 0 < weigh at_pop_post threads → SomeGoes s
    pop_post-SomeGoes h =
        let (i, p, e, here) = weigh_pos at_pop_post threads h in
        (i, p, e, post-Goes s.ring p (omega arith))

    -- With nobody between the semaphores the two counts add up to the capacity.
    waiting-SomeGoes :
        (i j : ℕ) (x : A)
        → get_elem? threads i ≡ some (push_wait x)
        → get_elem? threads j ≡ some pop_wait
        → weigh producing threads + weigh consuming threads ≡ 0
        → weigh at_push_lock threads + weigh at_pop_lock threads ≡ 0
        → weigh at_push_post threads + weigh at_pop_post threads ≡ 0
        → SomeGoes s
    waiting-SomeGoes i j x ei ej no_in no_lock no_post = elim (dec_lt 0 s.ring.space_sem.value) [
      | yes room ↦ (i, push_wait x, ei, push_wait-Goes s.ring x room)
      | no full ↦ (
        j,
        pop_wait,
        ej,
        pop_wait-Goes s.ring (omega (arith, c, weigh-producing threads, weigh-consuming threads)),
      )
    ]

    either-SomeGoes :
        (i j : ℕ) (x : A)
        → get_elem? threads i ≡ some (push_wait x)
        → get_elem? threads j ≡ some pop_wait
        → SomeGoes s
    either-SomeGoes i j x ei ej = elim (dec_lt 0 (weigh producing threads)) [
      | yes h ↦ producing-SomeGoes h
      | no no_producing ↦ elim (dec_lt 0 (weigh consuming threads)) [
        | yes h ↦ consuming-SomeGoes h
        | no no_consuming ↦ elim (dec_lt 0 (weigh at_push_lock threads)) [
          | yes h ↦ push_lock-SomeGoes (omega arith) h
          | no no_push ↦ elim (dec_lt 0 (weigh at_pop_lock threads)) [
            | yes h ↦ pop_lock-SomeGoes (omega arith) h
            | no no_pop ↦ elim (dec_lt 0 (weigh at_push_post threads)) [
              | yes h ↦ push_post-SomeGoes h
              | no no_push_post ↦ elim (dec_lt 0 (weigh at_pop_post threads)) [
                | yes h ↦ pop_post-SomeGoes h
                | no no_pop_post ↦
                    waiting-SomeGoes i j x ei ej (omega arith) (omega arith) (omega arith)
              ]
            ]
          ]
        ]
      ]
    ]

  -- A producer and a consumer never wait for each other: as soon as one thread stands at the
  -- semaphore of `push` and one at that of `pop`, the next action of some thread changes where
  -- that thread stands.
  pub ring_queue_never_deadlocks :
      (blank : A) (cap n : ℕ) (as' : List (Action A)) {t : System A} {es : List (Event A)} (i j : ℕ)
      (x : A)
      → 0 < cap
      → exec (start blank cap n) as' ≡ some (t, es)
      → get_elem? t.threads i ≡ some (push_wait x)
      → get_elem? t.threads j ≡ some pop_wait
      → SomeGoes t
  ring_queue_never_deadlocks blank cap n as' i j x pos e ei ej =
      either-SomeGoes (exec-Reached blank cap n as' pos e).inv.counts i j x ei ej
