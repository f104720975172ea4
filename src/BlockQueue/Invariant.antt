-- ===== src/BlockQueue/Invariant.antt =====
-- The invariant of BlockQueue<T> (0114/BlockQueue.hpp): who holds the mutex, how many items there
-- are, and that a thread sleeps only while others are still to come that will wake it.
use os_net_work_code.Base.{
  ℕ, ◌+◌, ◌-◌, ◌/◌, ◌≤◌, ◌≡◌, refl, ◌⊎◌, inl, inr, true, false, Option, none, some, List, length,
  get_elem?, set, arith, Option-cases,
}
use os_net_work_code.Base.Threads.{weigh, weigh-set, weigh-replicate}
use os_net_work_code.Sync.{held}
use os_net_work_code.Sync.Cond.{Target, signal_target, signal_target-Target}
use os_net_work_code.BlockQueue.Defs.{
  BlockQueue, init, empty_cond, full_cond, Pc, idle, push_test, push_sleep, push_wake, push_insert,
  push_signal, push_unlock, pop_test, pop_sleep, pop_wake, pop_take, pop_signal, pop_unlock,
}
use os_net_work_code.BlockQueue.System.{start, asleep_on, awake, wake, signalled}

module _ {ℓ} {A : Type ℓ} where
  abbrev pub inserting : Pc A → ℕ
  inserting (push_insert _) = 1
  inserting _ = 0

  abbrev pub taking : Pc A → ℕ
  taking pop_take = 1
  taking _ = 0

  -- Holding the mutex, and neither about to insert nor to take.
  abbrev pub holding : Pc A → ℕ
  holding (push_test _) = 1
  holding push_signal = 1
  holding push_unlock = 1
  holding pop_test = 1
  holding pop_signal = 1
  holding pop_unlock = 1
  holding _ = 0

  abbrev pub producer_asleep : Pc A → ℕ
  producer_asleep (push_sleep _) = 1
  producer_asleep _ = 0

  abbrev pub consumer_asleep : Pc A → ℕ
  consumer_asleep pop_sleep = 1
  consumer_asleep _ = 0

  -- A producer that will look at the queue again, or a consumer that has still to wake one.
  abbrev pub producer_coming : Pc A → ℕ
  producer_coming (push_wake _) = 1
  producer_coming (push_test _) = 1
  producer_coming (push_insert _) = 1
  producer_coming pop_signal = 1
  producer_coming _ = 0

  abbrev pub consumer_coming : Pc A → ℕ
  consumer_coming pop_wake = 1
  consumer_coming pop_test = 1
  consumer_coming pop_take = 1
  consumer_coming push_signal = 1
  consumer_coming _ = 0

  -- `p_owed` and `c_owed` count wake-ups that the action at hand has still to make.
  pub record Inv (cap p_owed c_owed : ℕ) (b : BlockQueue A) (ps : List (Pc A)) : Type ℓ where
    pub capacity_is : b.capacity ≡ cap
    pub held_by : held b.mtx ≡ weigh inserting ps + weigh taking ps + weigh holding ps
    pub room : length b.bq + weigh inserting ps ≤ cap
    pub ready : weigh taking ps ≤ length b.bq
    pub producers_served :
        (weigh producer_asleep ps ≡ 0) ⊎ (cap ≤ length b.bq + weigh producer_coming ps + p_owed)
    pub consumers_served :
        (weigh consumer_asleep ps ≡ 0)
        ⊎ (length b.bq ≤ weigh consumer_coming ps + c_owed + (cap / 2 - 1))

  -- How the counts change when thread `i` goes from `p` to `p'`.
  pub record Shift (ps : List (Pc A)) (i : ℕ) (p p' : Pc A) : Type 0 where
    pub inserting_moved :
        weigh inserting (set ps i p') + inserting p ≡ weigh inserting ps + inserting p'
    pub taking_moved : weigh taking (set ps i p') + taking p ≡ weigh taking ps + taking p'
    pub holding_moved : weigh holding (set ps i p') + holding p ≡ weigh holding ps + holding p'
    pub producer_asleep_moved :
        weigh producer_asleep (set ps i p') + producer_asleep p
        ≡ weigh producer_asleep ps + producer_asleep p'
    pub consumer_asleep_moved :
        weigh consumer_asleep (set ps i p') + consumer_asleep p
        ≡ weigh consumer_asleep ps + consumer_asleep p'
    pub producer_coming_moved :
        weigh producer_coming (set ps i p') + producer_coming p
        ≡ weigh producer_coming ps + producer_coming p'
    pub consumer_coming_moved :
        weigh consumer_coming (set ps i p') + consumer_coming p
        ≡ weigh consumer_coming ps + consumer_coming p'

  pub shift : (ps : List (Pc A)) (i : ℕ) (p p' : Pc A) → get_elem? ps i ≡ some p → Shift ps i p p'
  shift ps i p p' e = record {
    inserting_moved = weigh-set inserting ps i p p' e;
    taking_moved = weigh-set taking ps i p p' e;
    holding_moved = weigh-set holding ps i p p' e;
    producer_asleep_moved = weigh-set producer_asleep ps i p p' e;
    consumer_asleep_moved = weigh-set consumer_asleep ps i p p' e;
    producer_coming_moved = weigh-set producer_coming ps i p p' e;
    consumer_coming_moved = weigh-set consumer_coming ps i p p' e;
  }

  pub start-Inv : (cap n : ℕ) → Inv cap 0 0 (start A cap n).queue (start A cap n).threads
  unfolding start init
  start-Inv cap n = omega (
    arith,
    none_at inserting refl,
    none_at taking refl,
    none_at holding refl,
    none_at producer_asleep refl,
    none_at consumer_asleep refl,
  )
    where
      none_at : (w : Pc A → ℕ) → w idle ≡ 0 → weigh w (start A cap n).threads ≡ 0
      none_at w e = weigh-replicate w n idle e

  module _ {cap p_owed c_owed : ℕ} {b : BlockQueue A} {ps : List (Pc A)} where
    awake-Inv :
        (k : ℕ) (p : Pc A)
        → get_elem? ps k ≡ some p
        → Inv cap p_owed c_owed b ps
        → Inv cap p_owed c_owed b (set ps k (awake p))
    awake-Inv k (push_sleep x) e inv =
        let sh = shift ps k (push_sleep x) (push_wake x) e in omega (arith, inv, sh)
    awake-Inv k p e inv = let sh = shift ps k p (awake p) e in omega (arith, inv, sh)

    -- Waking a thread, asked or not, keeps the invariant.
    pub wake-Inv : (k : ℕ) → Inv cap p_owed c_owed b ps → Inv cap p_owed c_owed b (wake ps k)
    unfolding wake
    wake-Inv k inv = elim (Option-cases (get_elem? ps k)) [
      | inl e ↦ rw (e, wake) inv
      | inr (p, e) ↦ rw (e, wake) (awake-Inv k p e inv)
    ]

  module _ {cap : ℕ} {b : BlockQueue A} {ps : List (Pc A)} where
    wake_producer-Inv :
        (k : ℕ) (p : Pc A)
        → get_elem? ps k ≡ some p
        → asleep_on full_cond p ≡ true
        → Inv cap 1 0 b ps
        → Inv cap 0 0 b (set ps k (awake p))
    wake_producer-Inv k (push_sleep x) e a inv =
        let sh = shift ps k (push_sleep x) (push_wake x) e in omega (arith, inv, sh)
    wake_producer-Inv k p e a inv = absurd (cc)

    wake_consumer-Inv :
        (k : ℕ) (p : Pc A)
        → get_elem? ps k ≡ some p
        → asleep_on empty_cond p ≡ true
        → Inv cap 0 1 b ps
        → Inv cap 0 0 b (set ps k (awake p))
    wake_consumer-Inv k pop_sleep e a inv =
        let sh = shift ps k pop_sleep pop_wake e in omega (arith, inv, sh)
    wake_consumer-Inv k p e a inv = absurd (cc)

    -- A signal pays the wake-up that is owed.
    pub signal_full-Inv :
        (j : ℕ) → Inv cap 1 0 b ps → Inv cap 0 0 b (signalled (some full_cond) j ps)
    unfolding signalled wake
    signal_full-Inv j inv =
        from (signal_target (asleep_on full_cond) ps j) (signal_target-Target _ ps j)
      where
        unasked : (p : Pc A) → asleep_on full_cond p ≡ false → producer_asleep p ≡ 0
        unasked (push_sleep x) h = absurd (cc)
        unasked p h = refl

        from :
            (o : Option ℕ)
            → Target (asleep_on full_cond) ps o
            → Inv cap 0 0 b (elim o [ none ↦ ps | some k ↦ wake ps k ])
        from none t = omega (arith, inv, t producer_asleep unasked)
        from (some k) (p, e, a) = rw (e, wake) (wake_producer-Inv k p e a inv)

    pub signal_empty-Inv :
        (j : ℕ) → Inv cap 0 1 b ps → Inv cap 0 0 b (signalled (some empty_cond) j ps)
    unfolding signalled wake
    signal_empty-Inv j inv =
        from (signal_target (asleep_on empty_cond) ps j) (signal_target-Target _ ps j)
      where
        unasked : (p : Pc A) → asleep_on empty_cond p ≡ false → consumer_asleep p ≡ 0
        unasked pop_sleep h = absurd (cc)
        unasked p h = refl

        from :
            (o : Option ℕ)
            → Target (asleep_on empty_cond) ps o
            → Inv cap 0 0 b (elim o [ none ↦ ps | some k ↦ wake ps k ])
        from none t = omega (arith, inv, t consumer_asleep unasked)
        from (some k) (p, e, a) = rw (e, wake) (wake_consumer-Inv k p e a inv)
