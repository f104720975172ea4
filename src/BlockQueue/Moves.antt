-- ===== src/BlockQueue/Moves.antt =====
-- Each action of a thread inside `push` or `pop` of BlockQueue<T> (0114/BlockQueue.hpp), and the
-- invariant.
use os_net_work_code.Base.{
  ℕ, ◌+◌, ◌-◌, ◌/◌, ◌≤◌, ◌≡◌, refl, Bool-cases, leb, leb_false→lt, List, [], ◌∷◌, ◌++◌, length,
  get_elem?, some, none, set, arith, length-append, inl, inr, ◌⊎◌,
}
use os_net_work_code.Base.Threads.{weigh, weigh-ge}
use os_net_work_code.Fifo.{put, got, done, enter, leave}
use os_net_work_code.Sync.Laws.{held-unlock, held-le-one}
use os_net_work_code.BlockQueue.Defs.{
  BlockQueue, empty_cond, full_cond, Pc, idle, push_lock, push_test, push_sleep, push_wake,
  push_insert, push_signal, push_unlock, pop_lock, pop_test, pop_sleep, pop_wake, pop_take,
  pop_signal, pop_unlock, quietly, release, take_front, move,
}
use os_net_work_code.BlockQueue.System.{System, finish, signalled}
use os_net_work_code.BlockQueue.Invariant.{
  Inv, Shift, shift, signal_full-Inv, signal_empty-Inv, inserting, taking, producer_asleep,
  consumer_asleep, producer_coming, consumer_coming,
}
use os_net_work_code.BlockQueue.Entry.{
  Good, silent, stay-Inv, enter_lock-Good, push_test-Good, pop_test-Good,
}

module _ {ℓ} {A : Type ℓ} {cap : ℕ} {s : System A} (inv : Inv cap 0 0 s.queue s.threads)
    (i j : ℕ) where
  abbrev b : BlockQueue A
  b = s.queue

  abbrev threads : List (Pc A)
  threads = s.threads

  -- After the test there is room for the item.
  push_insert-Good :
      (x : A)
      → get_elem? threads i ≡ some (push_insert x)
      → Good cap b.bq (finish s i j (move b (push_insert x)))
  unfolding move finish signalled
  push_insert-Good x e =
      let sh = shift threads i (push_insert x) push_signal e in
      let here = weigh-ge inserting threads i (push_insert x) e in
      record {
        after = record {
          queue = record b { bq = b.bq ++ x ∷ [] };
          threads = set threads i push_signal;
        };
        trace = put x ∷ [];
        returns = refl;
        steps = enter x (omega (arith, inv, here)) done;
        inv = omega (arith, inv, sh, here, held-le-one b.mtx, length-append b.bq (x ∷ []));
      }

  -- After the test there is an item to take.
  pop_take-Good :
      get_elem? threads i ≡ some pop_take → Good cap b.bq (finish s i j (move b pop_take))
  unfolding move
  pop_take-Good e = from b.bq inv.room inv.ready inv.producers_served inv.consumers_served
    where
      here : 1 ≤ weigh taking threads
      here = weigh-ge taking threads i pop_take e

      from :
          (q : List A)
          → length q + weigh inserting threads ≤ cap
          → weigh taking threads ≤ length q
          → (weigh producer_asleep threads ≡ 0)
            ⊎ (cap ≤ length q + weigh producer_coming threads + 0)
          → (weigh consumer_asleep threads ≡ 0)
            ⊎ (length q ≤ weigh consumer_coming threads + 0 + (cap / 2 - 1))
          → Good cap q (finish s i j (take_front b q))
      from [] room ready ps cs = absurd (omega (arith, here))
      from (x ∷ rest) room ready ps cs =
          let sh = shift threads i pop_take pop_signal e in
          record {
            after = record { queue = record b { bq = rest }; threads = set threads i pop_signal };
            trace = got x ∷ [];
            returns = unfold finish signalled take_front in refl;
            steps = leave x done;
            inv = omega (
              arith,
              inv.capacity_is,
              inv.held_by,
              room,
              ready,
              ps,
              cs,
              sh,
              here,
              held-le-one b.mtx,
            );
          }

  -- The producer's signal is sent from half the capacity on.
  push_signal-Good :
      get_elem? threads i ≡ some push_signal → Good cap b.bq (finish s i j (move b push_signal))
  unfolding move finish
  push_signal-Good e = elim (Bool-cases (leb (b.capacity / 2) (length b.bq))) [
    | inl many ↦
        rw (many, move, finish)
          (record {
            after = record { queue = b; threads = signalled (some empty_cond) j moved };
            trace = [];
            returns = refl;
            steps = done;
            inv = signal_empty-Inv j (omega (arith, inv, sh, held-le-one b.mtx));
          })
    | inr few ↦
        rw (few, move, finish)
          (record {
            after = record { queue = b; threads = signalled none j moved };
            trace = [];
            returns = refl;
            steps = done;
            inv =
                unfold signalled in
                omega (
                  arith,
                  inv,
                  sh,
                  held-le-one b.mtx,
                  leb_false→lt (b.capacity / 2) (length b.bq) few,
                );
          })
  ]
    where
      moved : List (Pc A)
      moved = set threads i push_unlock

      sh : Shift threads i push_signal push_unlock
      sh = shift threads i push_signal push_unlock e

  pop_signal-Good :
      get_elem? threads i ≡ some pop_signal → Good cap b.bq (finish s i j (move b pop_signal))
  unfolding move finish
  pop_signal-Good e =
      let sh = shift threads i pop_signal pop_unlock e in
      record {
        after = record {
          queue = b;
          threads = signalled (some full_cond) j (set threads i pop_unlock);
        };
        trace = [];
        returns = refl;
        steps = done;
        inv = signal_full-Inv j (omega (arith, inv, sh, held-le-one b.mtx));
      }

  unlock-Good :
      (p : Pc A)
      → get_elem? threads i ≡ some p
      → (p ≡ push_unlock) ⊎ (p ≡ pop_unlock)
      → Good cap b.bq (finish s i j (quietly (release b) idle))
  unlock-Good p e (inl w) =
      let sh = shift threads i push_unlock idle (rw w at e) in
      silent inv i j (release b) idle refl
        (omega (arith, inv, sh, held-unlock b.mtx, held-le-one b.mtx))
  unlock-Good p e (inr w) =
      let sh = shift threads i pop_unlock idle (rw w at e) in
      silent inv i j (release b) idle refl
        (omega (arith, inv, sh, held-unlock b.mtx, held-le-one b.mtx))

  -- The next action of any thread.
  pub move-Good :
      (p : Pc A) → get_elem? threads i ≡ some p → Good cap b.bq (finish s i j (move b p))
  unfolding move
  move-Good idle e = silent inv i j b idle refl (stay-Inv inv i j idle e)
  move-Good (push_lock x) e = enter_lock-Good inv i j (push_lock x) (push_test x) e λ m z h.
      let sh = shift threads i (push_lock x) (push_test x) e in omega (arith, inv, sh, z, h)
  move-Good (push_test x) e = push_test-Good inv i j x e
  move-Good (push_sleep x) e =
      silent inv i j b (push_sleep x) refl (stay-Inv inv i j (push_sleep x) e)
  move-Good (push_wake x) e = enter_lock-Good inv i j (push_wake x) (push_test x) e λ m z h.
      let sh = shift threads i (push_wake x) (push_test x) e in omega (arith, inv, sh, z, h)
  move-Good (push_insert x) e = push_insert-Good x e
  move-Good push_signal e = push_signal-Good e
  move-Good push_unlock e = unlock-Good push_unlock e (inl refl)
  move-Good pop_lock e =
      enter_lock-Good inv i j pop_lock pop_test e
        λ m z h. let sh = shift threads i pop_lock pop_test e in omega (arith, inv, sh, z, h)
  move-Good pop_test e = pop_test-Good inv i j e
  move-Good pop_sleep e = silent inv i j b pop_sleep refl (stay-Inv inv i j pop_sleep e)
  move-Good pop_wake e =
      enter_lock-Good inv i j pop_wake pop_test e
        λ m z h. let sh = shift threads i pop_wake pop_test e in omega (arith, inv, sh, z, h)
  move-Good pop_take e = pop_take-Good e
  move-Good pop_signal e = pop_signal-Good e
  move-Good pop_unlock e = unlock-Good pop_unlock e (inr refl)
