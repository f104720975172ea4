-- ===== src/ThreadPool/Moves.antt =====
-- Each action of a thread inside `pushTask` or `routine` of ThreadPool<T> (0211/threadPool.hpp),
-- and the invariant.
use os_net_work_code.Base.{
  ℕ, ◌+◌, ◌≤◌, ◌≡◌, refl, true, List, [], ◌∷◌, ◌++◌, append-nil, length, get_elem?, some, set,
  arith, length-append, ◌⊎◌,
}
use os_net_work_code.Base.Threads.{weigh, weigh-ge, weigh-set}
use os_net_work_code.Sync.Laws.{held-unlock, held-le-one}
use os_net_work_code.ThreadPool.Defs.{
  Pool, Pc, idle, push_lock, push_insert, push_signal, push_unlock, created, work_lock, work_test,
  work_sleep, work_wake, work_take, work_unlock, work_run, pushed, taken, ran, release, get_task,
  move,
}
use os_net_work_code.ThreadPool.System.{System, finish, signalled}
use os_net_work_code.ThreadPool.Invariant.{
  pushes, takes, runs, carried, carried-signalled, Inv, shift, signal-Inv, taking, sleeping, coming,
}
use os_net_work_code.ThreadPool.Entry.{Good, silent, stay-Good, enter_lock-Good, work_test-Good}

module _ {ℓ} {T : Type ℓ} {s : System T} (inv : Inv 0 s.pool s.threads) (i j : ℕ) where
  abbrev b : Pool T
  b = s.pool

  abbrev threads : List (Pc T)
  threads = s.threads

  push_insert-Good :
      (t : T)
      → get_elem? threads i ≡ some (push_insert t)
      → Good s (finish s i j (move b (push_insert t)))
  unfolding move finish signalled pushes takes runs weigh
  push_insert-Good t e =
      let sh = shift threads i (push_insert t) push_signal e in
      record {
        after = record {
          pool = record b { task_queue = b.task_queue ++ t ∷ [] };
          threads = set threads i push_signal;
        };
        trace = pushed t ∷ [];
        returns = refl;
        order = refl;
        conserves =
            λ v. omega (arith, weigh-set (carried v) threads i (push_insert t) push_signal e);
        inv = omega (arith, inv, sh, held-le-one b.mutex, length-append b.task_queue (t ∷ []));
      }

  push_signal-Good :
      get_elem? threads i ≡ some push_signal → Good s (finish s i j (move b push_signal))
  unfolding move finish pushes takes runs weigh
  push_signal-Good e =
      let sh = shift threads i push_signal push_unlock e in
      let ps = set threads i push_unlock in
      record {
        after = record { pool = b; threads = signalled true j ps };
        trace = [];
        returns = refl;
        order = append-nil b.task_queue;
        conserves = λ v. omega (
          arith,
          weigh-set (carried v) threads i push_signal push_unlock e,
          carried-signalled v true j ps,
        );
        inv = signal-Inv j (omega (arith, inv, sh, held-le-one b.mutex));
      }

  -- After the test there is a task to take.
  work_take-Good : get_elem? threads i ≡ some work_take → Good s (finish s i j (move b work_take))
  unfolding move
  work_take-Good e = from b.task_queue refl inv.ready inv.served
    where
      from :
          (q : List T)
          → b.task_queue ≡ q
          → weigh taking threads ≤ length q
          → (weigh sleeping threads ≡ 0) ⊎ (length q ≤ weigh coming threads + 0)
          → Good s (finish s i j (get_task b q))
      from [] same ready served =
          absurd (omega (arith, ready, weigh-ge taking threads i work_take e))
      from (t ∷ rest) same ready served =
          let sh = shift threads i work_take (work_unlock t) e in
          record {
            after = record {
              pool = record b { task_queue = rest };
              threads = set threads i (work_unlock t);
            };
            trace = taken t ∷ [];
            returns = unfold finish signalled get_task in refl;
            order = rw same (unfold pushes takes in append-nil (t ∷ rest));
            conserves = λ v.
                unfold takes runs weigh in
                omega (arith, weigh-set (carried v) threads i work_take (work_unlock t) e);
            inv = omega (arith, inv.held_by, ready, served, sh, held-le-one b.mutex);
          }

  work_run-Good :
      (t : T)
      → get_elem? threads i ≡ some (work_run t)
      → Good s (finish s i j (move b (work_run t)))
  unfolding move finish signalled pushes takes runs weigh
  work_run-Good t e =
      let sh = shift threads i (work_run t) work_lock e in
      record {
        after = record { pool = b; threads = set threads i work_lock };
        trace = ran t ∷ [];
        returns = refl;
        order = append-nil b.task_queue;
        conserves = λ v. omega (arith, weigh-set (carried v) threads i (work_run t) work_lock e);
        inv = omega (arith, inv, sh);
      }

  -- The next action of any thread.
  pub move-Good : (p : Pc T) → get_elem? threads i ≡ some p → Good s (finish s i j (move b p))
  unfolding move
  move-Good idle e = stay-Good inv i j idle e
  move-Good (push_lock t) e =
      enter_lock-Good inv i j (push_lock t) (push_insert t) e (λ v. refl)
        λ m z h.
          let sh = shift threads i (push_lock t) (push_insert t) e in omega (arith, inv, sh, z, h)
  move-Good (push_insert t) e = push_insert-Good t e
  move-Good push_signal e = push_signal-Good e
  move-Good push_unlock e =
      let sh = shift threads i push_unlock idle e in
      silent inv i j (release b) push_unlock idle e refl (λ v. refl)
        (omega (arith, inv, sh, held-unlock b.mutex, held-le-one b.mutex))
  move-Good created e =
      let sh = shift threads i created work_lock e in
      silent inv i j b created work_lock e refl (λ v. refl) (omega (arith, inv, sh))
  move-Good work_lock e =
      enter_lock-Good inv i j work_lock work_test e (λ v. refl)
        λ m z h. let sh = shift threads i work_lock work_test e in omega (arith, inv, sh, z, h)
  move-Good work_test e = work_test-Good inv i j e
  move-Good work_sleep e = stay-Good inv i j work_sleep e
  move-Good work_wake e =
      enter_lock-Good inv i j work_wake work_test e (λ v. refl)
        λ m z h. let sh = shift threads i work_wake work_test e in omega (arith, inv, sh, z, h)
  move-Good work_take e = work_take-Good e
  move-Good (work_unlock t) e =
      let sh = shift threads i (work_unlock t) (work_run t) e in
      silent inv i j (release b) (work_unlock t) (work_run t) e refl (λ v. refl)
        (omega (arith, inv, sh, held-unlock b.mutex, held-le-one b.mutex))
  move-Good (work_run t) e = work_run-Good t e
