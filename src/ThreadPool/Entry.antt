-- ===== src/ThreadPool/Entry.antt =====
-- Taking the mutex and testing the queue in ThreadPool<T> (0211/threadPool.hpp), and the
-- invariant.
use os_net_work_code.Base.{
  ℕ, ◌+◌, ◌≡◌, refl, sym, ◌∙◌, subst, Bool-cases, ==_iff, List, [], append-nil, length, get_elem?,
  some, Option, set, arith, inl, inr,
}
use os_net_work_code.Base.Threads.{weigh, weigh-set}
use os_net_work_code.Sync.{Mutex, held, unlock}
use os_net_work_code.Sync.Laws.{lock-cases, held-unlock, held-le-one}
use os_net_work_code.ThreadPool.Defs.{
  Pool, Pc, work_test, work_sleep, work_take, TaskEvent, quietly, release, is_empty, enter_lock,
  move,
}
use os_net_work_code.ThreadPool.System.{System, finish, signalled}
use os_net_work_code.ThreadPool.Invariant.{pushes, takes, runs, InOrder, carried, Inv, shift}

-- Tasks are neither lost nor doubled: what the workers carried and have taken is what they carry
-- and have run, under every weight of the tasks.
abbrev pub Conserves {ℓ} : {T : Type ℓ} → System T → List (TaskEvent T) → System T → Type ℓ
Conserves {T = T} s es t =
    (v : T → ℕ)
    → weigh (carried v) s.threads + weigh v (takes es)
      ≡ weigh (carried v) t.threads + weigh v (runs es)

-- A step of the system is defined, keeps the invariant, the order and the tasks.
pub record Good {ℓ} {T : Type ℓ} (s : System T) (r : Option (System T × List (TaskEvent T)))
    : Type ℓ where
  pub after : System T
  pub trace : List (TaskEvent T)
  pub returns : r ≡ some (after, trace)
  pub order : InOrder s.pool.task_queue trace after.pool.task_queue
  pub conserves : Conserves s trace after
  pub inv : Inv 0 after.pool after.threads

pub Good-Inv {ℓ} :
    {T : Type ℓ} {s t : System T} {r : Option (System T × List (TaskEvent T))}
    {es : List (TaskEvent T)}
    → Good s r
    → r ≡ some (t, es)
    → Inv 0 t.pool t.threads
Good-Inv {T = T} {t = t} {es = es} g e = subst (λ u. Inv 0 u.pool u.threads) same g.inv
  where
    both : ◌≡◌ {A = Option (System T × List (TaskEvent T))} (some (g.after, g.trace)) (some (t, es))
    both = sym g.returns ∙ e

    same : g.after ≡ t
    same = cc both

module _ {ℓ} {T : Type ℓ} {s : System T} (inv : Inv 0 s.pool s.threads) (i j : ℕ) where
  abbrev b : Pool T
  b = s.pool

  abbrev threads : List (Pc T)
  threads = s.threads

  -- An action that does nothing to a task and signals nobody.
  pub silent :
      (b' : Pool T) (p p' : Pc T)
      → get_elem? threads i ≡ some p
      → b'.task_queue ≡ b.task_queue
      → ((v : T → ℕ) → carried v p ≡ carried v p')
      → Inv 0 b' (set threads i p')
      → Good s (finish s i j (quietly b' p'))
  unfolding finish signalled pushes takes runs weigh
  silent b' p p' e same keeps next = record {
    after = record { pool = b'; threads = set threads i p' };
    trace = [];
    returns = refl;
    order = rw (same, append-nil);
    conserves = λ v. omega (arith, keeps v, weigh-set (carried v) threads i p p' e);
    inv = next;
  }

  pub stay-Inv : (p : Pc T) → get_elem? threads i ≡ some p → Inv 0 b (set threads i p)
  stay-Inv p e = let sh = shift threads i p p e in omega (arith, inv, sh)

  -- A thread that stays where it is.
  pub stay-Good : (p : Pc T) → get_elem? threads i ≡ some p → Good s (finish s i j (quietly b p))
  stay-Good p e = silent b p p e refl (λ v. refl) (stay-Inv p e)

  pub enter_lock-Good :
      (p p' : Pc T)
      → get_elem? threads i ≡ some p
      → ((v : T → ℕ) → carried v p ≡ carried v p')
      → ((m : Mutex)
          → held b.mutex ≡ 0
          → held m ≡ 1
          → Inv 0 (record b { mutex = m }) (set threads i p'))
      → Good s (finish s i j (enter_lock b p p'))
  unfolding enter_lock
  enter_lock-Good p p' e keeps next = elim (lock-cases b.mutex) [
    | inl (z, n) ↦ rw (n, enter_lock) (stay-Good p e)
    | inr (m, z, h, n) ↦
        rw (n, enter_lock) (silent (record b { mutex = m }) p p' e refl keeps (next m z h))
  ]

  free : held (unlock b.mutex) ≡ 0
  free = held-unlock b.mutex

  pub work_test-Good :
      get_elem? threads i ≡ some work_test → Good s (finish s i j (move b work_test))
  unfolding move is_empty
  work_test-Good e = elim (Bool-cases (is_empty b)) [
    | inl none_left ↦
        let sh = shift threads i work_test work_sleep e in
        rw (none_left, move)
          (silent (release b) work_test work_sleep e refl (λ v. refl)
            (omega (
              arith,
              inv,
              sh,
              free,
              held-le-one b.mutex,
              (==_iff (length b.task_queue) 0).0 none_left,
            )))
    | inr some_left ↦
        let sh = shift threads i work_test work_take e in
        rw (some_left, move)
          (silent b work_test work_take e refl (λ v. refl)
            (ground (arith, inv, sh, held-le-one b.mutex, some_left)))
  ]
