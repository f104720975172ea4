-- ===== src/BlockQueue/Entry.antt =====
-- Taking the mutex and testing the queue in BlockQueue<T> (0114/BlockQueue.hpp), and the
-- invariant.
use os_net_work_code.Base.{
  ℕ, ◌≡◌, refl, Bool-cases, ==_iff, List, [], length, get_elem?, some, Option, set, arith, inl, inr,
}
use os_net_work_code.Fifo.{Event, Steps, done}
use os_net_work_code.Sync.{Mutex, held, unlock}
use os_net_work_code.Sync.Laws.{lock-cases, held-unlock, held-le-one}
use os_net_work_code.BlockQueue.Defs.{
  BlockQueue, Pc, push_test, push_sleep, push_insert, pop_test, pop_sleep, pop_take, quietly,
  release, is_queue_empty, is_queue_full, enter_lock, move,
}
use os_net_work_code.BlockQueue.System.{System, finish, signalled}
use os_net_work_code.BlockQueue.Invariant.{Inv, shift}

-- A step of the system is defined, follows the bounded queue and keeps the invariant.
pub record Good {ℓ} {A : Type ℓ} (cap : ℕ) (q : List A) (r : Option (System A × List (Event A)))
    : Type ℓ where
  pub after : System A
  pub trace : List (Event A)
  pub returns : r ≡ some (after, trace)
  pub steps : Steps cap q trace after.queue.bq
  pub inv : Inv cap 0 0 after.queue after.threads

module _ {ℓ} {A : Type ℓ} {cap : ℕ} {s : System A} (inv : Inv cap 0 0 s.queue s.threads)
    (i j : ℕ) where
  abbrev b : BlockQueue A
  b = s.queue

  abbrev threads : List (Pc A)
  threads = s.threads

  -- An action that neither puts nor gets nor signals.
  pub silent :
      (b' : BlockQueue A) (p' : Pc A)
      → b'.bq ≡ b.bq
      → Inv cap 0 0 b' (set threads i p')
      → Good cap b.bq (finish s i j (quietly b' p'))
  unfolding finish signalled
  silent b' p' same next = record {
    after = record { queue = b'; threads = set threads i p' };
    trace = [];
    returns = refl;
    steps = rw same done;
    inv = next;
  }

  -- A thread that stays where it is.
  pub stay-Inv : (p : Pc A) → get_elem? threads i ≡ some p → Inv cap 0 0 b (set threads i p)
  stay-Inv p e = let sh = shift threads i p p e in omega (arith, inv, sh)

  -- Taking the mutex, before the call or when woken inside a wait.
  pub enter_lock-Good :
      (p p' : Pc A)
      → get_elem? threads i ≡ some p
      → ((m : Mutex)
          → held b.mtx ≡ 0
          → held m ≡ 1
          → Inv cap 0 0 (record b { mtx = m }) (set threads i p'))
      → Good cap b.bq (finish s i j (enter_lock b p p'))
  unfolding enter_lock
  enter_lock-Good p p' e next = elim (lock-cases b.mtx) [
    | inl (z, n) ↦ rw (n, enter_lock) (silent b p refl (stay-Inv p e))
    | inr (m, z, h, n) ↦ rw (n, enter_lock) (silent (record b { mtx = m }) p' refl (next m z h))
  ]

  free : held (unlock b.mtx) ≡ 0
  free = held-unlock b.mtx

  -- The test of a producer's loop, and its wait.
  pub push_test-Good :
      (x : A)
      → get_elem? threads i ≡ some (push_test x)
      → Good cap b.bq (finish s i j (move b (push_test x)))
  unfolding move is_queue_full
  push_test-Good x e = elim (Bool-cases (is_queue_full b)) [
    | inl full ↦
        let sh = shift threads i (push_test x) (push_sleep x) e in
        rw (full, move)
          (silent (release b) (push_sleep x) refl (
            omega
              (arith, inv, sh, free, held-le-one b.mtx, (==_iff (length b.bq) b.capacity).0 full)))
    | inr other ↦
        let sh = shift threads i (push_test x) (push_insert x) e in
        rw (other, move)
          (silent b (push_insert x) refl (ground (arith, inv, sh, held-le-one b.mtx, other)))
  ]

  pub pop_test-Good :
      get_elem? threads i ≡ some pop_test → Good cap b.bq (finish s i j (move b pop_test))
  unfolding move is_queue_empty
  pop_test-Good e = elim (Bool-cases (is_queue_empty b)) [
    | inl full ↦
        let sh = shift threads i pop_test pop_sleep e in
        rw (full, move)
          (silent (release b) pop_sleep refl
            (omega (arith, inv, sh, free, held-le-one b.mtx, (==_iff (length b.bq) 0).0 full)))
    | inr other ↦
        let sh = shift threads i pop_test pop_take e in
        rw (other, move)
          (silent b pop_take refl (ground (arith, inv, sh, held-le-one b.mtx, other)))
  ]
