-- ===== src/Printers/Defs.antt =====
-- The threads of the last `main` of xjh_multi_thread/test1.cc: `t1` prints while `ready` is false,
-- `t2` while it is true. A thread is named by the value that it waits for. The text stands under
-- `#if 0`.
use os_net_work_code.Base.{
  ℕ, suc, Bool, true, false, not, none, some, List, [], ◌∷◌, ◌++◌, if◌then◌else◌, ltb,
}
use os_net_work_code.Sync.{Mutex, unlocked, lock, unlock}

-- What the lambdas capture.
pub record Shared : Type 0 where
  pub i : ℕ
  pub mtx : Mutex
  pub ready : Bool

-- Where a thread stands: before the named action of its loop.
pub data Pc : Type 0 where
  testing : Pc  -- for(;i<n;)
  locking : Pc  -- std::unique_lock<std::mutex> lock(mtx)
  checking : Pc  -- the predicate of cv.wait
  sleeping : Pc  -- inside cv.wait
  waking : Pc  -- cv.wait takes the lock again
  printing : Pc  -- std::cout << i
  incrementing : Pc  -- i+=1
  setting : Pc  -- ready = ...
  notifying : Pc  -- cv.notify_one()
  unlocking : Pc  -- the destructor of `lock`
  finished : Pc

unfoldable pub same : Bool → Bool → Bool
same a true = a
same a false = not a

-- The shared state, the place of the thread, whether it notifies, and what it prints.
abbrev pub Outcome : Type 0
Outcome = Shared × Pc × Bool × List ℕ

-- The next action of the thread that waits for `t`.
unfoldable pub act : ℕ → Bool → Shared → Pc → Outcome
act n t s testing = if ltb s.i n then (s, locking, false, []) else (s, finished, false, [])
act n t s locking = elim (lock s.mtx) [
  | none ↦ (s, locking, false, [])
  | some m ↦ (record s { mtx = m }, checking, false, [])
]
act n t s checking =
    if same s.ready t
    then (s, printing, false, [])
    else (record s { mtx = unlock s.mtx }, sleeping, false, [])
act n t s sleeping = (s, sleeping, false, [])
act n t s waking = elim (lock s.mtx) [
  | none ↦ (s, waking, false, [])
  | some m ↦ (record s { mtx = m }, checking, false, [])
]
act n t s printing = (s, incrementing, false, s.i ∷ [])
act n t s incrementing = (record s { i = suc s.i }, setting, false, [])
act n t s setting = (record s { ready = not t }, notifying, false, [])
act n t s notifying = (s, unlocking, true, [])
act n t s unlocking = (record s { mtx = unlock s.mtx }, testing, false, [])
act n t s finished = (s, finished, false, [])

-- A thread that is notified, or wakes up for no reason.
unfoldable pub wake : Pc → Pc
wake sleeping = waking
wake p = p

pub record System : Type 0 where
  pub shared : Shared
  pub t1 : Pc
  pub t2 : Pc

unfoldable pub start : System
start = record {
  shared = record { i = 0; mtx = unlocked; ready = true };
  t1 = testing;
  t2 = testing;
}

-- A thread acts, or `cv.wait` wakes it up by itself.
pub data Event : Type 0 where
  run : Bool → Event
  spurious : Bool → Event

unfoldable pub notified : Bool → Pc → Pc
notified true p = wake p
notified false p = p

-- What is printed, with the thread that prints it.
abbrev pub Output : Type 0
Output = List (Bool × ℕ)

unfoldable pub tag : Bool → List ℕ → Output
tag t [] = []
tag t (k ∷ ks) = (t, k) ∷ tag t ks

abbrev pub put_t1 : System → Outcome → System × Output
put_t1 s (shared, p, notifies, out) =
    (record { shared = shared; t1 = p; t2 = notified notifies s.t2 }, tag false out)

abbrev pub put_t2 : System → Outcome → System × Output
put_t2 s (shared, p, notifies, out) =
    (record { shared = shared; t1 = notified notifies s.t1; t2 = p }, tag true out)

unfoldable pub step : ℕ → System → Event → System × Output
step n s (run false) = put_t1 s (act n false s.shared s.t1)
step n s (run true) = put_t2 s (act n true s.shared s.t2)
step n s (spurious false) = (record s { t1 = wake s.t1 }, [])
step n s (spurious true) = (record s { t2 = wake s.t2 }, [])

unfoldable pub exec : ℕ → System → List Event → System × Output
exec n s [] = (s, [])
exec n s (e ∷ es) = let (t, out) = step n s e in let (u, rest) = exec n t es in (u, out ++ rest)
