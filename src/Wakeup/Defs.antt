-- ===== src/Wakeup/Defs.antt =====
-- 0113/demo/mycond.cc: `func1` to `func4`, `Entry` and `main`. The four functions are alike but for
-- the letter that they print; a line of output is given by the number of its thread.
use os_net_work_code.Base.{
  ℕ, zero, suc, Bool, true, false, Option, none, some, List, [], ◌∷◌, ◌++◌, get_elem?, set, map,
  replicate, if◌then◌else◌,
}
use os_net_work_code.Sync.{Mutex, unlocked, lock, unlock}
use os_net_work_code.Sync.Cond.{signal_target}

-- Where a thread stands: before the named action of its loop.
pub data Pc : Type 0 where
  testing : Pc  -- while (!quit)
  locking : Pc  -- pthread_mutex_lock(pmtx)
  waiting : Pc  -- pthread_cond_wait(pcond, pmtx), which lets the mutex go
  sleeping : Pc  -- inside pthread_cond_wait
  waking : Pc  -- pthread_cond_wait takes the mutex again
  printing : Pc  -- std::cout << name
  unlocking : Pc  -- pthread_mutex_unlock(pmtx)
  finished : Pc  -- `Entry` has returned

abbrev pub asleep : Pc → Bool
asleep sleeping = true
asleep p = false

-- Where `main` stands, with the signals that are left or the thread that it joins.
pub data Main : Type 0 where
  signalling : ℕ → Main  -- while(cnt--)
  quitting : Main  -- quit = true
  broadcasting : Main  -- pthread_cond_broadcast(&cond)
  joining : ℕ → Main  -- pthread_join(tids[i], nullptr)
  returned : Main

-- The mutex and the place of the thread, and whether it prints.
abbrev pub Outcome : Type 0
Outcome = Mutex × Pc × Bool

-- The next action of `func1` to `func4`.
unfoldable pub func : Bool → Mutex → Pc → Outcome
func quit m testing = if quit then (m, finished, false) else (m, locking, false)
func quit m locking = elim (lock m) [
  | none ↦ (m, locking, false)
  | some taken ↦ (taken, waiting, false)
]
func quit m waiting = (unlock m, sleeping, false)
func quit m sleeping = (m, sleeping, false)
func quit m waking = elim (lock m) [
  | none ↦ (m, waking, false)
  | some taken ↦ (taken, printing, false)
]
func quit m printing = (m, unlocking, true)
func quit m unlocking = (unlock m, testing, false)
func quit m finished = (m, finished, false)

unfoldable pub wake : Pc → Pc
wake sleeping = waking
wake p = p

-- A thread is woken, if there is one.
unfoldable pub wake_one : List Pc → Option ℕ → List Pc
wake_one ps none = ps
wake_one ps (some k) = set ps k waking

pub record System : Type 0 where
  pub quit : Bool
  pub mtx : Mutex
  pub control : Main
  pub threads : List Pc

-- `main` has created `n` threads and is going to signal `cnt` times; in the source 4 and 10.
unfoldable pub start : ℕ → ℕ → System
start cnt n = record {
  quit = false;
  mtx = unlocked;
  control = signalling cnt;
  threads = replicate n testing;
}

-- `pthread_join` of thread `i` waits for its end; there are no more threads when there is none.
unfoldable pub join : ℕ → Option Pc → Main
join i none = returned
join i (some finished) = joining (suc i)
join i (some p) = joining i

-- The next action of `main`; a signal wakes the sleeper `j`, if it sleeps.
unfoldable pub main : Main → System → ℕ → System
main (signalling zero) s j = record s { control = quitting }
main (signalling (suc c)) s j = record s {
  control = signalling c;
  threads = wake_one s.threads (signal_target asleep s.threads j);
}
main quitting s j = record s { quit = true; control = broadcasting }
main broadcasting s j = record s { control = joining 0; threads = map wake s.threads }
main (joining i) s j = record s { control = join i (get_elem? s.threads i) }
main returned s j = s

-- A thread or `main` acts, or `pthread_cond_wait` returns by itself.
pub data Event : Type 0 where
  run : ℕ → Event
  control : ℕ → Event
  spurious : ℕ → Event

unfoldable pub printed : ℕ → Bool → List ℕ
printed i true = i ∷ []
printed i false = []

abbrev pub put_back : System → ℕ → Outcome → System × List ℕ
put_back s i (m, p, prints) = (record s { mtx = m; threads = set s.threads i p }, printed i prints)

unfoldable pub step : System → Event → System × List ℕ
step s (run i) = elim (get_elem? s.threads i) [
  | none ↦ (s, [])
  | some p ↦ put_back s i (func s.quit s.mtx p)
]
step s (control j) = (main s.control s j, [])
step s (spurious i) = elim (get_elem? s.threads i) [
  | none ↦ (s, [])
  | some p ↦ (record s { threads = set s.threads i (wake p) }, [])
]

unfoldable pub exec : System → List Event → System × List ℕ
exec s [] = (s, [])
exec s (e ∷ es) = let (t, out) = step s e in let (u, rest) = exec t es in (u, out ++ rest)

-- How often `pthread_cond_wait` may return by itself.
abbrev pub spurious_wakeups : List Event → ℕ
spurious_wakeups [] = 0
spurious_wakeups (run i ∷ es) = spurious_wakeups es
spurious_wakeups (control j ∷ es) = spurious_wakeups es
spurious_wakeups (spurious i ∷ es) = suc (spurious_wakeups es)
