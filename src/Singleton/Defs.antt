-- ===== src/Singleton/Defs.antt =====
-- One thread inside `getThreadPool(num)` (0211/threadPool.hpp) or `GetInstance()`
-- (xjh_multi_thread/test.cc); `C` is the type of the constructor's argument.
use os_net_work_code.Base.{
  ℕ, Option, none, some, List, [], ◌∷◌, ◌++◌, length, get_elem?, set, replicate,
}
use os_net_work_code.Sync.{Mutex, unlocked, lock, unlock}

-- The static members, and the objects made so far: a pointer is an index among them.
pub record Statics {ℓ} (C : Type ℓ) : Type ℓ where
  pub thread_ptr : Option ℕ
  pub mutex_for_pool : Mutex
  pub objects : List C

unfoldable pub init {ℓ} : (C : Type ℓ) → Statics C
init C = record { thread_ptr = none; mutex_for_pool = unlocked; objects = [] }

-- Where a thread stands: before the named action.
pub data Pc {ℓ} (C : Type ℓ) : Type ℓ where
  idle : Pc C
  outer_test : C → Pc C  -- if (nullptr == thread_ptr)
  locking : C → Pc C  -- the constructor of lockGuard
  inner_test : C → Pc C  -- if (nullptr == thread_ptr), under the lock
  creating : C → Pc C  -- new ThreadPool<T>(num)
  assigning : ℕ → Pc C  -- thread_ptr = (the new object)
  unlocking : Pc C  -- the destructor of lockGuard
  returning : Pc C  -- return thread_ptr

-- The static members, the place of the thread, and the pointers that it has returned.
abbrev pub Outcome {ℓ} : Type ℓ → Type ℓ
Outcome C = Statics C × Pc C × List (Option ℕ)

module _ {ℓ} {C : Type ℓ} where
  -- The next action of a thread inside the call.
  unfoldable pub get_thread_pool : Statics C → Pc C → Outcome C
  get_thread_pool m idle = (m, idle, [])
  get_thread_pool m (outer_test num) = elim m.thread_ptr [
    | none ↦ (m, locking num, [])
    | some p ↦ (m, returning, [])
  ]
  get_thread_pool m (locking num) = elim (lock m.mutex_for_pool) [
    | none ↦ (m, locking num, [])
    | some l ↦ (record m { mutex_for_pool = l }, inner_test num, [])
  ]
  get_thread_pool m (inner_test num) = elim m.thread_ptr [
    | none ↦ (m, creating num, [])
    | some p ↦ (m, unlocking, [])
  ]
  get_thread_pool m (creating num) =
      (record m { objects = m.objects ++ num ∷ [] }, assigning (length m.objects), [])
  get_thread_pool m (assigning p) = (record m { thread_ptr = some p }, unlocking, [])
  get_thread_pool m unlocking =
      (record m { mutex_for_pool = unlock m.mutex_for_pool }, returning, [])
  get_thread_pool m returning = (m, idle, m.thread_ptr ∷ [])

-- The class Singleton is built by a constructor without an argument.
unfoldable pub get_instance : Statics (Unit {0}) → Pc (Unit {0}) → Outcome (Unit {0})
get_instance = get_thread_pool

pub record System {ℓ} (C : Type ℓ) : Type ℓ where
  pub statics : Statics C
  pub threads : List (Pc C)

pub data Action {ℓ} (C : Type ℓ) : Type ℓ where
  call : ℕ → C → Action C
  run : ℕ → Action C

unfoldable pub start {ℓ} : (C : Type ℓ) → ℕ → System C
start C n = record { statics = init C; threads = replicate n idle }

module _ {ℓ} {C : Type ℓ} where
  abbrev pub begin : C → Pc C → Pc C
  begin num idle = outer_test num
  begin num p = p

  abbrev pub put_back : System C → ℕ → Outcome C → System C × List (Option ℕ)
  put_back s i (m, p, out) = (record { statics = m; threads = set s.threads i p }, out)

  unfoldable pub step : System C → Action C → System C × List (Option ℕ)
  step s (call i num) = elim (get_elem? s.threads i) [
    | none ↦ (s, [])
    | some p ↦ (record s { threads = set s.threads i (begin num p) }, [])
  ]
  step s (run i) = elim (get_elem? s.threads i) [
    | none ↦ (s, [])
    | some p ↦ put_back s i (get_thread_pool s.statics p)
  ]

  -- A whole schedule, with the pointers that calls have returned.
  unfoldable pub exec : System C → List (Action C) → System C × List (Option ℕ)
  exec s [] = (s, [])
  exec s (a ∷ as') = let (t, out) = step s a in let (u, rest) = exec t as' in (u, out ++ rest)
