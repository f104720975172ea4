-- ===== src/Sync.antt =====
-- The wrappers of POSIX synchronisation: the class Sem of 0208/RingQueue/sem.hpp, and the classes
-- Mutex and lockGuard of 0114/lockGuard.hpp (the files of that name in 0208/ThreadPool, 0211 and
-- 0215/tcp/threadPool are copies). An operation that may block returns `none` while it blocks.
pub mod Laws
pub mod Cond
use os_net_work_code.Base.{ℕ, suc, zero, Bool, true, false, Option, none, some}

-- The count of the `sem_t` that a `Sem` wraps.
pub record Sem : Type 0 where
  pub value : ℕ

unfoldable pub sem_init : ℕ → Sem
sem_init n = record { value = n }

take_one : ℕ → Option Sem
take_one zero = none
take_one (suc n) = some (record { value = n })

-- `sem_wait` blocks at 0.
unfoldable pub sem_p : Sem → Option Sem
unfolding take_one
sem_p s = take_one s.value

unfoldable pub sem_v : Sem → Sem
sem_v s = record { value = suc s.value }

-- A default pthread mutex, of which only matters whether somebody holds it.
pub record Mutex : Type 0 where
  pub locked : Bool

abbrev pub unlocked : Mutex
unlocked = record { locked = false }

acquire : Bool → Option Mutex
acquire true = none
acquire false = some (record { locked = true })

-- `Mutex::lock`, which the constructor of `lockGuard` calls.
unfoldable pub lock : Mutex → Option Mutex
unfolding acquire
lock m = acquire m.locked

-- `Mutex::unlock`, which the destructor of `lockGuard` calls.
unfoldable pub unlock : Mutex → Mutex
unlock m = record { locked = false }

-- A held mutex as a number, to be compared with the number of threads that hold it.
abbrev pub held : Mutex → ℕ
held m = elim m.locked [ true ↦ 1 | false ↦ 0 ]
