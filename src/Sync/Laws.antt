-- ===== src/Sync/Laws.antt =====
-- What the callers of sem.hpp and lockGuard.hpp may know of them.
use os_net_work_code.Base.{
  ℕ, zero, suc, ◌≤◌, arith, Bool, true, false, Option, none, some, ◌≡◌, refl, ◌⊎◌, inl, inr,
}
use os_net_work_code.Sync.{Sem, sem_p, sem_v, take_one, Mutex, acquire, lock, unlock, held}

abbrev SemTaken : ℕ → Option Sem → Type 0
SemTaken n r = ((n ≡ 0) × (r ≡ none)) ⊎ ((t : Sem) × (n ≡ suc t.value) × (r ≡ some t))

take_one-cases : (n : ℕ) → SemTaken n (take_one n)
unfolding take_one
take_one-cases zero = inl (refl, refl)
take_one-cases (suc n) = inr (record { value = n }, refl, refl)

-- `p` blocks exactly at 0, and otherwise takes one.
pub sem_p-cases :
    (s : Sem)
    → ((s.value ≡ 0) × (sem_p s ≡ none))
      ⊎ ((t : Sem) × (s.value ≡ suc t.value) × (sem_p s ≡ some t))
unfolding sem_p
sem_p-cases s = take_one-cases s.value

pub value-sem_v : (s : Sem) → (sem_v s).value ≡ suc s.value
unfolding sem_v
value-sem_v s = refl

abbrev Acquired : Bool → Option Mutex → Type 0
Acquired b r =
    ((held (record { locked = b }) ≡ 1) × (r ≡ none))
    ⊎ ((n : Mutex) × (held (record { locked = b }) ≡ 0) × (held n ≡ 1) × (r ≡ some n))

acquire-cases : (b : Bool) → Acquired b (acquire b)
unfolding acquire
acquire-cases true = inl (refl, refl)
acquire-cases false = inr (record { locked = true }, refl, refl, refl)

-- `lock` blocks exactly while somebody holds the mutex.
pub lock-cases :
    (m : Mutex)
    → ((held m ≡ 1) × (lock m ≡ none))
      ⊎ ((n : Mutex) × (held m ≡ 0) × (held n ≡ 1) × (lock m ≡ some n))
unfolding lock
lock-cases m = acquire-cases m.locked

pub held-unlock : (m : Mutex) → held (unlock m) ≡ 0
unfolding unlock
held-unlock m = refl

pub held-le-one : (m : Mutex) → held m ≤ 1
held-le-one m = ground arith
