-- ===== src/Singleton/Tests.antt =====
-- A race of two threads for the single object, and the theorem there (0211/threadPool.hpp).
use os_net_work_code.Base.{ℕ, ◌≤◌, ◌≡◌, refl, some, List, [], ◌∷◌, length}
use os_net_work_code.Sync.{lock, unlock}
use os_net_work_code.Singleton.Defs.{Action, call, run, start, init, exec, step, get_thread_pool}
use os_net_work_code.Singleton.Invariant.{AllFirst}
use os_net_work_code.Singleton.Safety.{single_object}

-- Both threads pass the outer test before either has the lock.
abbrev race : List (Action ℕ)
race =
    call 0 3
    ∷ call 1 4
    ∷ run 0
    ∷ run 1
    ∷ run 0
    ∷ run 1
    ∷ run 0
    ∷ run 0
    ∷ run 0
    ∷ run 0
    ∷ run 0
    ∷ run 1
    ∷ run 1
    ∷ run 1
    ∷ run 1
    ∷ []

race_result : (exec (start ℕ 2) race).1 ≡ some 0 ∷ some 0 ∷ []
unfolding exec step start init get_thread_pool lock unlock
race_result = refl

race_objects : (exec (start ℕ 2) race).0.statics.objects ≡ 3 ∷ []
unfolding exec step start init get_thread_pool lock unlock
race_objects = refl

single_object_example :
    let (t, out) = exec (start ℕ 2) race in (length t.statics.objects ≤ 1) × AllFirst out
single_object_example = single_object 2 race
