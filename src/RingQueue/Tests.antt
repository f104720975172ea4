-- ===== src/RingQueue/Tests.antt =====
-- Runs of RingQueue<T> (0208/RingQueue/ringQueue.hpp) on small schedules, and the theorems there.
use os_net_work_code.Base.{ℕ, ◌≡◌, refl, List, [], ◌∷◌, some, Bool, false, arith}
use os_net_work_code.Fifo.{Event, put, got, Steps}
use os_net_work_code.Sync.{unlocked, sem_init, sem_p, sem_v, lock, unlock}
use os_net_work_code.RingQueue.Defs.{RingQueue, idle, init, push_wait, pop_wait, move}
use os_net_work_code.RingQueue.System.{System, Action, call_push, call_pop, run, start, exec, step}
use os_net_work_code.RingQueue.Safety.{ring_queue_refines}
use os_net_work_code.RingQueue.Progress.{ring_queue_never_deadlocks, SomeGoes}

-- Thread 0 puts 7 and thread 1 gets it.
abbrev hand_over : List (Action ℕ)
hand_over =
    call_pop 1
    ∷ run 1
    ∷ call_push 0 7
    ∷ run 0
    ∷ run 0
    ∷ run 0
    ∷ run 0
    ∷ run 0
    ∷ run 0
    ∷ run 1
    ∷ run 1
    ∷ run 1
    ∷ run 1
    ∷ run 1
    ∷ run 1
    ∷ []

abbrev exchanged : List (Event ℕ)
exchanged = put 7 ∷ got 7 ∷ []

-- Two threads race for the producers' lock.
abbrev race : List (Action ℕ)
race = call_push 0 7 ∷ call_push 1 8 ∷ run 0 ∷ run 1 ∷ run 0 ∷ run 1 ∷ []

-- A producer and a consumer arrive together.
abbrev meeting : List (Action ℕ)
meeting = call_push 0 7 ∷ call_pop 1 ∷ []

abbrev ring_of : List ℕ → ℕ → ℕ → ℕ → ℕ → Bool → RingQueue ℕ
ring_of items p c spaces ready busy = record {
  ring_queue = items;
  size = 2;
  c_step = c;
  p_step = p;
  space_sem = record { value = spaces };
  data_sem = record { value = ready };
  c_lock = unlocked;
  p_lock = record { locked = busy };
}

abbrev handed : System ℕ
handed = record { ring = ring_of (7 ∷ 0 ∷ []) 1 1 2 0 false; threads = idle ∷ idle ∷ [] }

abbrev met : System ℕ
met = record { ring = ring_of (0 ∷ 0 ∷ []) 0 0 2 0 false; threads = push_wait 7 ∷ pop_wait ∷ [] }

ring_queue_refines_example :
    (t : System ℕ) × (es : List (Event ℕ)) × (q : List ℕ) × (exec (start 0 2 2) hand_over
      ≡ some (t, es))
    × Steps 2 [] es q
ring_queue_refines_example = ring_queue_refines 0 2 2 hand_over (omega arith)

ring_queue_never_deadlocks_example : SomeGoes met
unfolding exec step start init move sem_init sem_p sem_v lock unlock
ring_queue_never_deadlocks_example =
    ring_queue_never_deadlocks 0 2 2 meeting {t = met} {es = []} 0 1 7 (omega arith) refl refl refl
