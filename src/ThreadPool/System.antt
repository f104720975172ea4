-- ===== src/ThreadPool/System.antt =====
-- The workers of a ThreadPool and any number of clients, run as a schedule says
-- (0211/threadPool.hpp; the clients of 0211/testMain.cc and of 0215/tcp/tcp_server.hpp are
-- instances).
use os_net_work_code.Base.{
  ℕ, Bool, true, false, Option, none, some, List, [], ◌∷◌, ◌++◌, get_elem?, set, replicate,
}
use os_net_work_code.Sync.Cond.{signal_target}
use os_net_work_code.ThreadPool.Defs.{
  Pool, init, workers, Pc, idle, push_lock, work_sleep, work_wake, TaskEvent, Outcome, move,
}

pub record System {ℓ} (T : Type ℓ) : Type ℓ where
  pub pool : Pool T
  pub threads : List (Pc T)

-- `push_task i t`: client `i` calls `pushTask(t)`. `run i j`: thread `i` makes its next action
-- (the first one of a worker is its start by `run`), and if that signals, thread `j` is to be
-- woken, if it sleeps. `spurious i`: thread `i` wakes from its wait unasked.
pub data Action {ℓ} (T : Type ℓ) : Type ℓ where
  push_task : ℕ → T → Action T
  run : ℕ → ℕ → Action T
  spurious : ℕ → Action T

-- A new pool of `thread_num` workers, and `clients` further threads.
unfoldable pub start {ℓ} : (T : Type ℓ) → ℕ → ℕ → System T
start T thread_num clients = record {
  pool = init T;
  threads = workers thread_num ++ replicate clients idle;
}

module _ {ℓ} {T : Type ℓ} where
  abbrev pub asleep : Pc T → Bool
  asleep work_sleep = true
  asleep p = false

  abbrev pub awake : Pc T → Pc T
  awake work_sleep = work_wake
  awake p = p

  unfoldable pub wake : List (Pc T) → ℕ → List (Pc T)
  wake ps k = elim (get_elem? ps k) [ none ↦ ps | some p ↦ set ps k (awake p) ]

  unfoldable pub signalled : Bool → ℕ → List (Pc T) → List (Pc T)
  unfolding wake
  signalled false j ps = ps
  signalled true j ps = elim (signal_target asleep ps j) [ none ↦ ps | some k ↦ wake ps k ]

  abbrev pub begin : Pc T → Pc T → Pc T
  begin idle q = q
  begin p q = p

  unfoldable pub call : System T → ℕ → Pc T → System T
  call s i q = elim (get_elem? s.threads i) [
    | none ↦ s
    | some p ↦ record s { threads = set s.threads i (begin p q) }
  ]

  unfoldable pub finish :
      System T → ℕ → ℕ → Option (Outcome T) → Option (System T × List (TaskEvent T))
  finish s i j none = none
  finish s i j (some o) =
      some (
        record { pool = o.pool; threads = signalled o.signals j (set s.threads i o.place) },
        o.trace,
      )

  unfoldable pub step_run : System T → ℕ → ℕ → Option (System T × List (TaskEvent T))
  step_run s i j = elim (get_elem? s.threads i) [
    | none ↦ some (s, [])
    | some p ↦ finish s i j (move s.pool p)
  ]

  -- One action of the schedule; `none` is undefined behaviour.
  unfoldable pub step : System T → Action T → Option (System T × List (TaskEvent T))
  unfolding call step_run finish signalled wake
  step s (push_task i t) = some (call s i (push_lock t), [])
  step s (run i j) = step_run s i j
  step s (spurious i) = some (record s { threads = wake s.threads i }, [])

  -- A whole schedule, with the trace of what has happened to the tasks.
  unfoldable pub exec : System T → List (Action T) → Option (System T × List (TaskEvent T))
  exec s [] = some (s, [])
  exec s (a ∷ as') = elim (step s a) [
    | none ↦ none
    | some (t, es) ↦ elim (exec t as') [ none ↦ none | some (u, fs) ↦ some (u, es ++ fs) ]
  ]
