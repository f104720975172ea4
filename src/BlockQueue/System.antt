-- ===== src/BlockQueue/System.antt =====
-- Any number of threads over one BlockQueue (0114/BlockQueue.hpp), run as a schedule says; the
-- threads of 0114/ConProd.cc, two that push and two that pop for ever, are an instance.
use os_net_work_code.Base.{
  ℕ, Bool, true, false, Option, none, some, List, [], ◌∷◌, ◌++◌, get_elem?, set, replicate,
}
use os_net_work_code.Sync.Cond.{signal_target}
use os_net_work_code.Fifo.{Event}
use os_net_work_code.BlockQueue.Defs.{
  BlockQueue, init, Cond, empty_cond, full_cond, Pc, idle, push_lock, push_sleep, push_wake,
  pop_lock, pop_sleep, pop_wake, Outcome, move,
}

pub record System {ℓ} (A : Type ℓ) : Type ℓ where
  pub queue : BlockQueue A
  pub threads : List (Pc A)

-- `run i j`: thread `i` makes its next action, and if that signals a condition, thread `j` is the
-- one to be woken, if it sleeps there. `spurious i`: thread `i` wakes from its wait unasked.
pub data Action {ℓ} (A : Type ℓ) : Type ℓ where
  call_push : ℕ → A → Action A
  call_pop : ℕ → Action A
  run : ℕ → ℕ → Action A
  spurious : ℕ → Action A

-- A queue of the given capacity and `n` threads, none of them in a call.
unfoldable pub start {ℓ} : (A : Type ℓ) → ℕ → ℕ → System A
start A capacity n = record { queue = init A capacity; threads = replicate n idle }

module _ {ℓ} {A : Type ℓ} where
  abbrev pub asleep_on : Cond → Pc A → Bool
  asleep_on full_cond (push_sleep _) = true
  asleep_on empty_cond pop_sleep = true
  asleep_on c p = false

  -- A sleeping thread wakes, and has to take the mutex again.
  abbrev pub awake : Pc A → Pc A
  awake (push_sleep x) = push_wake x
  awake pop_sleep = pop_wake
  awake p = p

  unfoldable pub wake : List (Pc A) → ℕ → List (Pc A)
  wake ps k = elim (get_elem? ps k) [ none ↦ ps | some p ↦ set ps k (awake p) ]

  unfoldable pub signalled : Option Cond → ℕ → List (Pc A) → List (Pc A)
  unfolding wake
  signalled none j ps = ps
  signalled (some c) j ps = elim (signal_target (asleep_on c) ps j) [
    | none ↦ ps
    | some k ↦ wake ps k
  ]

  abbrev pub begin : Pc A → Pc A → Pc A
  begin idle q = q
  begin p q = p

  unfoldable pub call : System A → ℕ → Pc A → System A
  call s i q = elim (get_elem? s.threads i) [
    | none ↦ s
    | some p ↦ record s { threads = set s.threads i (begin p q) }
  ]

  unfoldable pub finish : System A → ℕ → ℕ → Option (Outcome A) → Option (System A × List (Event A))
  finish s i j none = none
  finish s i j (some o) = some (
    record { queue = o.queue; threads = signalled o.signal j (set s.threads i o.place) },
    o.trace,
  )

  unfoldable pub step_run : System A → ℕ → ℕ → Option (System A × List (Event A))
  step_run s i j = elim (get_elem? s.threads i) [
    | none ↦ some (s, [])
    | some p ↦ finish s i j (move s.queue p)
  ]

  -- One action of the schedule; `none` is undefined behaviour.
  unfoldable pub step : System A → Action A → Option (System A × List (Event A))
  unfolding call step_run finish signalled wake
  step s (call_push i x) = some (call s i (push_lock x), [])
  step s (call_pop i) = some (call s i pop_lock, [])
  step s (run i j) = step_run s i j
  step s (spurious i) = some (record s { threads = wake s.threads i }, [])

  -- A whole schedule, with the trace of what was put and got.
  unfoldable pub exec : System A → List (Action A) → Option (System A × List (Event A))
  exec s [] = some (s, [])
  exec s (a ∷ as') = elim (step s a) [
    | none ↦ none
    | some (t, es) ↦ elim (exec t as') [ none ↦ none | some (u, fs) ↦ some (u, es ++ fs) ]
  ]
