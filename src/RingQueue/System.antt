-- ===== src/RingQueue/System.antt =====
-- Any number of threads over one RingQueue, run in an order that a schedule gives
-- (0208/RingQueue/ringQueue.hpp; the threads of 0208/RingQueue/testMain.cc are an instance).
use os_net_work_code.Base.{ℕ, Option, none, some, List, [], ◌∷◌, ◌++◌, get_elem?, set, replicate}
use os_net_work_code.Fifo.{Event}
use os_net_work_code.RingQueue.Defs.{RingQueue, init, Pc, idle, push_wait, pop_wait, Outcome, move}

pub record System {ℓ} (A : Type ℓ) : Type ℓ where
  pub ring : RingQueue A
  pub threads : List (Pc A)

-- A thread that is in no call may call `push` or `pop`; a thread may make its next action.
pub data Action {ℓ} (A : Type ℓ) : Type ℓ where
  call_push : ℕ → A → Action A
  call_pop : ℕ → Action A
  run : ℕ → Action A

module _ {ℓ} {A : Type ℓ} where
  unfoldable pub start : A → ℕ → ℕ → System A
  start blank cap n = record { ring = init blank cap; threads = replicate n idle }

  abbrev pub put_back : System A → ℕ → Outcome A → System A × List (Event A)
  put_back s i (r, p, es) = (record s { ring = r; threads = set s.threads i p }, es)

  -- A call by a thread that is inside another call is not made.
  abbrev pub begin : System A → ℕ → Pc A → Pc A → System A
  begin s i idle q = record s { threads = set s.threads i q }
  begin s i p q = s

  unfoldable pub advance : System A → ℕ → Option (Outcome A) → Option (System A × List (Event A))
  advance s i none = none
  advance s i (some o) = some (put_back s i o)

  unfoldable pub step_call : System A → ℕ → Option (Pc A) → Pc A → System A
  step_call s i none q = s
  step_call s i (some p) q = begin s i p q

  unfoldable pub step_run : System A → ℕ → Option (Pc A) → Option (System A × List (Event A))
  unfolding advance
  step_run s i none = some (s, [])
  step_run s i (some p) = advance s i (move s.ring p)

  -- One action of the schedule; `none` is undefined behaviour.
  unfoldable pub step : System A → Action A → Option (System A × List (Event A))
  unfolding step_call step_run
  step s (call_push i x) = some (step_call s i (get_elem? s.threads i) (push_wait x), [])
  step s (call_pop i) = some (step_call s i (get_elem? s.threads i) pop_wait, [])
  step s (run i) = step_run s i (get_elem? s.threads i)

  -- A whole schedule, with the trace of what was put and got.
  unfoldable pub exec : System A → List (Action A) → Option (System A × List (Event A))
  exec s [] = some (s, [])
  exec s (a ∷ as') = elim (step s a) [
    | none ↦ none
    | some (t, es) ↦ elim (exec t as') [ none ↦ none | some (u, fs) ↦ some (u, es ++ fs) ]
  ]
