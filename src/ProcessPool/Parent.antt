-- ===== src/ProcessPool/Parent.antt =====
-- The parent of the pool of 1119/processPool/ProcessPool.hpp: `StartThePool` from the pipes on.
use os_net_work_code.Base.{
  ℕ, ◌%◌, List, [], ◌∷◌, ◌++◌, length, Option, some, none, get_elem?, set, replicate,
}
use os_net_work_code.ProcessPool.Task.{Handlers, handler_size}
use os_net_work_code.ProcessPool.Child.{encode}

abbrev pub process_num : ℕ
process_num = 5

-- What is in the pipe of each child, in the order of `slots`.
abbrev pub Pipes : Type 0
Pipes = List (List ℕ)

-- `slots` after the loop that makes the pipes.
unfoldable pub slots : Pipes
slots = replicate process_num []

-- `__sendAndWakeUp` on the pipe of a slot; `none` is a slot out of range.
unfoldable pub send_and_wake_up : Pipes → ℕ → ℕ → Option Pipes
send_and_wake_up pipes choice command = elim (get_elem? pipes choice) [
  | none ↦ none
  | some pipe ↦ some (set pipes choice (pipe ++ encode command))
]

-- Two results of `rand`.
pub record Draw : Type 0 where
  pub for_task : ℕ
  pub for_process : ℕ

-- The loop that hands out tasks.
unfoldable pub dispatch : Handlers → Pipes → List Draw → Option Pipes
dispatch h pipes [] = some pipes
dispatch h pipes (r ∷ rs) =
    elim (send_and_wake_up pipes (r.for_process % length pipes) (r.for_task % handler_size h)) [
      | none ↦ none
      | some pipes' ↦ dispatch h pipes' rs
    ]
