-- ===== src/BlockQueue/Tasks.antt =====
-- 0114/ConProd.cc and 0114/Task.hpp: two consumers and two producers of sums over one BlockQueue.
use os_net_work_code.Base.{
  ℕ, ◌+◌, ◌%◌, ◌≤◌, Bool, true, false, Option, none, some, List, [], ◌∷◌, ◌++◌, get_elem?,
  if◌then◌else◌, ◌==◌, arith,
}
use os_net_work_code.Fifo.{Event, gots}
use os_net_work_code.BlockQueue.Defs.{Pc, idle}
use os_net_work_code.BlockQueue.System.{System, call_push, call_pop, run, spurious, start, step}

-- `gDefaultCap`.
abbrev pub default_cap : ℕ
default_cap = 5

-- A Task, whose function is always `myadd`.
pub record Task : Type 0 where
  pub x : ℕ
  pub y : ℕ

unfoldable pub my_add : ℕ → ℕ → ℕ
my_add x y = x + y

-- `operator()`.
unfoldable pub call_task : Task → ℕ
call_task t = my_add t.x t.y

-- What `productor` makes of two results of `rand`.
unfoldable pub make_task : ℕ → ℕ → Task
make_task r r' = record { x = r % 10 + 1; y = r' % 5 + 1 }

-- A task with what is known of its answer.
abbrev pub Made : Type 0
Made = (t : Task) × (2 ≤ call_task t) × (call_task t ≤ 15)

pub made : ℕ → ℕ → Made
unfolding call_task my_add make_task
made r r' = (make_task r r', omega arith, omega arith)

-- The two consumers are the threads 0 and 1, the producers 2 and 3.
abbrev pub consumer : Bool → ℕ
consumer second = if second then 1 else 0

abbrev pub productor : Bool → ℕ
productor second = if second then 3 else 2

-- What the program does next: a consumer calls `pop`, or prints the task that it has popped; a
-- producer makes a task and pushes it; a thread acts inside the queue; or it wakes for no reason.
pub data Turn : Type 0 where
  consume : Bool → Turn
  show : Bool → Turn
  produce : Bool → ℕ → ℕ → Turn
  act : ℕ → ℕ → Turn
  wake : ℕ → Turn

-- The queue with its threads, the tasks that consumers have popped and not printed yet, with the
-- threads that have them, and what was printed.
pub record World : Type 0 where
  pub sys : System Made
  pub hands : List (ℕ × Made)
  pub shown : List Made

unfoldable pub begun : World
begun = record { sys = start Made default_cap 4; hands = []; shown = [] }

unfoldable pub in_hand : ℕ → List Made → List (ℕ × Made)
in_hand i [] = []
in_hand i (m ∷ ms) = (i, m) ∷ in_hand i ms

unfoldable pub behind : ℕ × Made → Option (Made × List (ℕ × Made)) → Option (Made × List (ℕ × Made))
behind h none = none
behind h (some (m, rest)) = some (m, h ∷ rest)

-- The task of a thread, and those of the others.
unfoldable pub take_hand : ℕ → List (ℕ × Made) → Option (Made × List (ℕ × Made))
take_hand i [] = none
take_hand i (h ∷ hs) =
    let rest = take_hand i hs in if h.0 == i then some (h.1, hs) else behind h rest

-- What thread `i` has got is in its hand.
unfoldable pub went :
    World → ℕ → Option (System Made × List (Event Made)) → Option (World × List (Event Made))
went w i none = none
went w i (some (s, es)) = some (record w { sys = s; hands = w.hands ++ in_hand i (gots es) }, es)

unfoldable pub print_task : World → Option (Made × List (ℕ × Made)) → World
print_task w none = w
print_task w (some (m, rest)) = record w { hands = rest; shown = w.shown ++ m ∷ [] }

abbrev pub is_idle : Option (Pc Made) → Bool
is_idle (some idle) = true
is_idle p = false

-- A consumer calls `pop` once it has printed, and prints once `pop` has returned.
unfoldable pub turn : World → Turn → Option (World × List (Event Made))
turn w (consume second) = elim (take_hand (consumer second) w.hands) [
  | none ↦ went w (consumer second) (step w.sys (call_pop (consumer second)))
  | some h ↦ some (w, [])
]
turn w (show second) = some (
  if is_idle (get_elem? w.sys.threads (consumer second))
      then print_task w (take_hand (consumer second) w.hands)
      else w,
  [],
)
turn w (produce second r r') =
    went w (productor second) (step w.sys (call_push (productor second) (made r r')))
turn w (act i j) = went w i (step w.sys (run i j))
turn w (wake i) = went w i (step w.sys (spurious i))

unfoldable pub program : World → List Turn → Option (World × List (Event Made))
program w [] = some (w, [])
program w (t ∷ ts) = elim (turn w t) [
  | none ↦ none
  | some (u, es) ↦ elim (program u ts) [ none ↦ none | some (v, fs) ↦ some (v, es ++ fs) ]
]

-- The answers of tasks.
unfoldable pub answers : List Made → List ℕ
answers [] = []
answers (m ∷ ms) = call_task m.0 ∷ answers ms

abbrev pub Between : ℕ → ℕ → List ℕ → Type 0
Between lo hi [] = Unit {0}
Between lo hi (n ∷ ns) = (lo ≤ n) × (n ≤ hi) × Between lo hi ns
