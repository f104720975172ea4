-- ===== src/ProcessPool/First/Defs.antt =====
-- The processes of 1119/processPool/ProcessPool.cc: `CreatProcessPool`, `waitCommand` and
-- `sendAndWakeUp`, with the descriptors that the kernel hands out.
use os_net_work_code.Base.{
  ℕ, zero, suc, ◌%◌, Option, none, some, List, [], ◌∷◌, ◌++◌, length, get_elem?, set, replicate,
}
use os_net_work_code.Base.Int.{ℤ, pos, negsuc}
use os_net_work_code.ProcessPool.Task.{Handlers, handler_size}
use os_net_work_code.ProcessPool.Child.{encode, decode, to_int, Did, illegal, aborted, call}
use os_net_work_code.ProcessPool.Parent.{Draw}

abbrev pub process_num : ℕ
process_num = 5

-- What a descriptor stands for; pipe `i` is the one of child `i`.
pub data File : Type 0 where
  terminal : File
  read_end write_end : ℕ → File

-- The open descriptors of a process, by their numbers.
abbrev pub Table : Type 0
Table = List (Option File)

abbrev pub inherited : Table
inherited = some terminal ∷ some terminal ∷ some terminal ∷ []

-- The kernel gives the lowest number that is free.
unfoldable pub lowest : File → Table → Table × ℕ
lowest f [] = (some f ∷ [], 0)
lowest f (none ∷ t) = (some f ∷ t, 0)
lowest f (some g ∷ t) = let (t', n) = lowest f t in (some g ∷ t', suc n)

unfoldable pub close : ℕ → Table → Table
close fd t = set t fd none

-- A child: its descriptors and `pipefd[0]`.
pub record Kid : Type 0 where
  pub table : Table
  pub pipefd0 : ℕ

-- The parent behind the loop: its descriptors, and those of `slots`; and its children.
pub record Created : Type 0 where
  pub parent : Table
  pub slots : List ℕ
  pub kids : List Kid

-- The loop that makes the pipes and the children, `n` more from child `i` on.
unfoldable pub create : ℕ → ℕ → Table → Created
create zero i t = record { parent = t; slots = []; kids = [] }
create (suc n) i t =
    let (t', fd0) = lowest (read_end i) t in
    let (t'', fd1) = lowest (write_end i) t' in
    let rest = create n (suc i) (close fd0 t'') in
    record {
      parent = rest.parent;
      slots = fd1 ∷ rest.slots;
      kids = record { table = close fd1 t''; pipefd0 = fd0 } ∷ rest.kids;
    }

abbrev pub pool : Created
pool = create process_num 0 inherited

-- What is in the pipes, and what each child has done.
pub record Now : Type 0 where
  pub pipes : List (List ℕ)
  pub done : List (List Did)

unfoldable pub begun : Now
begun = record { pipes = replicate process_num []; done = replicate process_num [] }

unfoldable pub write_to : Now → Option File → List ℕ → Option Now
write_to s (some (write_end j)) bytes = elim (get_elem? s.pipes j) [
  | none ↦ none
  | some pipe ↦ some (record s { pipes = set s.pipes j (pipe ++ bytes) })
]
write_to s other bytes = none

abbrev pub at_fd : Table → ℕ → Option File
at_fd t fd = elim (get_elem? t fd) [ none ↦ none | some f ↦ f ]

-- `sendAndWakeUp` through the slot with the number `choice`; none is a slot out of range, or a
-- descriptor that is not the write end of a pipe.
unfoldable pub send_and_wake_up : Created → Now → ℕ → ℕ → Option Now
send_and_wake_up c s choice command = elim (get_elem? c.slots choice) [
  | none ↦ none
  | some fd ↦ write_to s (at_fd c.parent fd) (encode command)
]

-- A round of the loop that hands out tasks.
unfoldable pub hand_out : Handlers → Created → Now → Draw → Option Now
hand_out h c s r =
    send_and_wake_up c s (r.for_process % length c.slots) (r.for_task % handler_size h)

-- What `waitCommand` comes to: no byte is there and the child sleeps, fewer than four are, which the
-- assertion does not let pass, or a command. The parent never closes its ends, so the end of the
-- file is not met.
pub data Waited : Type 0 where
  asleep : Waited
  broken : Waited
  command : ℤ → List ℕ → Waited

unfoldable pub wait_command : List ℕ → Waited
wait_command [] = asleep
wait_command (a ∷ []) = broken
wait_command (a ∷ b ∷ []) = broken
wait_command (a ∷ b ∷ c ∷ []) = broken
wait_command (a ∷ b ∷ c ∷ d ∷ rest) = command (to_int (decode a b c d)) rest

-- `callbacks[command]()` if the command is in the table; none is a call out of the vector.
unfoldable pub perform : Handlers → ℤ → Option Did
perform h (pos n) = call h n
perform h (negsuc n) = some (illegal (negsuc n))

unfoldable pub round : Handlers → Waited → List ℕ → List Did → Option (List ℕ × List Did)
round h asleep pipe ds = some (pipe, ds)
round h broken pipe ds = some ([], ds ++ aborted ∷ [])
round h (command v rest) pipe ds = elim (perform h v) [
  | none ↦ none
  | some d ↦ some (rest, ds ++ d ∷ [])
]

unfoldable pub read_from : Handlers → Now → ℕ → Option File → Option Now
read_from h s k (some (read_end j)) = elim (get_elem? s.pipes j) [
  | none ↦ none
  | some pipe ↦ elim (get_elem? s.done k) [
    | none ↦ none
    | some ds ↦ elim (round h (wait_command pipe) pipe ds) [
      | none ↦ none
      | some (rest, ds') ↦ some (record { pipes = set s.pipes j rest; done = set s.done k ds' })
    ]
  ]
]
read_from h s k other = none

-- A round of the loop of child `k`; where there is no such child, nothing happens.
unfoldable pub child_round : Handlers → Created → Now → ℕ → Option Now
child_round h c s k = elim (get_elem? c.kids k) [
  | none ↦ some s
  | some kid ↦ read_from h s k (at_fd kid.table kid.pipefd0)
]

-- Parent and children take turns in any order; a number names a child.
pub data Turn : Type 0 where
  parent_turn : Draw → Turn
  child_turn : (k : ℕ) → Turn

unfoldable pub step : Handlers → Created → Now → Turn → Option Now
step h c s (parent_turn r) = hand_out h c s r
step h c s (child_turn k) = child_round h c s k

unfoldable pub exec : Handlers → Created → Now → List Turn → Option Now
exec h c s [] = some s
exec h c s (t ∷ ts) = elim (step h c s t) [ none ↦ none | some s' ↦ exec h c s' ts ]
