-- ===== src/PoolProgram/Defs.antt =====
-- Tasks, threads and main of 0211/Task.hpp, 0211/thread.hpp and 0211/testMain.cc.
use os_net_work_code.Base.{
  ℕ, zero, suc, ◌+◌, ◌-◌, ◌%◌, ◌≤◌, Bool, true, false, Option, none, some, List, [], ◌∷◌, ◌++◌,
  take, get_elem?, arith,
}
use os_net_work_code.Udp.Key.{digits}
use os_net_work_code.Log.Defs.{Message, Outputs, log_to_file, log_all}
use os_net_work_code.Log.All.{ended}
use os_net_work_code.ThreadPool.Defs.{Pc, idle, TaskEvent, pushed, taken, ran}
use os_net_work_code.ThreadPool.System.{System, Action, push_task, run, spurious, start, step}

-- A Task, whose function is always the sum.
pub record Task : Type 0 where
  pub x : ℕ
  pub y : ℕ

unfoldable pub func : ℕ → ℕ → ℕ
func x y = x + y

-- What main makes of two results of `rand`.
unfoldable pub make_task : ℕ → ℕ → Task
make_task r r' = record { x = r % 100 + 1; y = r' % 30 + 1 }

-- A task with what is known of its result.
abbrev pub Made : Type 0
Made = (t : Task) × (2 ≤ func t.x t.y) × (func t.x t.y ≤ 130)

pub made : ℕ → ℕ → Made
unfolding func make_task
made r r' = (make_task r r', omega arith, omega arith)

-- An int that is not negative has ten digits at most.
unfoldable pub int_text : ℕ → List ℕ
int_text n = digits 10 n

-- The name that the constructor of Thread gives: "Thread-%d".
unfoldable pub thread_name : ℕ → List ℕ
thread_name num = take (64 - 1) (b'T' ∷ b'h' ∷ b'r' ∷ b'e' ∷ b'a' ∷ b'd' ∷ b'-' ∷ int_text num)

-- "线程: %s,处理结果是: %d", without the newline behind it.
unfoldable pub result_text : List ℕ → Task → List ℕ
result_text name t =
    0xE7
    ∷ 0xBA
    ∷ 0xBF
    ∷ 0xE7
    ∷ 0xA8
    ∷ 0x8B
    ∷ b':'
    ∷ b' '
    ∷ (name
        ++ b','
          ∷ 0xE5
          ∷ 0xA4
          ∷ 0x84
          ∷ 0xE7
          ∷ 0x90
          ∷ 0x86
          ∷ 0xE7
          ∷ 0xBB
          ∷ 0x93
          ∷ 0xE6
          ∷ 0x9E
          ∷ 0x9C
          ∷ 0xE6
          ∷ 0x98
          ∷ 0xAF
          ∷ b':'
          ∷ b' '
          ∷ int_text (func t.x t.y))

-- "任务制作完成: %d + %d =? ", without the newline behind it.
unfoldable pub made_text : Task → List ℕ
made_text t =
    0xE4
    ∷ 0xBB
    ∷ 0xBB
    ∷ 0xE5
    ∷ 0x8A
    ∷ 0xA1
    ∷ 0xE5
    ∷ 0x88
    ∷ 0xB6
    ∷ 0xE4
    ∷ 0xBD
    ∷ 0x9C
    ∷ 0xE5
    ∷ 0xAE
    ∷ 0x8C
    ∷ 0xE6
    ∷ 0x88
    ∷ 0x90
    ∷ b':'
    ∷ b' '
    ∷ (int_text t.x ++ b' ' ∷ b'+' ∷ b' ' ∷ (int_text t.y ++ b' ' ∷ b'=' ∷ b'?' ∷ b' ' ∷ []))

-- What is logged, and when: main has made a task; the thread with a number has a result.
pub data Line : Type 0 where
  made_line : Made → ℕ → Line
  result_line : ℕ → Made → ℕ → Line

abbrev pub normal : ℕ
normal = 1

-- The call of logMessage, but for the newline at the end of its text.
unfoldable pub message : Line → Message
message (made_line m now) = record { level = normal; time = now; text = made_text m.0 }
message (result_line num m now) = record {
  level = normal;
  time = now;
  text = result_text (thread_name num) m.0;
}

unfoldable pub messages : List Line → List Message
messages [] = []
messages (l ∷ ls) = message l ∷ messages ls

abbrev pub g_thread_num : ℕ
g_thread_num = 3

-- What happens next, and when: main, which is the thread behind the workers, makes a task and calls
-- pushTask; a thread acts inside the pool; it wakes from its wait for no reason.
pub data Turn : Type 0 where
  produce : (r r' now : ℕ) → Turn
  act : (i j now : ℕ) → Turn
  wake_up : (i : ℕ) → Turn

unfoldable pub action : Turn → Action Made
action (produce r r' now) = push_task g_thread_num (made r r')
action (act i j now) = run i j
action (wake_up i) = spurious i

abbrev pub is_idle : Option (Pc Made) → Bool
is_idle (some idle) = true
is_idle p = false

-- The lines of a thread's action: `operator()` of each task that it has run. The worker with index
-- `i` is the thread with number `i` + 1.
unfoldable pub results_of : ℕ → ℕ → List (TaskEvent Made) → List Line
results_of i now [] = []
results_of i now (pushed m ∷ es) = results_of i now es
results_of i now (taken m ∷ es) = results_of i now es
results_of i now (ran m ∷ es) = result_line (suc i) m now ∷ results_of i now es

unfoldable pub made_lines : Bool → Made → ℕ → List Line
made_lines true m now = made_line m now ∷ []
made_lines false m now = []

-- The lines of a turn, with what its action has done. Main logs before it calls pushTask, and makes
-- no task while it is inside the pool.
unfoldable pub lines_of : System Made → Turn → List (TaskEvent Made) → List Line
lines_of s (produce r r' now) es =
    made_lines (is_idle (get_elem? s.threads g_thread_num)) (made r r') now
lines_of s (act i j now) es = results_of i now es
lines_of s (wake_up i) es = []

-- The pool and the log.
pub record World : Type 0 where
  pub sys : System Made
  pub out : Outputs

unfoldable pub logged : System Made → Option Outputs → Option World
logged s none = none
logged s (some o) = some (record { sys = s; out = o })

-- The texts end with a newline. `opens` says whether `fopen` succeeds.
unfoldable pub turn : Bool → World → Turn → Option World
turn opens w t = elim (step w.sys (action t)) [
  | none ↦ none
  | some (s, es) ↦
      logged s (log_all (log_to_file opens) (ended (messages (lines_of w.sys t es))) w.out)
]

unfoldable pub program : Bool → World → List Turn → Option World
program opens w [] = some w
program opens w (t ∷ ts) = elim (turn opens w t) [ none ↦ none | some w' ↦ program opens w' ts ]

-- "%s 启动信息", which has no newline behind it.
unfoldable pub start_text : List ℕ → List ℕ
start_text name =
    name
    ++ b' ' ∷ 0xE5 ∷ 0x90 ∷ 0xAF ∷ 0xE5 ∷ 0x8A ∷ 0xA8 ∷ 0xE4 ∷ 0xBF ∷ 0xA1 ∷ 0xE6 ∷ 0x81 ∷ 0xAF ∷ []

-- What `run` logs of `n` threads from the number `num` on; `now` says when.
unfoldable pub run_messages : ℕ → ℕ → (ℕ → ℕ) → List Message
run_messages zero num now = []
run_messages (suc n) num now =
    record { level = normal; time = now num; text = start_text (thread_name num) }
    ∷ run_messages n (suc num) now

abbrev pub empty_log : Outputs
empty_log = record { file = []; stdout = [] }

-- A pool of `g_thread_num` workers, main, and the log after `run`: nobody else logs before main makes
-- its first task.
unfoldable pub begun : Bool → (ℕ → ℕ) → Option World
begun opens now =
    logged (start Made g_thread_num 1)
      (log_all (log_to_file opens) (run_messages g_thread_num 1 now) empty_log)
