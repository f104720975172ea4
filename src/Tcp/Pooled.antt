-- ===== src/Tcp/Pooled.antt =====
-- `start` of the class TcpServer and `service` in the workers of its thread pool, together
-- (0215/tcp/tcp_server.hpp, 0215/tcp/threadPool/Task.hpp and threadPool.hpp).
use os_net_work_code.Base.{ℕ, Bool, true, false, Option, none, some, List, [], ◌∷◌, ◌++◌, get_elem?}
use os_net_work_code.ThreadPool.Defs.{Pc, idle, push_lock, TaskEvent}
use os_net_work_code.ThreadPool.System.{System, start, call, run, spurious, step}
use os_net_work_code.Tcp.Server.{Task, Accepted, refused, connected, ntohs}
use os_net_work_code.Tcp.Service.{Read, Effect, service}

abbrev pub g_thread_num : ℕ
g_thread_num = 3

-- The pool, whose last thread is the one that is in `start`, and what `accept` has yet to return.
pub record Serving : Type 0 where
  pub pool : System Task
  pub coming : List Accepted

-- What happens next: the thread in `start` calls `accept`; a thread acts inside the pool; it wakes
-- from its wait for no reason.
pub data Turn : Type 0 where
  accept_next : Turn
  act : (i j : ℕ) → Turn
  wake_up : (i : ℕ) → Turn

abbrev pub is_idle : Option (Pc Task) → Bool
is_idle (some idle) = true
is_idle p = false

unfoldable pub inside :
    List Accepted
    → Option (System Task × List (TaskEvent Task))
    → Option (Serving × List (TaskEvent Task))
inside rs none = none
inside rs (some (s, es)) = some (record { pool = s; coming = rs }, es)

-- `inet_ntoa` gives the text of an address.
module _ (inet_ntoa : ℕ → List ℕ) where
  -- A round of the loop of `start`, up to the call of pushTask.
  unfoldable pub accept_round : System Task → List Accepted → Serving
  accept_round s [] = record { pool = s; coming = [] }
  accept_round s (refused ∷ rs) = record { pool = s; coming = rs }
  accept_round s (connected service_sock src ∷ rs) = record {
    pool = call s g_thread_num (
        push_lock
          (record { sock = service_sock; ip = inet_ntoa src.s_addr; port = ntohs src.sin_port }));
    coming = rs;
  }

  -- `accept` is not called while the thread is inside pushTask.
  unfoldable pub accept_when : Bool → Serving → Serving
  accept_when true w = accept_round w.pool w.coming
  accept_when false w = w

  unfoldable pub turn : Serving → Turn → Option (Serving × List (TaskEvent Task))
  turn w accept_next = some (accept_when (is_idle (get_elem? w.pool.threads g_thread_num)) w, [])
  turn w (act i j) = inside w.coming (step w.pool (run i j))
  turn w (wake_up i) = inside w.coming (step w.pool (spurious i))

  unfoldable pub serve : Serving → List Turn → Option (Serving × List (TaskEvent Task))
  serve w [] = some (w, [])
  serve w (t ∷ ts) = elim (turn w t) [
    | none ↦ none
    | some (u, es) ↦ elim (serve u ts) [ none ↦ none | some (v, fs) ↦ some (v, es ++ fs) ]
  ]

unfoldable pub begun : List Accepted → Serving
begun rs = record { pool = start Task g_thread_num 1; coming = rs }

-- `operator()` of each task that was run, which has then returned: `service` on its socket, with
-- what `read` returns there, to the end of the connection. The log lines of `start` are left out.
-- `stack` is what its buffer held before.
unfoldable pub serviced :
    (Task → List ℕ) → (Task → List Read) → List Task → Option (List (List Effect))
serviced stack script [] = some []
serviced stack script (t ∷ ts) = elim (service (stack t) (script t)) [
  | none ↦ none
  | some effects ↦ elim (serviced stack script ts) [
    | none ↦ none
    | some rest ↦ some (effects ∷ rest)
  ]
]
