-- ===== src/Tcp/Server.antt =====
-- `main` of 0215/tcp/tcp_server.cc, `initServer` and `start` of the class TcpServer
-- (0215/tcp/tcp_server.hpp), and the Task that carries a connection to the thread pool
-- (0215/tcp/threadPool/Task.hpp). The host is little-endian.
use os_net_work_code.Base.{
  ℕ, ◌+◌, ◌*◌, ◌/◌, ◌%◌, ◌^◌, ◌<◌, ◌≡◌, refl, ap, Bool, true, Option, none, some, List, [], ◌∷◌,
  if◌then◌else◌, ◌==◌, map, arith,
}

-- The conversion to uint16_t.
abbrev pub uint16 : ℕ → ℕ
uint16 n = n % 2 ^ 16

-- The two bytes of a port swapped, to network order and back.
unfoldable pub htons : ℕ → ℕ
htons p = (p % 256) * 256 + p / 256

unfoldable pub ntohs : ℕ → ℕ
ntohs p = (p % 256) * 256 + p / 256

pub ntohs-htons : (p : ℕ) → p < 2 ^ 16 → ntohs (htons p) ≡ p
unfolding ntohs htons
ntohs-htons p h = omega arith

-- The fields of a `sockaddr_in` that the program sets and reads; an address is a number.
pub record SockAddr : Type 0 where
  pub sin_port : ℕ
  pub s_addr : ℕ

-- A task holds what `service` is called with; the address is a text.
pub record Task : Type 0 where
  pub sock : ℕ
  pub ip : List ℕ
  pub port : ℕ

-- What the system calls of `initServer` return: a descriptor or -1, and whether they succeed.
pub record Sockets : Type 0 where
  pub socket : Option ℕ
  pub bind : SockAddr → Bool
  pub listen : Bool

-- What `accept` returns.
pub data Accepted : Type 0 where
  refused : Accepted
  connected : ℕ → SockAddr → Accepted

-- The calls of the thread pool.
pub data PoolCall : Type 0 where
  run_pool : PoolCall
  push_task : Task → PoolCall

pub data Result : Type 0 where
  exited : ℕ → Result
  serving : List PoolCall → Result

-- `initServer`, with INADDR_ANY, which is 0, for an empty address: the listening socket, or the
-- status of `exit`.
pub data Init : Type 0 where
  ready : ℕ → Init
  exit : ℕ → Init

unfoldable pub local_address : ℕ → Option ℕ → SockAddr
local_address port none = record { sin_port = htons port; s_addr = 0 }
local_address port (some addr) = record { sin_port = htons port; s_addr = addr }

unfoldable pub init_server : Sockets → ℕ → Option ℕ → Init
init_server sys port ip = elim sys.socket [
  | none ↦ exit 2
  | some listen_sock ↦
      if sys.bind (local_address port ip)
      then (if sys.listen then ready listen_sock else exit 4)
      else exit 3
]

-- `inet_ntoa` gives the text of an address.
module _ (inet_ntoa : ℕ → List ℕ) where
  -- The loop of `start`: a failed `accept` is logged and the loop goes on; any other connection
  -- becomes a task that is pushed to the thread pool.
  unfoldable pub accept_loop : List Accepted → List PoolCall
  accept_loop [] = []
  accept_loop (refused ∷ rs) = accept_loop rs
  accept_loop (connected service_sock src ∷ rs) =
      push_task
        (record { sock = service_sock; ip = inet_ntoa src.s_addr; port = ntohs src.sin_port })
      ∷ accept_loop rs

  -- `start`, which first starts the threads of the pool.
  unfoldable pub start : List Accepted → List PoolCall
  start rs = run_pool ∷ accept_loop rs

  -- `main`, given the number of arguments and the value of `atoi(argv[1])`.
  unfoldable pub main : ℕ → ℕ → Sockets → List Accepted → Result
  main argc arg sys accepts =
      if argc == 2
      then elim (init_server sys (uint16 arg) none) [
        | exit status ↦ exited status
        | ready listen_sock ↦ serving (start accepts)
      ]
      else exited 1

-- A connection as the client sees it, and the server's socket for it.
pub record Peer : Type 0 where
  pub sock : ℕ
  pub addr : ℕ
  pub port : ℕ

-- Its port is sent in network order.
abbrev pub from_client : Option Peer → Accepted
from_client none = refused
from_client (some p) = connected p.sock (record { sin_port = htons p.port; s_addr = p.addr })

abbrev pub PortsFit : List (Option Peer) → Type 0
PortsFit [] = Unit {0}
PortsFit (none ∷ cs) = PortsFit cs
PortsFit (some t ∷ cs) = (t.port < 2 ^ 16) × PortsFit cs

module _ (inet_ntoa : ℕ → List ℕ) where
  -- The task that serves a connection.
  abbrev pub task_of : Peer → Task
  task_of p = record { sock = p.sock; ip = inet_ntoa p.addr; port = p.port }

  abbrev pub accepted : List (Option Peer) → List Task
  accepted [] = []
  accepted (none ∷ cs) = accepted cs
  accepted (some p ∷ cs) = task_of p ∷ accepted cs

  accept_loop-from_client :
      (cs : List (Option Peer))
      → PortsFit cs
      → accept_loop inet_ntoa (map from_client cs) ≡ map push_task (accepted cs)
  unfolding accept_loop
  accept_loop-from_client [] h = refl
  accept_loop-from_client (none ∷ cs) h = accept_loop-from_client cs h
  accept_loop-from_client (some p ∷ cs) h = λ i.
      push_task (record (task_of p) { port = ntohs-htons p.port h.0 i })
      ∷ accept_loop-from_client cs h.1 i

  -- A server started with one argument whose sockets can be made, bound to the given port and
  -- listened on starts the thread pool and never stops at a failed `accept`: it pushes exactly one
  -- task for each connection, in order, with the client's socket, the text
  -- that `inet_ntoa` gives for its address, and its port in host order.
  pub server_serves :
      (arg fd : ℕ) (sys : Sockets) (cs : List (Option Peer))
      → sys.socket ≡ some fd
      → sys.bind (record { sin_port = htons (uint16 arg); s_addr = 0 }) ≡ true
      → sys.listen ≡ true
      → PortsFit cs
      → main inet_ntoa 2 arg sys (map from_client cs)
        ≡ serving (run_pool ∷ map push_task (accepted cs))
  unfolding main init_server local_address start
  server_serves arg fd sys cs s b l h =
      rw (s, b, l) (ap (λ cs. serving (run_pool ∷ cs)) (accept_loop-from_client cs h))
