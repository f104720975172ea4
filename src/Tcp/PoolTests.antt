-- ===== src/Tcp/PoolTests.antt =====
-- A run of the server of 0215/tcp/tcp_server.hpp with its thread pool.
use os_net_work_code.Base.{
  ℕ, ◌+◌, ◌≡◌, refl, Option, none, some, List, [], ◌∷◌, ◌++◌, replicate, length-replicate, map,
  arith,
}
use os_net_work_code.Base.Threads.{weigh}
use os_net_work_code.ThreadPool.Defs.{TaskEvent, init, workers, move}
use os_net_work_code.ThreadPool.System.{start, step, call}
use os_net_work_code.Sync.{lock, unlock}
use os_net_work_code.Sync.Cond.{signal_target}
use os_net_work_code.ThreadPool.Invariant.{takes, runs, carried}
use os_net_work_code.Tcp.Server.{Task, Peer, task_of, from_client, accepted, htons, ntohs}
use os_net_work_code.Tcp.Service.{Read, bytes, eof}
use os_net_work_code.Tcp.Pooled.{
  Serving, Turn, accept_next, act, turn, accept_round, accept_when, inside, serve, begun, serviced,
}
use os_net_work_code.Tcp.Follows.{in_hand}
use os_net_work_code.Tcp.Connections.{conversation, connections_served}

-- A text for each address.
abbrev text_of : ℕ → List ℕ
text_of a = a ∷ []

abbrev first : Peer
first = record { sock = 4; addr = 16777343; port = 40000 }

abbrev second : Peer
second = record { sock = 5; addr = 16777343; port = 40001 }

abbrev clients : List (Option Peer)
clients = some first ∷ none ∷ some second ∷ []

-- The first connection is pushed and served by the first worker, the second is in hand.
abbrev turns : List Turn
turns =
    accept_next
    ∷ act 3 0
    ∷ act 3 0
    ∷ act 3 0
    ∷ act 3 0
    ∷ accept_next
    ∷ accept_next
    ∷ act 0 0
    ∷ act 0 0
    ∷ act 0 0
    ∷ act 0 0
    ∷ act 0 0
    ∷ act 0 0
    ∷ []

abbrev served : Option (Serving × List (TaskEvent Task)) → List Task
served none = []
served (some (w, es)) = runs es

first_served :
    served (serve text_of (begun (map from_client clients)) turns) ≡ task_of text_of first ∷ []
unfolding serve turn accept_when accept_round inside begun start init workers step call move runs
    signal_target htons ntohs lock unlock
first_served = refl

-- The client sends "hi" and closes.
abbrev script : Task → List Read
script t = bytes 104 (105 ∷ []) ∷ eof ∷ []

abbrev stack : Task → List ℕ
stack t = replicate 1024 t.sock

connections_served_example :
    (w : Serving) × (es : List (TaskEvent Task)) × (left : List (Option Peer)) × (serve text_of
        (begun (map from_client clients))
        turns
      ≡ some (w, es))
    × (w.coming ≡ map from_client left)
    × (accepted text_of clients
        ≡ takes es ++ w.pool.pool.task_queue ++ (in_hand w ++ accepted text_of left))
    × ((v : Task → ℕ) → weigh v (takes es) ≡ weigh (carried v) w.pool.threads + weigh v (runs es))
    × (serviced stack script (runs es) ≡ some (map (λ t. conversation (script t)) (runs es)))
connections_served_example =
    connections_served text_of stack script clients turns
      (λ t. length-replicate {A = ℕ} 1024 t.sock) (λ t. (omega arith, tt)) (λ t. tt)
      (omega arith, (omega arith, tt))
