-- ===== src/Tcp/Tests.antt =====
-- Small runs of the echo service and its client, and the theorems there.
use os_net_work_code.Base.{
  false, ℕ, ◌/◌, ◌%◌, ◌^◌, suc, max, ◌≤◌, inr, ◌≡◌, refl, true, none, some, List, [], ◌∷◌, ◌++◌,
  replicate, length-replicate, map, arith,
}
use os_net_work_code.Tcp.Service.{
  Read, close, bytes, eof, Effect, service, chunks, ending, echoes, service-echoes,
}
use os_net_work_code.Tcp.Server.{
  run_pool, push_task, Peer, task_of, Sockets, main, serving, from_client, server_serves,
}
use os_net_work_code.Tcp.Client.{answers, arrives, converse, echoed, echo_conversation}
use os_net_work_code.Tcp.Fork.{
  Arrival, arrived, refused, Absent, family, forks_serve, main as fork_main,
}

-- "hi", and a chunk that holds a 0.
abbrev hi : List ℕ
hi = 104 ∷ 105 ∷ []

abbrev script : List Read
script = bytes 104 (105 ∷ []) ∷ bytes 97 (0 ∷ 98 ∷ []) ∷ eof ∷ []

service-echoes_example :
    service (replicate 1024 7) script ≡ some (echoes (chunks script) ++ ending (close ∷ []) script)
service-echoes_example =
    service-echoes (replicate 1024 7) script (length-replicate {A = ℕ} 1024 7)
      (omega arith, (omega arith, tt))

abbrev sockets : Sockets
sockets = record { socket = some 3; bind = λ a. true; listen = true }

-- A text for each address: its four numbers without the points.
abbrev text_of : ℕ → List ℕ
text_of a = a % 256 ∷ a / 256 % 256 ∷ a / 256 ^ 2 % 256 ∷ a / 256 ^ 3 ∷ []

abbrev client : Peer
client = record { sock = 4; addr = 16777343; port = 40000 }

server_serves_example :
    main text_of 2 8080 sockets (map from_client (some client ∷ none ∷ []))
    ≡ serving (run_pool ∷ push_task (task_of text_of client) ∷ [])
server_serves_example =
    server_serves text_of 8080 3 sockets (some client ∷ none ∷ []) refl refl refl (omega arith, tt)

echo_conversation_example :
    (effects : List Effect) × (service (replicate 1024 7) (arrives (hi ∷ []) ++ eof ∷ [])
      ≡ some effects)
    × (answers effects ≡ hi ∷ [])
    × (converse (replicate 1024 9) (hi ∷ []) (arrives (answers effects)) ≡ some (echoed (hi ∷ [])))
echo_conversation_example =
    echo_conversation (replicate 1024 7) (replicate 1024 9) (hi ∷ [])
      (length-replicate {A = ℕ} 1024 7) (length-replicate {A = ℕ} 1024 9)
      (omega arith, omega arith, (omega arith, (omega arith, tt)), tt)

-- A kernel that takes the descriptor above all open ones.
abbrev above : List ℕ → ℕ
above [] = 3
above (f ∷ fs) = max (suc f) (above fs)

above-Absent : (k : ℕ) (fds : List ℕ) → above fds ≤ k → Absent k fds
above-Absent k [] h = tt
above-Absent k (f ∷ fs) h = (ground (arith, h), above-Absent k fs (omega (arith, h)))

abbrev arrivals : List Arrival
arrivals =
    arrived (record { sin_port = 16415; s_addr = 9 }) true script
    ∷ refused
    ∷ arrived (record { sin_port = 16415; s_addr = 8 }) false []
    ∷ arrived (record { sin_port = 16671; s_addr = 8 }) true (eof ∷ [])
    ∷ []

forks_serve_example :
    fork_main text_of above (replicate 1024 7) 2 8080 sockets (0 ∷ 1 ∷ 2 ∷ []) arrivals
    ≡ inr (record {
      parent = 3 ∷ 0 ∷ 1 ∷ 2 ∷ [];
      children = family text_of above 3 (0 ∷ 1 ∷ 2 ∷ []) arrivals;
    })
forks_serve_example =
    forks_serve text_of above (λ fds. above-Absent (above fds) fds (omega arith)) (replicate 1024 7)
      (length-replicate {A = ℕ} 1024 7) 8080 3 sockets (0 ∷ 1 ∷ 2 ∷ []) arrivals refl
      (refl, (refl, (refl, tt))) refl refl ((omega arith, (omega arith, tt)), (tt, (tt, tt)))
