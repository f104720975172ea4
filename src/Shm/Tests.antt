-- ===== src/Shm/Tests.antt =====
-- A run of server and client on their segment, and the theorem there.
use os_net_work_code.Base.{
  replicate, length, ◌≤◌, ◌≢◌, ◌++◌, refl, ℕ, ◌≡◌, true, List, [], ◌∷◌, some, arith,
}
use os_net_work_code.Buffer.{c_string}
use os_net_work_code.Udp.Server.{same_string}
use os_net_work_code.Shm.Segment.{
  quit, printing, comparing, stopped, reading, left, System, start, Action, type, cut, look, Event,
  printed, exec, latest,
}
use os_net_work_code.Shm.Protocol.{shm_protocol}
use os_net_work_code.Shm.Handshake.{
  Who, the_server, the_client, aborted, killed, is_quit, serve, signal, typed, wait, work,
  start as start_both, exec as exec_both, step as step_both,
}
use os_net_work_code.Shm.Setup.{
  Calls, session, both_running, server_setup, client_setup, attach_server, attach_client,
  at_address, not_null, open_fifo, positive_fd,
}
use os_net_work_code.Shm.Prints.{fifo_wakes}

-- "hi" and a newline is typed and seen, and then "quit".
abbrev talk : List Action
talk = look ∷ type (104 ∷ 105 ∷ []) 10 ∷ cut ∷ look ∷ type quit 10 ∷ cut ∷ []

shm_protocol_example :
    (t : System) × (es : List Event) × (exec (start 4096) talk ≡ some (t, es))
    × (t.client ≡ reading → c_string t.shm ≡ c_string (latest [] es))
    × (t.client ≡ left
        → (c_string t.shm ≡ c_string (latest [] es))
          × (t.server ≡ printing
              → exec t (look ∷ look ∷ [])
                ≡ some (record t { server = stopped }, printed (c_string (latest [] es)) ∷ []))
          × (t.server ≡ comparing → exec t (look ∷ []) ≡ some (record t { server = stopped }, [])))
shm_protocol_example = shm_protocol 4096 talk (omega arith, (omega arith, tt))

-- "a" and "quit" are typed; the server has a wake-up left from "a" when it already sees "quit".
abbrev hasty : List Who
hasty = replicate 6 the_client ++ replicate 4 the_server ++ the_client ∷ []

abbrev lines : List (List ℕ)
lines = (97 ∷ 10 ∷ []) ∷ (quit ++ 10 ∷ []) ∷ []

-- All calls succeed.
abbrev calls : Calls
calls = record {
  mkfifo = true;
  ftok = some 7;
  shmget = some 1;
  shmat = some 4096;
  open_fd = some 3;
}

both_start : session calls calls lines ≡ some (start_both lines)
unfolding session both_running server_setup client_setup attach_server attach_client at_address
    not_null open_fifo positive_fd
both_start = refl

fifo_wakes_example :
    (length (exec_both (start_both lines) hasty).1 ≤ 2)
    × ((exec_both (start_both lines) hasty).0.server ≢ aborted)
fifo_wakes_example = fifo_wakes calls calls lines (start_both lines) hasty both_start

client_killed : (exec_both (start_both lines) hasty).0.client ≡ killed
unfolding exec_both step_both start_both serve signal typed wait work is_quit c_string same_string
client_killed = refl
