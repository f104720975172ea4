-- ===== src/Tcp/Connections.antt =====
-- Which connections the server of 0215/tcp/tcp_server.hpp has served.
use os_net_work_code.Base.{
  ℕ, ◌+◌, ◌≡◌, refl, ap, ◌∙◌, subst, Option, some, List, [], ◌∷◌, ◌++◌, append-nil, length, map,
}
use os_net_work_code.Base.Threads.{weigh}
use os_net_work_code.ThreadPool.Defs.{TaskEvent, workers}
use os_net_work_code.ThreadPool.System.{start, exec}
use os_net_work_code.ThreadPool.Invariant.{takes, runs, carried, start-Inv}
use os_net_work_code.ThreadPool.Safety.{Reached, exec-Reached}
use os_net_work_code.ThreadPool.Places.{Placed, start-Placed}
use os_net_work_code.Tcp.Server.{Task, Peer, Accepted, from_client, PortsFit, accepted}
use os_net_work_code.Tcp.Service.{
  Read, bytes, eof, failed, Effect, service, log_shutdown, log_error, close, service_size, Fits,
  chunks, echoes, ending, service-echoes,
}
use os_net_work_code.Tcp.Pooled.{g_thread_num, Serving, Turn, serve, begun, serviced}
use os_net_work_code.Tcp.Follows.{in_hand, Follows, serve-Follows}

-- The client closes the connection in the end, or `read` fails.
abbrev pub Ends : List Read → Type 0
Ends [] = ⊥
Ends (bytes b bs ∷ rs) = Ends rs
Ends (eof ∷ rs) = Unit {0}
Ends (failed ∷ rs) = Unit {0}

-- What is logged then.
abbrev pub farewell : List Read → Effect
farewell [] = log_shutdown
farewell (bytes b bs ∷ rs) = farewell rs
farewell (eof ∷ rs) = log_shutdown
farewell (failed ∷ rs) = log_error

ending-farewell : (rs : List Read) → Ends rs → ending (close ∷ []) rs ≡ farewell rs ∷ close ∷ []
unfolding ending
ending-farewell [] h = elim h [ ]
ending-farewell (bytes b bs ∷ rs) h = ending-farewell rs h
ending-farewell (eof ∷ rs) h = refl
ending-farewell (failed ∷ rs) h = refl

-- A conversation that has come to its end: every chunk is answered, and the connection is closed.
abbrev pub conversation : List Read → List Effect
conversation script = echoes (chunks script) ++ farewell script ∷ close ∷ []

service-conversation :
    (stack : List ℕ) (script : List Read)
    → length stack ≡ service_size
    → Fits script
    → Ends script
    → service stack script ≡ some (conversation script)
service-conversation stack script room fits ends =
    service-echoes stack script room fits
    ∙ ap (λ l. some (echoes (chunks script) ++ l)) (ending-farewell script ends)

serviced-conversation :
    (stack : Task → List ℕ) (script : Task → List Read)
    → ((t : Task) → length (stack t) ≡ service_size)
    → ((t : Task) → Fits (script t))
    → ((t : Task) → Ends (script t))
    → (ts : List Task) → serviced stack script ts ≡ some (map (λ t. conversation (script t)) ts)
unfolding serviced
serviced-conversation stack script room fits ends [] = refl
serviced-conversation stack script room fits ends (t ∷ ts) =
    rw
      (
        serviced,
        service-conversation (stack t) (script t) (room t) (fits t) (ends t),
        serviced-conversation stack script room fits ends ts,
      )
      refl

begun-Placed : (rs : List Accepted) → Placed g_thread_num (begun rs).pool.threads
unfolding begun
begun-Placed rs = start-Placed g_thread_num

-- However the thread in `start`, the three workers and spurious wake-ups are interleaved, getTask is
-- never called on an empty queue, and no connection that `accept` returned is lost, doubled or
-- overtaken: the connections are, in their order, those that workers have taken, those in the
-- queue, the one that is being pushed, and those still to be returned by `accept`. Under every
-- weight of connections, those that were taken weigh as much as those in the workers' hands and
-- those whose service has ended. If every client closes its connection in the end or `read` fails
-- there, and the calls of `read` keep to the size that they are given, each service that has ended
-- never wrote past its buffer, answered the client chunk by chunk with what it sent, up to the
-- first 0 of a chunk, and closed the connection.
pub connections_served :
    (inet_ntoa : ℕ → List ℕ) (stack : Task → List ℕ) (script : Task → List Read)
    (cs : List (Option Peer)) (ts : List Turn)
    → ((t : Task) → length (stack t) ≡ service_size)
    → ((t : Task) → Fits (script t))
    → ((t : Task) → Ends (script t))
    → PortsFit cs
    → (w : Serving) × (es : List (TaskEvent Task)) × (left : List (Option Peer)) × (serve inet_ntoa
          (begun (map from_client cs))
          ts
        ≡ some (w, es))
      × (w.coming ≡ map from_client left)
      × (accepted inet_ntoa cs
          ≡ takes es ++ w.pool.pool.task_queue ++ (in_hand w ++ accepted inet_ntoa left))
      × ((v : Task → ℕ) → weigh v (takes es) ≡ weigh (carried v) w.pool.threads + weigh v (runs es))
      × (serviced stack script (runs es) ≡ some (map (λ t. conversation (script t)) (runs es)))
unfolding exec begun start workers
connections_served inet_ntoa stack script cs ts room fits ends fit = (
  f.after,
  f.trace,
  f.rest,
  f.returns,
  f.comes,
  f.kept ∙ ap (λ l. l ++ (in_hand f.after ++ accepted inet_ntoa f.rest)) reached.order,
  reached.conserves,
  serviced-conversation stack script room fits ends (runs f.trace),
)
  where
    w : Serving
    w = begun (map from_client cs)

    f : Follows inet_ntoa w cs (serve inet_ntoa w ts)
    f =
        serve-Follows inet_ntoa ts w cs refl fit (start-Inv {T = Task} g_thread_num 1)
          (begun-Placed (map from_client cs))

    steps : exec (start Task g_thread_num 1) (f.actions ++ []) ≡ some (f.after.pool, f.trace)
    steps =
        subst (λ l. exec w.pool (f.actions ++ []) ≡ some (f.after.pool, l)) (append-nil f.trace)
          (f.steps [] f.after.pool [] refl)

    reached : Reached f.after.pool f.trace
    reached = exec-Reached g_thread_num 1 (f.actions ++ []) steps
