-- ===== src/Tcp/Follows.antt =====
-- Turns of the server of 0215/tcp/tcp_server.hpp: what becomes of the connections.
use os_net_work_code.Base.{
  ℕ, ◌≡◌, refl, sym, ap, ◌∙◌, subst, false, Option, none, some, List, [], ◌∷◌, ◌++◌, append_assoc,
  get_elem?, map, inl, inr, ◌⊎◌,
}
use os_net_work_code.ThreadPool.Defs.{Pc, idle, push_lock, TaskEvent}
use os_net_work_code.ThreadPool.System.{
  System, Action, push_task, run, spurious, call, wake, step_run, step, exec,
}
use os_net_work_code.ThreadPool.Invariant.{pushes, pushes-append, Inv}
use os_net_work_code.ThreadPool.Entry.{Good-Inv}
use os_net_work_code.ThreadPool.Safety.{step-Good}
use os_net_work_code.ThreadPool.Places.{
  Placed, hand_of, call-Placed, call-hand, wake-Placed, wake-hand,
}
use os_net_work_code.ThreadPool.Carries.{Carries, step_run-Carries}
use os_net_work_code.Tcp.Server.{Task, Peer, ntohs-htons, from_client, PortsFit, task_of, accepted}
use os_net_work_code.Tcp.Pooled.{
  g_thread_num, Serving, Turn, accept_next, act, wake_up, is_idle, accept_round, accept_when,
  inside, turn, serve,
}

-- The task of the thread in `start` that is not in the queue yet.
abbrev pub in_hand : Serving → List Task
in_hand w = hand_of (get_elem? w.pool.threads g_thread_num)

-- What thread `g_thread_num` does next.
is_idle-cases : (p : Option (Pc Task)) → (p ≡ some idle) ⊎ (is_idle p ≡ false)
is_idle-cases none = inr refl
is_idle-cases (some idle) = inl refl
is_idle-cases (some p) = inr refl

module _ (inet_ntoa : ℕ → List ℕ) where
  -- What some turns come to: the pool makes actions of its own, and no connection is lost on the way
  -- to the queue.
  pub record Follows (w : Serving) (left : List (Option Peer))
      (r : Option (Serving × List (TaskEvent Task))) : Type 0 where
    pub after : Serving
    pub trace : List (TaskEvent Task)
    pub rest : List (Option Peer)
    pub actions : List (Action Task)
    pub returns : r ≡ some (after, trace)
    pub steps :
        (bs : List (Action Task)) (t : System Task) (fs : List (TaskEvent Task))
        → exec after.pool bs ≡ some (t, fs)
        → exec w.pool (actions ++ bs) ≡ some (t, trace ++ fs)
    pub comes : after.coming ≡ map from_client rest
    pub fit : PortsFit rest
    pub kept :
        in_hand w ++ accepted inet_ntoa left
        ≡ pushes trace ++ (in_hand after ++ accepted inet_ntoa rest)
    pub inv : Inv 0 after.pool.pool after.pool.threads
    pub placed : Placed g_thread_num after.pool.threads

  module _ (w : Serving) (left : List (Option Peer)) where
    -- Nothing happens.
    stay :
        (u : Serving) (rest : List (Option Peer))
        → u.pool ≡ w.pool
        → u.coming ≡ map from_client rest
        → PortsFit rest
        → accepted inet_ntoa left ≡ accepted inet_ntoa rest
        → Inv 0 w.pool.pool w.pool.threads
        → Placed g_thread_num w.pool.threads
        → Follows w left (some (u, []))
    unfolding exec pushes
    stay u rest same comes fit acc inv placed = record {
      after = u;
      trace = [];
      rest = rest;
      actions = [];
      returns = refl;
      steps = λ bs t fs h. subst (λ v. exec v bs ≡ some (t, fs)) same h;
      comes = comes;
      fit = fit;
      kept = rw (same, acc) refl;
      inv = rw same inv;
      placed = rw same placed;
    }

    -- One action of the pool.
    acted :
        (a : Action Task) (s : System Task) (es : List (TaskEvent Task)) (rest : List (Option Peer))
        → step w.pool a ≡ some (s, es)
        → w.coming ≡ map from_client rest
        → PortsFit rest
        → in_hand w ++ accepted inet_ntoa left
          ≡ pushes es ++ (hand_of (get_elem? s.threads g_thread_num) ++ accepted inet_ntoa rest)
        → Inv 0 s.pool s.threads
        → Placed g_thread_num s.threads
        → Follows w left (inside w.coming (step w.pool a))
    unfolding inside exec
    acted a s es rest e comes fit kept inv placed = record {
      after = record { pool = s; coming = w.coming };
      trace = es;
      rest = rest;
      actions = a ∷ [];
      returns = rw (e, inside) refl;
      steps = λ bs t fs h. rw (exec, e, h) refl;
      comes = comes;
      fit = fit;
      kept = kept;
      inv = inv;
      placed = placed;
    }

  -- The thread in `start` has a connection, and calls pushTask.
  connected-Follows :
      (w : Serving) (left : List (Option Peer)) (p : Peer)
      → PortsFit left
      → Inv 0 w.pool.pool w.pool.threads
      → Placed g_thread_num w.pool.threads
      → get_elem? w.pool.threads g_thread_num ≡ some idle
      → Follows w (some p ∷ left) (
          some (
            record {
              pool = call w.pool g_thread_num (push_lock (task_of inet_ntoa p));
              coming = map from_client left;
            },
            [],
          ))
  unfolding exec step pushes
  connected-Follows w left p fit inv placed free =
      let called = call-hand g_thread_num w.pool (task_of inet_ntoa p) free in
      record {
        after = record {
          pool = call w.pool g_thread_num (push_lock (task_of inet_ntoa p));
          coming = map from_client left;
        };
        trace = [];
        rest = left;
        actions = push_task g_thread_num (task_of inet_ntoa p) ∷ [];
        returns = refl;
        steps = λ bs u fs h. rw (exec, h) refl;
        comes = refl;
        fit = fit;
        kept =
            ap (λ c. hand_of c ++ task_of inet_ntoa p ∷ accepted inet_ntoa left) free
            ∙ sym (ap (λ l. l ++ accepted inet_ntoa left) called);
        inv = Good-Inv (step-Good (push_task g_thread_num (task_of inet_ntoa p)) inv) refl;
        placed = call-Placed g_thread_num w.pool g_thread_num (task_of inet_ntoa p) placed;
      }

  accept_round-Follows :
      (w : Serving) (left : List (Option Peer))
      → PortsFit left
      → Inv 0 w.pool.pool w.pool.threads
      → Placed g_thread_num w.pool.threads
      → get_elem? w.pool.threads g_thread_num ≡ some idle
      → Follows w left (some (accept_round inet_ntoa w.pool (map from_client left), []))
  unfolding accept_round
  accept_round-Follows w [] fit inv placed free =
      stay w [] (record { pool = w.pool; coming = [] }) [] refl refl fit refl inv placed
  accept_round-Follows w (none ∷ left) fit inv placed free =
      stay w (none ∷ left) (record { pool = w.pool; coming = map from_client left }) left refl refl
        fit refl inv placed
  accept_round-Follows w (some p ∷ left) fit inv placed free =
      subst
        (λ n. Follows w (some p ∷ left) (
          some (
            record {
              pool =
                  call w.pool g_thread_num (push_lock (record (task_of inet_ntoa p) { port = n }));
              coming = map from_client left;
            },
            [],
          )))
        (sym (ntohs-htons p.port fit.0)) (connected-Follows w left p fit.1 inv placed free)

  turn-Follows :
      (w : Serving) (left : List (Option Peer)) (t : Turn)
      → w.coming ≡ map from_client left
      → PortsFit left
      → Inv 0 w.pool.pool w.pool.threads
      → Placed g_thread_num w.pool.threads
      → Follows w left (turn inet_ntoa w t)
  unfolding turn step pushes
  turn-Follows w left accept_next c fit inv placed =
      elim (is_idle-cases (get_elem? w.pool.threads g_thread_num)) [
        | inl free ↦ rw free (
            unfold accept_when in
            subst (λ rs. Follows w left (some (accept_round inet_ntoa w.pool rs, []))) (sym c)
              (accept_round-Follows w left fit inv placed free))
        | inr busy ↦ rw busy (unfold accept_when in stay w left w left refl c fit refl inv placed)
      ]
  turn-Follows w left (act i j) c fit inv placed =
      let g = step-Good (run i j) inv in
      let e : step_run w.pool i j ≡ some (g.after, g.trace) = g.returns in
      let moved : Carries g_thread_num w.pool (some (g.after, g.trace)) =
        subst (Carries g_thread_num w.pool) e (step_run-Carries g_thread_num w.pool i j placed) in
      acted w left (run i j) g.after g.trace left e c fit
        (ap (λ l. l ++ accepted inet_ntoa left) moved.1
          ∙ append_assoc (pushes g.trace) (hand_of (get_elem? g.after.threads g_thread_num))
              (accepted inet_ntoa left))
        g.inv moved.0
  turn-Follows w left (wake_up i) c fit inv placed =
      acted w left (spurious i) (record w.pool { threads = wake w.pool.threads i }) [] left refl c
        fit (ap (λ l. l ++ accepted inet_ntoa left) (sym (wake-hand w.pool.threads i g_thread_num)))
        (Good-Inv (step-Good (spurious i) inv) refl)
        (wake-Placed g_thread_num w.pool.threads i placed)

  pub serve-Follows :
      (ts : List Turn) (w : Serving) (left : List (Option Peer))
      → w.coming ≡ map from_client left
      → PortsFit left
      → Inv 0 w.pool.pool w.pool.threads
      → Placed g_thread_num w.pool.threads
      → Follows w left (serve inet_ntoa w ts)
  unfolding serve exec pushes
  serve-Follows [] w left c fit inv placed = stay w left w left refl c fit refl inv placed
  serve-Follows (t ∷ ts) w left c fit inv placed =
      let f = turn-Follows w left t c fit inv placed in
      let g = serve-Follows ts f.after f.rest f.comes f.fit f.inv f.placed in
      record {
        after = g.after;
        trace = f.trace ++ g.trace;
        rest = g.rest;
        actions = f.actions ++ g.actions;
        returns = rw (serve, f.returns, g.returns) refl;
        steps = λ bs u fs h.
            rw (append_assoc f.actions g.actions bs, append_assoc f.trace g.trace fs)
              (f.steps (g.actions ++ bs) u (g.trace ++ fs) (g.steps bs u fs h));
        comes = g.comes;
        fit = g.fit;
        kept =
            f.kept
            ∙ ap (λ l. pushes f.trace ++ l) g.kept
            ∙ sym (
                append_assoc (pushes f.trace) (pushes g.trace)
                  (in_hand g.after ++ accepted inet_ntoa g.rest))
            ∙ ap (λ l. l ++ (in_hand g.after ++ accepted inet_ntoa g.rest))
                (sym (pushes-append f.trace g.trace));
        inv = g.inv;
        placed = g.placed;
      }
