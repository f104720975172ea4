-- ===== src/PoolProgram/Follows.antt =====
-- Turns of the program of 0211/testMain.cc: the pool and the log go together.
use os_net_work_code.Base.{
  ℕ, ◌≡◌, refl, sym, ap, ap₂, ◌∙◌, subst, true, Option, some, List, [], ◌∷◌, ◌++◌, append_assoc,
  append-nil, get_elem?, map,
}
use os_net_work_code.Log.Defs.{Outputs}
use os_net_work_code.Log.All.{text_of, log_all-file, text_of-append}
use os_net_work_code.ThreadPool.Defs.{push_lock, TaskEvent}
use os_net_work_code.ThreadPool.System.{
  System, push_task, run, spurious, call, wake, step_run, step, exec,
}
use os_net_work_code.ThreadPool.Invariant.{runs, runs-append, Inv}
use os_net_work_code.ThreadPool.Entry.{Good-Inv}
use os_net_work_code.ThreadPool.Safety.{step-Good}
use os_net_work_code.PoolProgram.Defs.{
  Made, made, Line, messages, g_thread_num, Turn, produce, act, wake_up, action, is_idle, lines_of,
  World, logged, turn, program,
}
use os_net_work_code.PoolProgram.Clients.{Clients, Kept, wake-Clients, step_run-Kept, call-Clients}
use os_net_work_code.PoolProgram.Texts.{AllTimed, messages-AllPlain}
use os_net_work_code.PoolProgram.Lines.{
  results, AllByWorkers, IsTimed, AllTurnsTimed, results-append, messages-append,
  AllByWorkers-append, AllTimed-append, results-results_of, results_of-AllTimed,
  results_of-AllByWorkers, made_lines-results, made_lines-AllByWorkers, made_lines-AllTimed,
}

-- What some turns come to: they are defined, the pool makes the actions `r`, and the log grows by
-- lines that tell what was run.
pub record Follows (w : World) (r : Option (System Made × List (TaskEvent Made))) (o : Option World)
    : Type 0 where
  pub after : World
  pub trace : List (TaskEvent Made)
  pub ls : List Line
  pub returns : o ≡ some after
  pub steps : r ≡ some (after.sys, trace)
  pub log : after.out ≡ record w.out { file = w.out.file ++ text_of (messages ls) }
  pub reported : results ls ≡ runs trace
  pub by_workers : AllByWorkers ls
  pub timed : AllTimed ls
  pub inv : Inv 0 after.sys.pool after.sys.threads
  pub clients : Clients g_thread_num after.sys.threads

-- One turn, from what is known of its action and of its lines.
turn_lem :
    (w : World) (t : Turn) (s : System Made) (es : List (TaskEvent Made))
    → step w.sys (action t) ≡ some (s, es)
    → results (lines_of w.sys t es) ≡ runs es
    → AllByWorkers (lines_of w.sys t es)
    → AllTimed (lines_of w.sys t es)
    → Inv 0 s.pool s.threads
    → Clients g_thread_num s.threads
    → Follows w (step w.sys (action t)) (turn true w t)
unfolding turn logged
turn_lem w t s es e same by timed inv clients = record {
  after = record {
    sys = s;
    out = record w.out { file = w.out.file ++ text_of (messages (lines_of w.sys t es)) };
  };
  trace = es;
  ls = lines_of w.sys t es;
  returns =
      rw
        (
          turn,
          e,
          log_all-file (messages (lines_of w.sys t es)) w.out
              (messages-AllPlain (lines_of w.sys t es) timed),
        )
        refl;
  steps = e;
  log = refl;
  reported = same;
  by_workers = by;
  timed = timed;
  inv = inv;
  clients = clients;
}

turn-Follows :
    (w : World) (t : Turn)
    → Inv 0 w.sys.pool w.sys.threads
    → Clients g_thread_num w.sys.threads
    → IsTimed t
    → Follows w (step w.sys (action t)) (turn true w t)
unfolding action step lines_of runs results
turn-Follows w (produce r r' now) inv clients h =
    let m = made r r' in
    let b = is_idle (get_elem? w.sys.threads g_thread_num) in
    turn_lem w (produce r r' now) (call w.sys g_thread_num (push_lock m)) [] refl
      (made_lines-results b m now) (made_lines-AllByWorkers b m now) (made_lines-AllTimed b m now h)
      (Good-Inv (step-Good (push_task g_thread_num m) inv) refl)
      (call-Clients g_thread_num w.sys g_thread_num m clients)
turn-Follows w (act i j now) inv clients h =
    let g = step-Good (run i j) inv in
    let e : step_run w.sys i j ≡ some (g.after, g.trace) = g.returns in
    let kept : Kept g_thread_num i (some (g.after, g.trace)) =
      subst (Kept g_thread_num i) e (step_run-Kept g_thread_num w.sys i j clients) in
    turn_lem w (act i j now) g.after g.trace e (results-results_of i now g.trace)
      (results_of-AllByWorkers i now g.trace kept.1) (results_of-AllTimed i now g.trace h) g.inv
      kept.0
turn-Follows w (wake_up i) inv clients h =
    turn_lem w (wake_up i) (record w.sys { threads = wake w.sys.threads i }) [] refl refl tt tt
      (Good-Inv (step-Good (spurious i) inv) refl)
      (wake-Clients g_thread_num w.sys.threads i clients)

pub program-Follows :
    (ts : List Turn) (w : World)
    → Inv 0 w.sys.pool w.sys.threads
    → Clients g_thread_num w.sys.threads
    → AllTurnsTimed ts
    → Follows w (exec w.sys (map action ts)) (program true w ts)
unfolding program exec
program-Follows [] w inv clients h = record {
  after = w;
  trace = [];
  ls = [];
  returns = refl;
  steps = refl;
  log =
      unfold messages text_of in
      ap {A = List ℕ} (λ t. record w.out { file = t }) (sym (append-nil w.out.file));
  reported = unfold results runs in refl;
  by_workers = tt;
  timed = tt;
  inv = inv;
  clients = clients;
}
program-Follows (t ∷ ts) w inv clients h =
    let f = turn-Follows w t inv clients h.0 in
    let g = program-Follows ts f.after f.inv f.clients h.1 in
    record {
      after = g.after;
      trace = f.trace ++ g.trace;
      ls = f.ls ++ g.ls;
      returns = rw (program, f.returns) g.returns;
      steps = rw (exec, f.steps, g.steps) refl;
      log =
          g.log
          ∙ ap (λ (o : Outputs). record o { file = o.file ++ text_of (messages g.ls) }) f.log
          ∙ ap {A = List ℕ} (λ t. record w.out { file = t })
              (append_assoc w.out.file (text_of (messages f.ls)) (text_of (messages g.ls))
                ∙ ap (λ t. w.out.file ++ t)
                    (sym (text_of-append (messages f.ls) (messages g.ls))
                      ∙ ap text_of (sym (messages-append f.ls g.ls))));
      reported =
          results-append f.ls g.ls
          ∙ ap₂ (λ a b. a ++ b) f.reported g.reported
          ∙ sym (runs-append f.trace g.trace);
      by_workers = AllByWorkers-append f.ls g.ls f.by_workers g.by_workers;
      timed = AllTimed-append f.ls g.ls f.timed g.timed;
      inv = g.inv;
      clients = g.clients;
    }
