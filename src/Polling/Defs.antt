-- ===== src/Polling/Defs.antt =====
-- `Load` and `main` of 0919/myproc.cc, on what `waitpid` returns.
use os_net_work_code.Base.{ℕ, zero, suc, ◌*◌, ◌/◌, ◌%◌, List, [], ◌∷◌, ◌++◌}

-- The functions that a handler can be.
pub data Task : Type 0 where
  fun_one fun_two : Task

-- `waitpid(-1, &status, WNOHANG)`: no child has ended, one has with this status, or an error.
pub data Poll : Type 0 where
  none_ended : Poll
  ended : ℕ → Poll
  failed : Poll

-- What can be seen: a message, the exit code of the child, or a task that is done.
pub data Effect : Type 0 where
  still_running : Effect
  did : Task → Effect
  exit_code : ℕ → Effect
  wait_failed : Effect
  counted : ℕ → Effect  -- the child's line with cnt

unfoldable pub load : List Task → List Task
load handlers = handlers ++ fun_one ∷ fun_two ∷ []

-- `if(handlers.empty()) Load();`
unfoldable pub load_once : List Task → List Task
load_once [] = load []
load_once (t ∷ ts) = t ∷ ts

unfoldable pub run_all : List Task → List Effect
run_all [] = []
run_all (t ∷ ts) = did t ∷ run_all ts

-- WEXITSTATUS, and the status that the kernel makes of `exit(code)`.
unfoldable pub wexitstatus : ℕ → ℕ
wexitstatus status = status / 256 % 256

unfoldable pub exit_status : ℕ → ℕ
exit_status code = code % 256 * 256

-- `while(!quit)` of the father, with the handlers that are loaded.
unfoldable pub father : List Task → List Poll → List Effect
father handlers [] = []
father handlers (none_ended ∷ polls) =
    let loaded = load_once handlers in still_running ∷ (run_all loaded ++ father loaded polls)
father handlers (ended status ∷ polls) = exit_code (wexitstatus status) ∷ []
father handlers (failed ∷ polls) = wait_failed ∷ []

-- `while(cnt--)` of the child.
unfoldable pub count_down : ℕ → List Effect
count_down zero = []
count_down (suc cnt) = counted cnt ∷ count_down cnt

-- The child: what it prints, and the status that it leaves.
pub record Child : Type 0 where
  pub prints : List Effect
  pub status : ℕ

unfoldable pub child : Child
child = record { prints = count_down 5; status = exit_status 11 }

-- `main` of the father, before any handler is loaded.
unfoldable pub main : List Poll → List Effect
main polls = father [] polls
