-- ===== src/Polling/Waits.antt =====
-- The rounds of the father of 0919/myproc.cc.
use os_net_work_code.Base.{ℕ, zero, suc, ◌<◌, ◌≡◌, ap, List, [], ◌∷◌, ◌++◌, replicate, arith}
use os_net_work_code.Polling.Defs.{
  fun_one, fun_two, Poll, none_ended, ended, Effect, still_running, did, exit_code, load, load_once,
  run_all, wexitstatus, exit_status, father, main,
}

-- What each round without an end shows, before `rest`.
unfoldable pub rounds : ℕ → List Effect → List Effect
rounds zero rest = rest
rounds (suc n) rest = still_running ∷ did fun_one ∷ did fun_two ∷ rounds n rest

wexitstatus-exit_status : (code : ℕ) → code < 256 → wexitstatus (exit_status code) ≡ code
unfolding wexitstatus exit_status
wexitstatus-exit_status code h = omega (arith, h)

father-rounds :
    (n code : ℕ) (later : List Poll)
    → code < 256
    → father (fun_one ∷ fun_two ∷ []) (replicate n none_ended ++ ended (exit_status code) ∷ later)
      ≡ rounds n (exit_code code ∷ [])
unfolding father rounds load_once run_all
father-rounds zero code later h = ap (λ c. exit_code c ∷ []) (wexitstatus-exit_status code h)
father-rounds (suc n) code later h =
    ap (λ rest. still_running ∷ did fun_one ∷ did fun_two ∷ rest) (father-rounds n code later h)

-- As long as the child has not ended the father does both tasks in each round, loaded once; when it
-- has ended by `exit` with a code below 256 he reports this code and stops, whatever `waitpid`
-- would return later.
pub father_waits :
    (n code : ℕ) (later : List Poll)
    → code < 256
    → main (replicate n none_ended ++ ended (exit_status code) ∷ later)
      ≡ rounds n (exit_code code ∷ [])
unfolding main father rounds load_once load run_all
father_waits zero code later h = ap (λ c. exit_code c ∷ []) (wexitstatus-exit_status code h)
father_waits (suc n) code later h =
    ap (λ rest. still_running ∷ did fun_one ∷ did fun_two ∷ rest) (father-rounds n code later h)
