-- ===== src/Polling/Tests.antt =====
-- The father of 0919/myproc.cc with its child, which is seen to have ended in the sixth round.
use os_net_work_code.Base.{◌≡◌, refl, List, [], ◌∷◌, ◌++◌, replicate}
use os_net_work_code.Polling.Defs.{
  Poll, none_ended, ended, failed, exit_code, exit_status, wexitstatus, main, child, father,
  load_once, load, run_all,
}
use os_net_work_code.Polling.Waits.{rounds}

abbrev six_rounds : List Poll
six_rounds = replicate 5 none_ended ++ ended (exit_status 11) ∷ failed ∷ []

main-six_rounds : main six_rounds ≡ rounds 5 (exit_code 11 ∷ [])
unfolding main father rounds load_once load run_all wexitstatus exit_status
main-six_rounds = refl

child_status : child.status ≡ exit_status 11
unfolding child
child_status = refl
