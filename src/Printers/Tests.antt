-- ===== src/Printers/Tests.antt =====
-- A run of the printers of xjh_multi_thread/test1.cc up to 2.
use os_net_work_code.Base.{ℕ, ◌≡◌, ◌≤◌, ◌⊎◌, refl, true, false, List, [], ◌∷◌, ◌++◌, replicate}
use os_net_work_code.Sync.{lock, unlock}
use os_net_work_code.Printers.Defs.{
  finished, Event, run, start, exec, step, act, same, wake, notified, tag,
}
use os_net_work_code.Printers.Invariant.{Counts}
use os_net_work_code.Printers.Turns.{prints_in_turn, never_stuck, Runs}

-- Each thread in turn takes so many actions.
abbrev rounds : List Event
rounds =
    replicate 4 (run false)
    ++ replicate 9 (run true)
    ++ replicate 9 (run false)
    ++ replicate 9 (run true)
    ++ replicate 9 (run false)
    ++ replicate 9 (run true)

-- The limit is 2, and 2 is printed.
overrun : (exec 2 start rounds).1 ≡ (true, 0) ∷ (false, 1) ∷ (true, 2) ∷ []
unfolding exec step start act same wake notified tag lock unlock
overrun = refl

prints_in_turn_example :
    (r : ℕ) × Counts 0 (exec 2 start rounds).1 r
    × (r ≤ 3)
    × ((exec 2 start rounds).0.t1 ≡ finished → (exec 2 start rounds).0.t2 ≡ finished → 2 ≤ r)
prints_in_turn_example = prints_in_turn 2 rounds

never_stuck_example :
    ((exec 2 start rounds).0.t1 ≡ finished) × ((exec 2 start rounds).0.t2 ≡ finished)
    ⊎ (Runs (exec 2 start rounds).0.shared (exec 2 start rounds).0.t1
        ⊎ Runs (exec 2 start rounds).0.shared (exec 2 start rounds).0.t2)
never_stuck_example = never_stuck 2 rounds
