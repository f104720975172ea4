-- ===== src/Wakeup/Tests.antt =====
-- The run of 0113/demo/mycond.cc in which a thread misses the last wake-up.
use os_net_work_code.Base.{true, ◌+◌, ◌≤◌, ◌≡◌, ◌≢◌, refl, some, List, [], ◌∷◌, length, get_elem?}
use os_net_work_code.Wakeup.Defs.{
  sleeping, returned, start, Event, run, control, exec, spurious_wakeups,
}
use os_net_work_code.Wakeup.Bound.{prints_bounded}
use os_net_work_code.Wakeup.Lost.{unlucky, sleeps_forever}

-- Thread 1 and `main` go on.
abbrev later : List Event
later = run 1 ∷ control 0 ∷ []

sleeps_forever_example :
    ((exec (start 10 4) (unlucky 10 later)).0.quit ≡ true)
    × (get_elem? (exec (start 10 4) (unlucky 10 later)).0.threads 0 ≡ some sleeping)
    × ((exec (start 10 4) (unlucky 10 later)).0.control ≢ returned)
sleeps_forever_example = sleeps_forever 10 later refl

prints_bounded_example :
    length (exec (start 10 4) (unlucky 10 later)).1 ≤ 10 + 4 + spurious_wakeups (unlucky 10 later)
prints_bounded_example = prints_bounded 10 4 (unlucky 10 later)
