-- ===== src/Tickets/Tests.antt =====
-- Small shops, with a lock (0112/mythread1.cc) and without (0110/mythread.cc).
use os_net_work_code.Base.{ℕ, ◌≡◌, List, [], ◌∷◌, ◌++◌}
use os_net_work_code.Base.Int.{pos, negsuc}
use os_net_work_code.Tickets.Locked
use os_net_work_code.Tickets.Locked.{Sold}
use os_net_work_code.Tickets.Countdown.{countdown}
use os_net_work_code.Tickets.Unlocked
use os_net_work_code.Tickets.Unlocked.{oversold, down, race_at_the_end}

-- Thread 0 sells the only ticket, tests again and leaves, while thread 1 waits.
abbrev one_ticket : List ℕ
one_ticket = 0 ∷ 1 ∷ 0 ∷ 0 ∷ 0 ∷ 0 ∷ 0 ∷ 0 ∷ 1 ∷ 0 ∷ []

countdown_example :
    let (t, out) = Locked.exec (Locked.start 1 2) one_ticket in (r : ℕ) × Sold 1 out r
countdown_example = countdown 1 2 one_ticket

oversold_example : Unlocked.exec (Unlocked.start 3 2) (race_at_the_end 2) ≡ (
  record { tickets = negsuc 0; threads = Unlocked.testing ∷ Unlocked.testing ∷ [] },
  down 3 ++ pos 0 ∷ [],
)
oversold_example = oversold 2
