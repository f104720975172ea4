-- ===== src/Signals/Tests.antt =====
-- Signals sent to the programs of 0105 and 0108.
use os_net_work_code.Base.{◌≡◌, refl, ℕ, List, [], ◌∷◌}
use os_net_work_code.Signals.Defs.{
  main, watch, block_all, block_from, block_sig, unblockable, raise_all, raised, harmless, discards,
  job_control, is_stop, sigismember,
}

-- Signal 2, and then 3 and 7.
abbrev sent : List (List ℕ)
sent = (2 ∷ []) ∷ (3 ∷ 7 ∷ []) ∷ []

-- Signal 9 is not blocked.
kill_main : main ((9 ∷ []) ∷ []) ≡ []
unfolding main watch block_all block_from block_sig unblockable raise_all raised harmless discards
    job_control is_stop sigismember
kill_main = refl
