-- ===== src/PoolProgram/Tests.antt =====
-- A run of the program of 0211/testMain.cc.
use os_net_work_code.Base.{List, [], ◌∷◌}
use os_net_work_code.PoolProgram.Defs.{Turn, produce, act}

-- Main makes 8 + 3 and pushes it, and the second worker runs it.
abbrev turns : List Turn
turns =
    produce 7 2 20
    ∷ act 3 0 20
    ∷ act 3 0 20
    ∷ act 3 0 20
    ∷ act 3 0 20
    ∷ act 1 0 21
    ∷ act 1 0 21
    ∷ act 1 0 21
    ∷ act 1 0 21
    ∷ act 1 0 21
    ∷ act 1 0 22
    ∷ []
