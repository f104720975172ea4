-- ===== src/PoolProgram/Results.antt =====
-- What the log of 0211/testMain.cc says about the tasks.
use os_net_work_code.Base.{ℕ, List}
use os_net_work_code.ThreadPool.System.{start}
use os_net_work_code.PoolProgram.Defs.{Made, g_thread_num, World, empty_log}
use os_net_work_code.PoolProgram.Clients.{Clients}

-- The log holds what `run` has logged.
abbrev first_world : List ℕ → World
first_world launch = record {
  sys = start Made g_thread_num 1;
  out = record empty_log { file = launch };
}
