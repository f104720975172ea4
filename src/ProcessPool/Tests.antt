-- ===== src/ProcessPool/Tests.antt =====
-- A run of the process pool, and the theorems there.
use os_net_work_code.Base.{
  false, refl, replicate, suc, arith, take, ◌↔◌, ℕ, ◌<◌, ◌≡◌, List, [], ◌∷◌, ◌++◌, some, get_elem?,
  map,
}
use os_net_work_code.ProcessPool.Task.{loaded}
use os_net_work_code.ProcessPool.Child.{child, ran, waiting}
use os_net_work_code.ProcessPool.Parent.{process_num, Pipes, Draw}
use os_net_work_code.ProcessPool.Fds.{write_end, start_the_pool, holders, writes, pool_fds}
use os_net_work_code.ProcessPool.Dispatch.{assigned, functions}
use os_net_work_code.ProcessPool.Menu.{start_parent, tables, show_handler, pool_serves}

abbrev draws : List Draw
draws =
    record { for_task = 17; for_process = 8 }
    ∷ record { for_task = 2; for_process = 4 }
    ∷ record { for_task = 3; for_process = 13 }
    ∷ []

pool_serves_example :
    (pipes : Pipes) × (start_parent (1 ∷ 3 ∷ 1 ∷ 2 ∷ 1 ∷ []) draws ≡ record {
      shown = replicate (tables (1 ∷ 3 ∷ 1 ∷ [])) (show_handler loaded);
      pipes = some pipes;
    })
    × ((k : ℕ)
        → k < process_num
        → (pipe : List ℕ) × (get_elem? pipes k ≡ some pipe)
          × (child false loaded pipe
              ≡ some (
                  map ran (functions loaded.callbacks (assigned 4 process_num k draws))
                  ++ (waiting ∷ []))))
pool_serves_example = pool_serves (1 ∷ 3 ∷ 1 ∷ []) (1 ∷ []) draws (refl, (refl, (refl, tt)))

-- The five children, with all of them there: the pipe of child 2 is held open by two others.
pool_fds_example :
    ((start_the_pool 5 0 []).parent ≡ writes 5)
    × (holders (write_end 2) (take 5 (start_the_pool 5 0 []).children) ≡ 2)
    × ((holders (write_end 2) (take 5 (start_the_pool 5 0 []).children) ≡ 0) ↔ (suc 2 ≡ 5))
pool_fds_example = pool_fds 5 5 2 (omega arith) (omega arith)
