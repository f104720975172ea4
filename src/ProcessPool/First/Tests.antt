-- ===== src/ProcessPool/First/Tests.antt =====
-- Turns of the processes of 1119/processPool/ProcessPool.cc.
use os_net_work_code.Base.{ℕ, ◌<◌, ◌≡◌, refl, some, List, [], ◌∷◌, ◌++◌, get_elem?, map}
use os_net_work_code.ProcessPool.Task.{cal, loaded, load, add, insert, has_key, handler_size}
use os_net_work_code.ProcessPool.Child.{encode, decode, to_int, ran, call}
use os_net_work_code.ProcessPool.Dispatch.{assigned, encoded, functions}
use os_net_work_code.ProcessPool.First.Defs.{
  process_num, create, lowest, close, pool, Now, begun, write_to, send_and_wake_up, hand_out,
  wait_command, perform, round, read_from, child_round, Turn, parent_turn, child_turn, step, exec,
}
use os_net_work_code.ProcessPool.First.Queues.{draws}
use os_net_work_code.ProcessPool.First.Served.{first_pool_serves}

-- Task 2 and task 0 for child 1, which runs one of them; child 3 looks in vain.
abbrev turns : List Turn
turns =
    parent_turn (record { for_task = 6; for_process = 11 })
    ∷ child_turn 3
    ∷ parent_turn (record { for_task = 4; for_process = 1 })
    ∷ child_turn 1
    ∷ []

first_pool_serves_example :
    (s : Now) × (exec loaded pool begun turns ≡ some s)
    × ((k : ℕ)
        → k < process_num
        → (did left : List ℕ) × (did ++ left ≡ assigned 4 process_num k (draws turns))
          × (get_elem? s.done k ≡ some (map ran (functions loaded.callbacks did)))
          × (get_elem? s.pipes k ≡ some (encoded left)))
first_pool_serves_example = first_pool_serves turns

exec-turns :
    exec loaded pool begun turns
    ≡ some (record {
      pipes = [] ∷ (0 ∷ 0 ∷ 0 ∷ 0 ∷ []) ∷ [] ∷ [] ∷ [] ∷ [];
      done = [] ∷ (ran cal ∷ []) ∷ [] ∷ [] ∷ [] ∷ [];
    })
unfolding exec step hand_out send_and_wake_up write_to child_round read_from round wait_command
    perform create lowest close begun encode decode to_int call load add insert has_key handler_size
exec-turns = refl
