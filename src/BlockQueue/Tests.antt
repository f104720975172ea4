-- ===== src/BlockQueue/Tests.antt =====
-- Runs of BlockQueue<T> (0114/BlockQueue.hpp) on small schedules, and the theorems there.
use os_net_work_code.Base.{
  ◌+◌, Option, none, ◌++◌, false, ℕ, zero, suc, ◌≤◌, ◌≡◌, refl, List, [], ◌∷◌, length, get_elem?,
  some, arith, false,
}
use os_net_work_code.Fifo.{Event, put, Steps}
use os_net_work_code.Sync.{lock, unlock}
use os_net_work_code.Sync.Cond.{signal_target}
use os_net_work_code.BlockQueue.Defs.{init, Pc, idle, push_sleep, pop_sleep, pop_wake, move}
use os_net_work_code.BlockQueue.System.{System, Action, call_push, call_pop, run, start, exec, step}
use os_net_work_code.BlockQueue.Invariant.{producer_coming}
use os_net_work_code.BlockQueue.Safety.{block_queue_refines}
use os_net_work_code.Fifo.{puts, gots}
use os_net_work_code.Base.Threads.{weigh}
use os_net_work_code.BlockQueue.Tasks.{
  Made, Turn, produce, consume, show, act, World, begun, program, default_cap, answers, Between,
  turn, went, in_hand, take_hand, print_task, behind,
}
use os_net_work_code.BlockQueue.Answers.{held, answers_in_order}
use os_net_work_code.BlockQueue.Progress.{
  block_queue_never_deadlocks, SomeGoes, consumer_stranded, one_item, stranded_state,
}

-- Thread 0 pushes 7 and 8 into a queue of capacity 1, and sleeps in the second call.
abbrev push_twice : List (Action ℕ)
push_twice =
    call_push 0 7
    ∷ run 0 0
    ∷ run 0 0
    ∷ run 0 0
    ∷ run 0 0
    ∷ run 0 0
    ∷ call_push 0 8
    ∷ run 0 0
    ∷ run 0 0
    ∷ []

abbrev full_state : System ℕ
full_state = record {
  queue = record { bq = 7 ∷ []; capacity = 1; mtx = record { locked = false } };
  threads = push_sleep 8 ∷ idle ∷ [];
}

-- Thread 1 sleeps on the empty queue, thread 2 pushes 7 and is about to signal, and thread 0
-- pushes and falls asleep before thread 1 has run again.
abbrev both : List (Action ℕ)
both =
    call_pop 1
    ∷ run 1 0
    ∷ run 1 0
    ∷ call_pop 2
    ∷ run 2 0
    ∷ run 2 0
    ∷ call_push 0 7
    ∷ run 0 0
    ∷ run 0 0
    ∷ run 0 0
    ∷ run 0 1
    ∷ run 0 0
    ∷ call_push 0 8
    ∷ run 0 0
    ∷ run 0 0
    ∷ []

abbrev both_state : System ℕ
both_state = record {
  queue = record { bq = 7 ∷ []; capacity = 1; mtx = record { locked = false } };
  threads = push_sleep 8 ∷ pop_wake ∷ pop_sleep ∷ [];
}

block_queue_refines_example :
    (t : System ℕ) × (es : List (Event ℕ)) × (exec (start ℕ 1 2) push_twice ≡ some (t, es))
    × Steps 1 [] es t.queue.bq
block_queue_refines_example = block_queue_refines 1 2 push_twice

nobody_produces :
    (k : ℕ) (p : Pc ℕ) → get_elem? full_state.threads k ≡ some p → producer_coming p ≡ 0
nobody_produces zero p e = ground arith
nobody_produces (suc zero) p e = ground arith
nobody_produces (suc (suc k)) p e = absurd (cc)

block_queue_never_deadlocks_example : SomeGoes both_state
unfolding exec step start init move lock unlock signal_target
block_queue_never_deadlocks_example =
    block_queue_never_deadlocks 1 3 both {t = both_state} {es = put 7 ∷ []} 0 2 8 (omega arith) refl
      refl refl

consumer_stranded_example : exec (start ℕ 5 2) (one_item 9) ≡ some (stranded_state 5 9, put 9 ∷ [])
consumer_stranded_example = consumer_stranded 5 9 (omega arith)

-- Producer 2 makes 4 + 2 and pushes it, and consumer 0 takes it and prints it.
abbrev one_sum : List Turn
one_sum =
    produce false 13 6
    ∷ act 2 0
    ∷ act 2 0
    ∷ act 2 0
    ∷ act 2 0
    ∷ act 2 0
    ∷ consume false
    ∷ act 0 0
    ∷ act 0 0
    ∷ act 0 0
    ∷ act 0 0
    ∷ act 0 0
    ∷ act 0 0
    ∷ show false
    ∷ []

answers_in_order_example :
    (w : World) × (es : List (Event Made)) × (program begun one_sum ≡ some (w, es))
    × (answers (puts es) ≡ answers (gots es) ++ answers w.sys.queue.bq)
    × (length w.sys.queue.bq ≤ default_cap)
    × ((v : Made → ℕ) → weigh v (gots es) ≡ held v w.hands + weigh v w.shown)
    × Between 2 15 (answers w.shown)
answers_in_order_example = answers_in_order one_sum

-- How many answers are printed.
abbrev printed : Option (World × List (Event Made)) → ℕ
printed none = 0
printed (some (w, es)) = length w.shown

sum_printed : printed (program begun one_sum) ≡ 1
unfolding program turn went in_hand take_hand print_task behind begun start init step move lock
    unlock signal_target gots
sum_printed = refl
