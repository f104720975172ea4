-- ===== src/ProcessPool/Menu.antt =====
-- The menu of 1119/processPool/ProcessPool.hpp: the second half of `StartThePool`.
use os_net_work_code.Base.{
  ℕ, suc, ◌<◌, ◌≡◌, refl, ap, ◌∙◌, false, Bool-cases, Option, some, List, [], ◌∷◌, ◌++◌, replicate,
  get_elem?, map, if◌then◌else◌, ◌==◌, inl, inr,
}
use os_net_work_code.ProcessPool.Task.{Handlers, Described, loaded}
use os_net_work_code.ProcessPool.Child.{child, ran, waiting}
use os_net_work_code.ProcessPool.Parent.{process_num, Pipes, slots, Draw, dispatch}
use os_net_work_code.ProcessPool.Dispatch.{assigned, functions, pool_runs}

-- What `showHandler` prints: all of `desc`.
unfoldable pub show_handler : Handlers → List Described
show_handler h = h.desc

-- The tables shown, and what is in the pipes.
pub record Served : Type 0 where
  pub shown : List (List Described)
  pub pipes : Option Pipes

-- The loop of the menu: 1 shows the table, 2 hands out tasks and does not come back, anything else
-- is asked again.
unfoldable pub menu : Handlers → Pipes → List ℕ → List Draw → Served
menu h pipes [] draws = record { shown = []; pipes = some pipes }
menu h pipes (select ∷ selects) draws =
    let rest = menu h pipes selects draws in
    if select == 1
    then record rest { shown = show_handler h ∷ rest.shown }
    else if select == 2
    then record { shown = []; pipes = dispatch h pipes draws }
    else rest

-- The parent of `StartThePool`, on what the user types and the results of `rand`.
unfoldable pub start_parent : List ℕ → List Draw → Served
start_parent selects draws = menu loaded slots selects draws

-- Nobody selects 2.
abbrev pub NoTasks : List ℕ → Type 0
NoTasks [] = Unit {0}
NoTasks (s ∷ ss) = ((s == 2) ≡ false) × NoTasks ss

unfoldable pub tables : List ℕ → ℕ
tables [] = 0
tables (s ∷ ss) = let rest = tables ss in if s == 1 then suc rest else rest

menu-tables :
    (h : Handlers) (pipes : Pipes) (before after : List ℕ) (draws : List Draw)
    → NoTasks before
    → menu h pipes (before ++ 2 ∷ after) draws ≡ record {
      shown = replicate (tables before) (show_handler h);
      pipes = dispatch h pipes draws;
    }
unfolding menu tables
menu-tables h pipes [] after draws no_tasks = refl
menu-tables h pipes (s ∷ before) after draws no_tasks = elim (Bool-cases (s == 1)) [
  | inl one ↦ rw (one, if◌then◌else◌, menu-tables h pipes before after draws no_tasks.1) refl
  | inr other ↦
      rw (other, no_tasks.0, if◌then◌else◌) (menu-tables h pipes before after draws no_tasks.1)
]

-- However often the user has the table shown before the tasks are handed out, the parent of the
-- five processes never picks a slot or a task out of range, whatever the random numbers are, and
-- each child, on all that has come through its pipe, runs exactly the tasks that were drawn for it,
-- in order, and then waits for more: the parent never closes a pipe, since it never leaves its menu.
pub pool_serves :
    (before after : List ℕ) (rs : List Draw)
    → NoTasks before
    → (pipes : Pipes) × (start_parent (before ++ 2 ∷ after) rs
        ≡ record { shown = replicate (tables before) (show_handler loaded); pipes = some pipes })
      × ((k : ℕ)
          → k < process_num
          → (pipe : List ℕ) × (get_elem? pipes k ≡ some pipe)
            × (child false loaded pipe
                ≡ some (
                    map ran (functions loaded.callbacks (assigned 4 process_num k rs))
                    ++ (waiting ∷ []))))
unfolding start_parent
pool_serves before after rs no_tasks =
    let (pipes, runs, children) = pool_runs rs in
    (
      pipes,
      menu-tables loaded slots before after rs no_tasks
          ∙ ap (λ o. record { shown = replicate (tables before) (show_handler loaded); pipes = o })
              runs,
      children,
    )
