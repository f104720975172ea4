-- ===== src/ProcessPool/First/Served.antt =====
-- The processes of 1119/processPool/ProcessPool.cc serve the queues.
use os_net_work_code.Base.{
  ℕ, ◌%◌, ◌^◌, ◌<◌, ◌≡◌, refl, sym, ap, ap₂, ◌∙◌, Bool-cases, some, List, [], ◌∷◌, ◌++◌, get_elem?,
  set, if◌then◌else◌, ◌==◌, arith, inl, inr, map, dec_lt,
}
use os_net_work_code.ProcessPool.Task.{Handlers, handler_size, loaded, load, add}
use os_net_work_code.ProcessPool.Child.{encode, ran}
use os_net_work_code.ProcessPool.Parent.{Draw}
use os_net_work_code.ProcessPool.Dispatch.{assigned, AllBelow, encoded, functions}
use os_net_work_code.ProcessPool.First.Defs.{
  process_num, pool, Now, begun, write_to, send_and_wake_up, hand_out, read_from, child_round, Turn,
  parent_turn, child_turn, step, exec,
}
use os_net_work_code.ProcessPool.First.Queues.{
  Queue, pop, served, serves, draws, serves-order, served-AllBelow, served-drawn_self,
  served-drawn_other, served-child_self, served-child_other,
}
use os_net_work_code.Base.Tabulate.{tabulate, get_elem?-tabulate, tabulate_ext, set-tabulate}
use os_net_work_code.ProcessPool.First.Wires.{
  encoded-snoc, round-pop, slot_pipe, slots_length, kid_round, no_kid_round, done_by, shown,
}

module _ (h : Handlers) (size : handler_size h < 2 ^ 31) (pos : 0 < handler_size h) where
  same_done :
      (c : ℕ → Queue) (r : Draw)
      → tabulate process_num (λ k. done_by h (c k).ran)
        ≡ tabulate process_num
            (λ k. done_by h (served (handler_size h) k (parent_turn r) (c k)).ran)
  unfolding served
  same_done c r =
      tabulate_ext process_num (λ k. done_by h (c k).ran)
        (λ k. done_by h (served (handler_size h) k (parent_turn r) (c k)).ran)
        (λ k lt. elim (Bool-cases (k == r.for_process % process_num)) [
          | inl y ↦ rw (y, if◌then◌else◌) refl
          | inr n ↦ rw (n, if◌then◌else◌) refl
        ])

  send_lem :
      (c : ℕ → Queue) (k v : ℕ)
      → k < process_num
      → send_and_wake_up pool (shown h c) k v
        ≡ some (record (shown h c) {
          pipes =
              set
                (tabulate process_num (λ j. encoded (c j).waiting))
                k
                (encoded (c k).waiting ++ encode v);
        })
  unfolding shown send_and_wake_up write_to
  send_lem c k v lt =
      let (fd, slot, leads) = slot_pipe k lt in
      rw
        (
          send_and_wake_up,
          slot,
          leads,
          write_to,
          get_elem?-tabulate process_num (λ j. encoded (c j).waiting) k lt,
        )
        refl

  -- A command that is handed out joins the queue of the child that was drawn.
  hand_out-served :
      (c : ℕ → Queue) (r : Draw)
      → hand_out h pool (shown h c) r
        ≡ some (shown h (λ k. served (handler_size h) k (parent_turn r) (c k)))
  unfolding hand_out shown
  hand_out-served c r =
      let lt : r.for_process % process_num < process_num = omega arith in
      ap (λ n. send_and_wake_up pool (shown h c) (r.for_process % n) (r.for_task % handler_size h))
        slots_length
      ∙ send_lem c (r.for_process % process_num) (r.for_task % handler_size h) lt
      ∙ ap₂ (λ ps ds. some (record { pipes = ps; done = ds })) joins (same_done c r)
    where
      g : ℕ → List ℕ
      g k = encoded (served (handler_size h) k (parent_turn r) (c k)).waiting

      n : ℕ
      n = r.for_process % process_num

      at_n : encoded (c n).waiting ++ encode (r.for_task % handler_size h) ≡ g n
      at_n =
          sym (encoded-snoc (c n).waiting (r.for_task % handler_size h))
          ∙ ap (λ q. encoded q.waiting) (sym (served-drawn_self (handler_size h) r (c n)))

      joins :
          set (tabulate process_num (λ j. encoded (c j).waiting)) (r.for_process % process_num) (
            encoded (c (r.for_process % process_num)).waiting
            ++ encode (r.for_task % handler_size h))
          ≡ tabulate process_num g
      joins =
          ap (set (tabulate process_num (λ j. encoded (c j).waiting)) n) at_n
          ∙ set-tabulate process_num (λ j. encoded (c j).waiting) g n
              (λ k ne.
                ap (λ q. encoded q.waiting)
                  (sym (served-drawn_other (handler_size h) k r (c k) ne)))

  child_round-served :
      (c : ℕ → Queue) (j : ℕ)
      → ((k : ℕ) → AllBelow (handler_size h) (c k).waiting)
      → child_round h pool (shown h c) j
        ≡ some (shown h (λ k. served (handler_size h) k (child_turn j) (c k)))
  unfolding shown read_from
  child_round-served c j all = elim (dec_lt j process_num) [
    | yes lt ↦
        kid_round h (shown h c) j lt
        ∙ rw
            (
              read_from,
              get_elem?-tabulate process_num (λ k. encoded (c k).waiting) j lt,
              get_elem?-tabulate process_num (λ k. done_by h (c k).ran) j lt,
              round-pop h (c j).ran (c j).waiting size (all j),
            )
            (ap₂ (λ ps ds. some (record { pipes = ps; done = ds })) (leaves lt) (runs lt))
    | no ge ↦
        no_kid_round h (shown h c) j (omega (arith, ge))
        ∙ ap₂ (λ ps ds. some (record { pipes = ps; done = ds })) (left ge) (left_done ge)
  ]
    where
      next : ℕ → Queue
      next k = served (handler_size h) k (child_turn j) (c k)

      leaves :
          j < process_num
          → set
              (tabulate process_num (λ k. encoded (c k).waiting))
              j
              (encoded (pop (c j).ran (c j).waiting).waiting)
            ≡ tabulate process_num (λ k. encoded (next k).waiting)
      leaves lt =
          ap (λ q. set (tabulate process_num (λ k. encoded (c k).waiting)) j (encoded q.waiting))
            (sym (served-child_self (handler_size h) j (c j)))
          ∙ set-tabulate process_num (λ k. encoded (c k).waiting) (λ k. encoded (next k).waiting) j
              (λ k ne.
                ap (λ q. encoded q.waiting)
                  (sym (served-child_other (handler_size h) k j (c k) ne)))

      runs :
          j < process_num
          → set
              (tabulate process_num (λ k. done_by h (c k).ran))
              j
              (done_by h (pop (c j).ran (c j).waiting).ran)
            ≡ tabulate process_num (λ k. done_by h (next k).ran)
      runs lt =
          ap (λ q. set (tabulate process_num (λ k. done_by h (c k).ran)) j (done_by h q.ran))
            (sym (served-child_self (handler_size h) j (c j)))
          ∙ set-tabulate process_num (λ k. done_by h (c k).ran) (λ k. done_by h (next k).ran) j
              (λ k ne.
                ap (λ q. done_by h q.ran) (sym (served-child_other (handler_size h) k j (c k) ne)))

      elsewhere : ¬ (j < process_num) → (k : ℕ) → k < process_num → c k ≡ next k
      elsewhere ge k lt =
          sym (served-child_other (handler_size h) k j (c k) (λ e. ge (omega (arith, e, lt))))

      left :
          ¬ (j < process_num)
          → tabulate process_num (λ k. encoded (c k).waiting)
            ≡ tabulate process_num (λ k. encoded (next k).waiting)
      left ge =
          tabulate_ext process_num (λ k. encoded (c k).waiting) (λ k. encoded (next k).waiting)
            (λ k lt. ap (λ q. encoded q.waiting) (elsewhere ge k lt))

      left_done :
          ¬ (j < process_num)
          → tabulate process_num (λ k. done_by h (c k).ran)
            ≡ tabulate process_num (λ k. done_by h (next k).ran)
      left_done ge =
          tabulate_ext process_num (λ k. done_by h (c k).ran) (λ k. done_by h (next k).ran)
            (λ k lt. ap (λ q. done_by h q.ran) (elsewhere ge k lt))

  pub step-served :
      (t : Turn) (c : ℕ → Queue)
      → ((k : ℕ) → AllBelow (handler_size h) (c k).waiting)
      → step h pool (shown h c) t ≡ some (shown h (λ k. served (handler_size h) k t (c k)))
  unfolding step
  step-served (parent_turn r) c all = hand_out-served c r
  step-served (child_turn j) c all = child_round-served c j all

  -- Whatever the order of their turns, the processes do what the queues say.
  pub exec-serves :
      (ts : List Turn) (c : ℕ → Queue)
      → ((k : ℕ) → AllBelow (handler_size h) (c k).waiting)
      → exec h pool (shown h c) ts ≡ some (shown h (λ k. serves (handler_size h) k ts (c k)))
  unfolding exec serves
  exec-serves [] c all = refl
  exec-serves (t ∷ ts) c all =
      rw (exec, step-served t c all)
        (exec-serves ts (λ k. served (handler_size h) k t (c k))
          (λ k. served-AllBelow (handler_size h) k t (c k) pos (all k)))

shown-begun : shown loaded (λ k. record { ran = []; waiting = [] }) ≡ begun
unfolding shown begun tabulate encoded functions
shown-begun = refl

-- Parent and children side by side, in any order, with any random numbers: every command goes
-- through a descriptor that is the write end of the right pipe. No child reads less than a whole
-- command, or one that is not in the table: it has run the first of the tasks drawn for it, in
-- order, and the commands for the others are in its pipe.
pub first_pool_serves :
    (ts : List Turn)
    → (s : Now) × (exec loaded pool begun ts ≡ some s)
      × ((k : ℕ)
          → k < process_num
          → (did left : List ℕ) × (did ++ left ≡ assigned 4 process_num k (draws ts))
            × (get_elem? s.done k ≡ some (map ran (functions loaded.callbacks did)))
            × (get_elem? s.pipes k ≡ some (encoded left)))
unfolding shown handler_size load add
first_pool_serves ts = (
  shown loaded now,
  ap (λ s. exec loaded pool s ts) (sym shown-begun)
      ∙ exec-serves loaded (omega arith) (omega arith) ts (λ k. empty) (λ k. tt),
  λ k lt. (
    (now k).ran,
    (now k).waiting,
    serves-order 4 k ts empty,
    get_elem?-tabulate process_num (λ j. done_by loaded (now j).ran) k lt,
    get_elem?-tabulate process_num (λ j. encoded (now j).waiting) k lt,
  ),
)
  where
    empty : Queue
    empty = record { ran = []; waiting = [] }

    now : ℕ → Queue
    now k = serves 4 k ts empty
