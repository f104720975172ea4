-- ===== src/ProcessPool/First/Queues.antt =====
-- What 1119/processPool/ProcessPool.cc is meant to do: a queue of commands for each child.
use os_net_work_code.Base.{
  ℕ, ◌%◌, ◌<◌, ◌≡◌, ◌≢◌, refl, sym, ap, ◌∙◌, Bool-cases, List, [], ◌∷◌, ◌++◌, append_assoc,
  append-nil, if◌then◌else◌, ◌==◌, ==_iff, ne→==_false, true, arith, inl, inr,
}
use os_net_work_code.ProcessPool.Parent.{Draw}
use os_net_work_code.ProcessPool.Dispatch.{assigned, AllBelow}
use os_net_work_code.ProcessPool.First.Defs.{process_num, Turn, parent_turn, child_turn}

-- The commands that a child has run, and those that wait for it.
pub record Queue : Type 0 where
  pub ran : List ℕ
  pub waiting : List ℕ

unfoldable pub pop : List ℕ → List ℕ → Queue
pop ran [] = record { ran = ran; waiting = [] }
pop ran (v ∷ vs) = record { ran = ran ++ v ∷ []; waiting = vs }

-- What a turn is to child `k`, with `size` tasks in the table.
unfoldable pub served : ℕ → ℕ → Turn → Queue → Queue
served size k (parent_turn r) q =
    if k == r.for_process % process_num
    then record q { waiting = q.waiting ++ (r.for_task % size) ∷ [] }
    else q
served size k (child_turn j) q = if k == j then pop q.ran q.waiting else q

unfoldable pub serves : ℕ → ℕ → List Turn → Queue → Queue
serves size k [] q = q
serves size k (t ∷ ts) q = serves size k ts (served size k t q)

-- The draws of the parent's turns.
unfoldable pub draws : List Turn → List Draw
draws [] = []
draws (parent_turn r ∷ ts) = r ∷ draws ts
draws (child_turn k ∷ ts) = draws ts

pop-order :
    (ran waiting : List ℕ) → (pop ran waiting).ran ++ (pop ran waiting).waiting ≡ ran ++ waiting
unfolding pop
pop-order ran [] = refl
pop-order ran (v ∷ vs) = append_assoc ran (v ∷ []) vs

==_comm : (a b : ℕ) → (a == b) ≡ (b == a)
==_comm a b = ground arith

-- The commands that a turn draws for a child.
drawn : ℕ → ℕ → Turn → List ℕ
drawn size k (parent_turn r) =
    if k == r.for_process % process_num then (r.for_task % size) ∷ [] else []
drawn size k (child_turn j) = []

assigned-drawn :
    (size k : ℕ) (t : Turn) (ts : List Turn)
    → assigned size process_num k (draws (t ∷ ts))
      ≡ drawn size k t ++ assigned size process_num k (draws ts)
unfolding drawn draws assigned
assigned-drawn size k (parent_turn r) ts =
    rw (==_comm (r.for_process % process_num) k)
      (elim (Bool-cases (k == r.for_process % process_num)) [
        | inl y ↦ rw (y, if◌then◌else◌) refl
        | inr n ↦ rw (n, if◌then◌else◌) refl
      ])
assigned-drawn size k (child_turn j) ts = refl

served-drawn :
    (size k : ℕ) (t : Turn) (q : Queue)
    → (served size k t q).ran ++ (served size k t q).waiting
      ≡ (q.ran ++ q.waiting) ++ drawn size k t
unfolding served drawn
served-drawn size k (parent_turn r) q = elim (Bool-cases (k == r.for_process % process_num)) [
  | inl y ↦ rw (y, if◌then◌else◌) (sym (append_assoc q.ran q.waiting ((r.for_task % size) ∷ [])))
  | inr n ↦ rw (n, if◌then◌else◌) (sym (append-nil (q.ran ++ q.waiting)))
]
served-drawn size k (child_turn j) q = elim (Bool-cases (k == j)) [
  | inl y ↦
      rw (y, if◌then◌else◌) (pop-order q.ran q.waiting ∙ sym (append-nil (q.ran ++ q.waiting)))
  | inr n ↦ rw (n, if◌then◌else◌) (sym (append-nil (q.ran ++ q.waiting)))
]

-- Commands are run in the order in which they were drawn for the child.
pub serves-order :
    (size k : ℕ) (ts : List Turn) (q : Queue)
    → (serves size k ts q).ran ++ (serves size k ts q).waiting
      ≡ (q.ran ++ q.waiting) ++ assigned size process_num k (draws ts)
unfolding serves
serves-order size k [] q = unfold draws assigned in sym (append-nil (q.ran ++ q.waiting))
serves-order size k (t ∷ ts) q =
    serves-order size k ts (served size k t q)
    ∙ ap (λ l. l ++ assigned size process_num k (draws ts)) (served-drawn size k t q)
    ∙ append_assoc (q.ran ++ q.waiting) (drawn size k t) (assigned size process_num k (draws ts))
    ∙ ap (λ l. (q.ran ++ q.waiting) ++ l) (sym (assigned-drawn size k t ts))

AllBelow-snoc :
    (size c : ℕ) (vs : List ℕ) → c < size → AllBelow size vs → AllBelow size (vs ++ c ∷ [])
AllBelow-snoc size c [] h all = (h, tt)
AllBelow-snoc size c (v ∷ vs) h all = (all.0, AllBelow-snoc size c vs h all.1)

pop-AllBelow :
    (size : ℕ) (ran waiting : List ℕ)
    → AllBelow size waiting
    → AllBelow size (pop ran waiting).waiting
unfolding pop
pop-AllBelow size ran [] all = tt
pop-AllBelow size ran (v ∷ vs) all = all.1

-- No command is outside the table.
pub served-AllBelow :
    (size k : ℕ) (t : Turn) (q : Queue)
    → 0 < size
    → AllBelow size q.waiting
    → AllBelow size (served size k t q).waiting
unfolding served
served-AllBelow size k (parent_turn r) q pos all =
    elim (Bool-cases (k == r.for_process % process_num)) [
      | inl y ↦
          rw (y, if◌then◌else◌) (AllBelow-snoc size (r.for_task % size) q.waiting (omega arith) all)
      | inr n ↦ rw (n, if◌then◌else◌) all
    ]
served-AllBelow size k (child_turn j) q pos all = elim (Bool-cases (k == j)) [
  | inl y ↦ rw (y, if◌then◌else◌) (pop-AllBelow size q.ran q.waiting all)
  | inr n ↦ rw (n, if◌then◌else◌) all
]

==_self : (k : ℕ) → (k == k) ≡ true
==_self k = (==_iff k k).1 refl

pub served-drawn_self :
    (size : ℕ) (r : Draw) (q : Queue)
    → served size (r.for_process % process_num) (parent_turn r) q
      ≡ record q { waiting = q.waiting ++ (r.for_task % size) ∷ [] }
unfolding served
served-drawn_self size r q = rw (==_self (r.for_process % process_num), if◌then◌else◌) refl

pub served-drawn_other :
    (size k : ℕ) (r : Draw) (q : Queue)
    → k ≢ r.for_process % process_num
    → served size k (parent_turn r) q ≡ q
unfolding served
served-drawn_other size k r q ne =
    rw (ne→==_false k (r.for_process % process_num) ne, if◌then◌else◌) refl

pub served-child_self :
    (size k : ℕ) (q : Queue) → served size k (child_turn k) q ≡ pop q.ran q.waiting
unfolding served
served-child_self size k q = rw (==_self k, if◌then◌else◌) refl

pub served-child_other : (size k j : ℕ) (q : Queue) → k ≢ j → served size k (child_turn j) q ≡ q
unfolding served
served-child_other size k j q ne = rw (ne→==_false k j ne, if◌then◌else◌) refl
