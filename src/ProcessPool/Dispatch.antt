-- ===== src/ProcessPool/Dispatch.antt =====
-- The pool of 1119/processPool/ProcessPool.hpp as a whole: which child runs which task.
use os_net_work_code.Base.{
  Bool, false, ℕ, zero, suc, ◌%◌, ◌^◌, ◌<◌, ◌≡◌, ◌≢◌, refl, subst, List, [], ◌∷◌, ◌++◌,
  append_assoc, append-nil, length, some, none, get_elem?, get_elem?-lt, get_elem?-ne-none,
  get_elem?-set_self, get_elem?-set_ne, length-set, set, if◌then◌else◌, Bool-cases, Option-cases,
  inl, inr, ◌==◌, ==_iff, map, arith,
}
use os_net_work_code.ProcessPool.Task.{Func, Handlers, handler_size, loaded, load, add}
use os_net_work_code.ProcessPool.Child.{encode, ran, waiting, at_end, before, child, child-encode}
use os_net_work_code.ProcessPool.Parent.{
  process_num, Pipes, slots, send_and_wake_up, Draw, dispatch,
}

-- The commands for child `k` of `n`, in order.
unfoldable pub assigned : ℕ → ℕ → ℕ → List Draw → List ℕ
assigned size n k [] = []
assigned size n k (r ∷ rs) =
    let rest = assigned size n k rs in
    if r.for_process % n == k then (r.for_task % size) ∷ rest else rest

unfoldable pub encoded : List ℕ → List ℕ
encoded [] = []
encoded (c ∷ cs) = encode c ++ encoded cs

-- The functions with the given numbers.
unfoldable pub functions : List Func → List ℕ → List Func
functions fs [] = []
functions fs (c ∷ cs) = elim (get_elem? fs c) [
  | none ↦ functions fs cs
  | some f ↦ f ∷ functions fs cs
]

abbrev pub AllBelow : ℕ → List ℕ → Type 0
AllBelow n [] = Unit {0}
AllBelow n (c ∷ cs) = (c < n) × AllBelow n cs

mod_below : (m n : ℕ) → 0 < n → m % n < n
mod_below m n h = omega arith

assigned-AllBelow :
    (size n k : ℕ) (rs : List Draw) → 0 < size → AllBelow size (assigned size n k rs)
unfolding assigned
assigned-AllBelow size n k [] pos = tt
assigned-AllBelow size n k (r ∷ rs) pos = elim (Bool-cases (r.for_process % n == k)) [
  | inl e ↦ rw (e, if◌then◌else◌) (mod_below r.for_task size pos, assigned-AllBelow size n k rs pos)
  | inr e ↦ rw (e, if◌then◌else◌) (assigned-AllBelow size n k rs pos)
]

pub in_table : (h : Handlers) (c : ℕ) → c < handler_size h → c < length h.callbacks
unfolding handler_size
in_table h c below = below

child-encoded :
    (closed : Bool) (h : Handlers) (cs : List ℕ)
    → handler_size h < 2 ^ 31
    → AllBelow (handler_size h) cs
    → child closed h (encoded cs)
      ≡ some (map ran (functions h.callbacks cs) ++ (at_end closed ∷ []))
unfolding encoded functions child before
child-encoded closed h [] size below = refl
child-encoded closed h (c ∷ cs) size below = elim (Option-cases (get_elem? h.callbacks c)) [
  | inl e ↦ absurd (get_elem?-ne-none h.callbacks c (in_table h c below.0) e)
  | inr (f, e) ↦
      rw
        (
          child-encode closed h c f (encoded cs) size below.0 e,
          child-encoded closed h cs size below.1,
          functions,
          e,
          before,
        )
        refl
]

-- What the parent has put into each pipe.
Filled : Handlers → Pipes → List Draw → Pipes → Type 0
Filled h pipes rs pipes' =
    (k : ℕ) (pipe : List ℕ)
    → get_elem? pipes k ≡ some pipe
    → get_elem? pipes' k ≡ some (pipe ++ encoded (assigned (handler_size h) (length pipes) k rs))

dispatch-Filled :
    (h : Handlers) (pipes : Pipes) (rs : List Draw)
    → 0 < length pipes
    → (pipes' : Pipes) × (dispatch h pipes rs ≡ some pipes') × Filled h pipes rs pipes'
unfolding dispatch send_and_wake_up assigned encoded Filled
dispatch-Filled h pipes [] pos = (pipes, refl, λ k pipe e. rw (append-nil pipe) e)
dispatch-Filled h pipes (r ∷ rs) pos =
    elim (Option-cases (get_elem? pipes (r.for_process % length pipes))) [
      | inl e ↦ absurd (
          get_elem?-ne-none pipes (r.for_process % length pipes)
            (mod_below r.for_process (length pipes) pos) e)
      | inr (p, e) ↦
          let c = r.for_process % length pipes in
          let v = r.for_task % handler_size h in
          let next = set pipes c (p ++ encode v) in
          let same = length-set pipes c (p ++ encode v) in
          let (last, runs, filled) = dispatch-Filled h next rs (omega (arith, same, pos)) in
          (
            last,
            rw (dispatch, send_and_wake_up, e) runs,
            λ k pipe here. elim (Bool-cases (c == k)) [
              | inl at_k ↦
                  let ck = (==_iff c k).0 at_k in
                  let self : get_elem? next k ≡ some (p ++ encode v) =
                    rw (← ck)
                      (get_elem?-set_self pipes c (p ++ encode v) (get_elem?-lt pipes c e)) in
                  let there =
                    subst
                      (λ n.
                        get_elem? last k
                        ≡ some ((p ++ encode v) ++ encoded (assigned (handler_size h) n k rs)))
                      same (filled k (p ++ encode v) self) in
                  let pp : pipe ≡ p = cc in
                  rw
                    (
                      at_k,
                      if◌then◌else◌,
                      pp,
                      ← append_assoc p (encode v)
                          (encoded (assigned (handler_size h) (length pipes) k rs)),
                    )
                    there
              | inr off ↦
                  let ck : c ≢ k = λ q. absurd (cc ((==_iff c k).1 q)) in
                  let there =
                    subst
                      (λ n.
                        get_elem? last k
                        ≡ some (pipe ++ encoded (assigned (handler_size h) n k rs)))
                      same
                      (filled k pipe (rw (get_elem?-set_ne pipes c k (p ++ encode v) ck) here)) in
                  rw (off, if◌then◌else◌) there
            ],
          )
    ]

slot_empty : (k : ℕ) → k < process_num → get_elem? slots k ≡ some []
unfolding slots
slot_empty zero h = refl
slot_empty (suc zero) h = refl
slot_empty (suc (suc zero)) h = refl
slot_empty (suc (suc (suc zero))) h = refl
slot_empty (suc (suc (suc (suc zero)))) h = refl
slot_empty (suc (suc (suc (suc (suc k))))) h = absurd (omega (arith, h))

-- For any random numbers, the parent of the five processes never picks a slot or a task out of
-- range, and each child, on all that has come through its pipe, runs exactly the tasks that were
-- drawn for it, in order, and then waits, as the parent closes no pipe.
pub pool_runs :
    (rs : List Draw)
    → (pipes : Pipes) × (dispatch loaded slots rs ≡ some pipes)
      × ((k : ℕ)
          → k < process_num
          → (pipe : List ℕ) × (get_elem? pipes k ≡ some pipe)
            × (child false loaded pipe
                ≡ some (
                    map ran (functions loaded.callbacks (assigned 4 process_num k rs))
                    ++ (waiting ∷ []))))
unfolding slots handler_size load add Filled at_end
pool_runs rs =
    let (pipes, runs, filled) = dispatch-Filled loaded slots rs (omega arith) in
    (
      pipes,
      runs,
      λ k small. (
        encoded (assigned 4 process_num k rs),
        filled k [] (slot_empty k small),
        child-encoded false loaded (assigned 4 process_num k rs) (omega arith)
            (assigned-AllBelow 4 process_num k rs (omega arith)),
      ),
    )
