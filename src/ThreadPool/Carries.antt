-- ===== src/ThreadPool/Carries.antt =====
-- What an action of the thread pool of 0211/threadPool.hpp carries from a client into the queue.
use os_net_work_code.Base.{
  ℕ, ◌≡◌, refl, sym, ap, ◌∙◌, subst, false, Option, none, some, Option-cases, List, [], ◌∷◌, ◌++◌,
  get_elem?, get_elem?-lt, get_elem?-set_self, get_elem?-set_ne, set, ℕ_discrete, ne→==_false,
  Bool-cases, if◌then◌else◌, inl, inr,
}
use os_net_work_code.Sync.Laws.{lock-cases}
use os_net_work_code.ThreadPool.Defs.{
  Pool, Pc, idle, push_lock, push_insert, push_signal, push_unlock, created, work_lock, work_test,
  work_sleep, work_wake, work_take, work_unlock, work_run, TaskEvent, Outcome, enter_lock, get_task,
  is_empty, move,
}
use os_net_work_code.ThreadPool.System.{System, finish, step_run}
use os_net_work_code.ThreadPool.Invariant.{pushes}
use os_net_work_code.ThreadPool.Places.{
  is_client, hand, hand_of, Placed, set-Placed, signalled-Placed, signalled-hand,
}

module _ {ℓ} {T : Type ℓ} where
  -- An action keeps a client a client and a worker a worker, and pushes what was in hand.
  abbrev pub Moved : Pc T → Option (Outcome T) → Type ℓ
  Moved p none = Unit
  Moved p (some o) = (is_client o.place ≡ is_client p) × (hand p ≡ pushes o.trace ++ hand o.place)

  enter_lock-Moved :
      (b : Pool T) (p p' : Pc T)
      → is_client p' ≡ is_client p
      → hand p ≡ hand p'
      → Moved p (enter_lock b p p')
  unfolding enter_lock pushes
  enter_lock-Moved b p p' c h = elim (lock-cases b.mutex) [
    | inl (z, n) ↦ rw (n, enter_lock) (refl, refl)
    | inr (m, z, held, n) ↦ rw (n, enter_lock) (c, h)
  ]

  get_task-Moved : (b : Pool T) (q : List T) → Moved work_take (get_task b q)
  unfolding get_task pushes
  get_task-Moved b [] = tt
  get_task-Moved b (t ∷ q) = (refl, refl)

  pub move-Moved : (b : Pool T) (p : Pc T) → Moved p (move b p)
  unfolding move pushes
  move-Moved b idle = (refl, refl)
  move-Moved b (push_lock t) = enter_lock-Moved b (push_lock t) (push_insert t) refl refl
  move-Moved b (push_insert t) = (refl, refl)
  move-Moved b push_signal = (refl, refl)
  move-Moved b push_unlock = (refl, refl)
  move-Moved b created = (refl, refl)
  move-Moved b work_lock = enter_lock-Moved b work_lock work_test refl refl
  move-Moved b work_test = elim (Bool-cases (is_empty b)) [
    | inl y ↦ rw (move, y, if◌then◌else◌) (refl, refl)
    | inr n ↦ rw (move, n, if◌then◌else◌) (refl, refl)
  ]
  move-Moved b work_sleep = (refl, refl)
  move-Moved b work_wake = enter_lock-Moved b work_wake work_test refl refl
  move-Moved b work_take = get_task-Moved b b.task_queue
  move-Moved b (work_unlock t) = (refl, refl)
  move-Moved b (work_run t) = (refl, refl)

  worker_hand : (p : Pc T) → is_client p ≡ false → hand p ≡ []
  worker_hand idle h = refl
  worker_hand (push_lock t) h = absurd (cc)
  worker_hand (push_insert t) h = absurd (cc)
  worker_hand p h = refl

  append_eq_nil : (xs ys : List T) → [] ≡ xs ++ ys → xs ≡ []
  append_eq_nil [] ys h = refl
  append_eq_nil (x ∷ xs) ys h = absurd (cc)

  -- A step keeps the roles, and pushes what leaves the hand of thread `n`.
  abbrev pub Carries : ℕ → System T → Option (System T × List (TaskEvent T)) → Type ℓ
  Carries n s none = Unit
  Carries n s (some (t, es)) =
      Placed n t.threads
      × (hand_of (get_elem? s.threads n) ≡ pushes es ++ hand_of (get_elem? t.threads n))

  pub finish-Carries :
      (n : ℕ) (s : System T) (i j : ℕ) (p : Pc T)
      → Placed n s.threads
      → get_elem? s.threads i ≡ some p
      → Carries n s (finish s i j (move s.pool p))
  unfolding finish
  finish-Carries n s i j p h e = elim (Option-cases (move s.pool p)) [
    | inl m ↦ rw (m, finish) tt
    | inr (o, m) ↦
        let moved : Moved p (some o) = subst (Moved p) m (move-Moved s.pool p) in
        rw (m, finish)
          (
            signalled-Placed n o.signals j (set s.threads i o.place)
                (set-Placed n s.threads i o.place h (moved.0 ∙ h i p e)),
            handed o moved
                ∙ ap (λ l. pushes o.trace ++ l)
                    (sym (signalled-hand o.signals j n (set s.threads i o.place))),
          )
  ]
    where
      handed :
          (o : Outcome T)
          → Moved p (some o)
          → hand_of (get_elem? s.threads n)
            ≡ pushes o.trace ++ hand_of (get_elem? (set s.threads i o.place) n)
      handed o moved = elim (ℕ_discrete i n) [
        | yes q ↦
            subst
              (λ k.
                hand_of (get_elem? s.threads k)
                ≡ pushes o.trace ++ hand_of (get_elem? (set s.threads i o.place) k))
              q
              (ap hand_of e
                ∙ moved.1
                ∙ ap (λ l. pushes o.trace ++ l)
                    (ap hand_of
                      (sym (get_elem?-set_self s.threads i o.place (get_elem?-lt s.threads i e)))))
        | no ne ↦
            let empty = worker_hand p (h i p e ∙ ne→==_false i n ne) in
            let none_pushed = append_eq_nil (pushes o.trace) (hand o.place) (sym empty ∙ moved.1) in
            ap (λ l. l ++ hand_of (get_elem? s.threads n)) (sym none_pushed)
            ∙ ap (λ l. pushes o.trace ++ l)
                (ap hand_of (sym (get_elem?-set_ne s.threads i n o.place ne)))
      ]

  pub step_run-Carries :
      (n : ℕ) (s : System T) (i j : ℕ) → Placed n s.threads → Carries n s (step_run s i j)
  unfolding step_run pushes
  step_run-Carries n s i j h = elim (Option-cases (get_elem? s.threads i)) [
    | inl e ↦ rw (step_run, e) (h, refl)
    | inr (p, e) ↦ rw (step_run, e) (finish-Carries n s i j p h e)
  ]
