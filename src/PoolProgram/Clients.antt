-- ===== src/PoolProgram/Clients.antt =====
-- In 0211/testMain.cc main, the thread behind the three workers, stays outside `routine` of
-- 0211/threadPool.hpp.
use os_net_work_code.Base.{
  ℕ, suc, ◌≤◌, ◌<◌, ◌≡◌, refl, ◌∙◌, subst, true, Option, none, some, Option-cases, List, [], length,
  length-set, get_elem?, get_elem?-lt, set, ℕ_discrete, arith, inl, inr, ◌⊎◌, Bool, false, ==_iff,
}
use os_net_work_code.Sync.Laws.{lock-cases}
use os_net_work_code.Sync.Cond.{signal_target}
use os_net_work_code.ThreadPool.Defs.{
  Pool, Pc, idle, push_lock, push_insert, push_signal, push_unlock, TaskEvent, Outcome, enter_lock,
  move,
}
use os_net_work_code.ThreadPool.System.{
  System, awake, wake, signalled, asleep, begin, call, finish, step_run,
}
use os_net_work_code.ThreadPool.Invariant.{runs}
use os_net_work_code.ThreadPool.Places.{is_client, Placed, wake-Placed, call-Placed}
use os_net_work_code.ThreadPool.Carries.{Carries, finish-Carries}

module _ {ℓ} {T : Type ℓ} where
  -- There are no more than `n` + 1 threads, and only the last is outside `routine`.
  pub record Clients (n : ℕ) (ps : List (Pc T)) : Type ℓ where
    pub few : length ps ≤ suc n
    pub roles : Placed n ps

  length-wake : (ps : List (Pc T)) (k : ℕ) → length (wake ps k) ≡ length ps
  unfolding wake
  length-wake ps k = elim (Option-cases (get_elem? ps k)) [
    | inl e ↦ rw (wake, e) refl
    | inr (p, e) ↦ rw (wake, e) (length-set ps k (awake p))
  ]

  length-signalled : (b : Bool) (j : ℕ) (ps : List (Pc T)) → length (signalled b j ps) ≡ length ps
  unfolding signalled
  length-signalled false j ps = refl
  length-signalled true j ps = elim (Option-cases (signal_target asleep ps j)) [
    | inl e ↦ rw (signalled, e) refl
    | inr (k, e) ↦ rw (signalled, e) (length-wake ps k)
  ]

  pub wake-Clients : (n : ℕ) (ps : List (Pc T)) (k : ℕ) → Clients n ps → Clients n (wake ps k)
  wake-Clients n ps k h = record {
    few = omega (arith, h.few, length-wake ps k);
    roles = wake-Placed n ps k h.roles;
  }

  pub call-Clients :
      (n : ℕ) (s : System T) (i : ℕ) (t : T)
      → Clients n s.threads
      → Clients n (call s i (push_lock t)).threads
  unfolding call
  call-Clients n s i t h = record { few = same; roles = call-Placed n s i t h.roles }
    where
      same : length (call s i (push_lock t)).threads ≤ suc n
      same = elim (Option-cases (get_elem? s.threads i)) [
        | inl e ↦ rw (call, e) h.few
        | inr (p, e) ↦
            rw (call, e) (omega (arith, h.few, length-set s.threads i (begin p (push_lock t))))
      ]

  -- A client runs no task.
  abbrev Quiet : Option (Outcome T) → Type ℓ
  Quiet none = Unit
  Quiet (some o) = runs o.trace ≡ []

  move-Quiet : (b : Pool T) (p : Pc T) → is_client p ≡ true → Quiet (move b p)
  unfolding move runs enter_lock
  move-Quiet b idle h = refl
  move-Quiet b (push_lock t) h = elim (lock-cases b.mutex) [
    | inl (z, n) ↦ rw (n, enter_lock) refl
    | inr (m, z, held, n) ↦ rw (n, enter_lock) refl
  ]
  move-Quiet b (push_insert t) h = refl
  move-Quiet b push_signal h = refl
  move-Quiet b push_unlock h = refl
  move-Quiet b p h = absurd (cc)

  -- After an action of thread `i`: a task was run by a thread before the last one, if at all.
  abbrev pub Kept : ℕ → ℕ → Option (System T × List (TaskEvent T)) → Type ℓ
  Kept n i none = Unit
  Kept n i (some (t, es)) = Clients n t.threads × ((i < n) ⊎ (runs es ≡ []))

  finish-Kept :
      (n : ℕ) (s : System T) (i j : ℕ) (p : Pc T)
      → Clients n s.threads
      → get_elem? s.threads i ≡ some p
      → Carries n s (finish s i j (move s.pool p))
      → Kept n i (finish s i j (move s.pool p))
  unfolding finish
  finish-Kept n s i j p h e c = elim (Option-cases (move s.pool p)) [
    | inl m ↦ rw (m, finish) tt
    | inr (o, m) ↦
        let moved : Carries n s (finish s i j (some o)) =
          subst (λ r. Carries n s (finish s i j r)) m c in
        let small : length (signalled o.signals j (set s.threads i o.place)) ≤ suc n = omega (
          arith,
          h.few,
          length-set s.threads i o.place,
          length-signalled o.signals j (set s.threads i o.place),
        ) in
        rw (m, finish) (record { few = small; roles = moved.0 }, who o m)
  ]
    where
      who : (o : Outcome T) → move s.pool p ≡ some o → (i < n) ⊎ (runs o.trace ≡ [])
      who o m = elim (ℕ_discrete i n) [
        | yes q ↦ inr (subst Quiet m (move-Quiet s.pool p (h.roles i p e ∙ (==_iff i n).1 q)))
        | no ne ↦ inl (omega (arith, ne, h.few, get_elem?-lt s.threads i e))
      ]

  pub step_run-Kept :
      (n : ℕ) (s : System T) (i j : ℕ) → Clients n s.threads → Kept n i (step_run s i j)
  unfolding step_run runs
  step_run-Kept n s i j h = elim (Option-cases (get_elem? s.threads i)) [
    | inl e ↦ rw (step_run, e) (h, inr refl)
    | inr (p, e) ↦ rw (step_run, e) (finish-Kept n s i j p h e (finish-Carries n s i j p h.roles e))
  ]
