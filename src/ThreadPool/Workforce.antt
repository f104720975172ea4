-- ===== src/ThreadPool/Workforce.antt =====
-- The workers of the thread pool of 0211/threadPool.hpp remain workers.
use os_net_work_code.Base.{
  ℕ, zero, suc, ◌<◌, ◌≡◌, refl, ap, ◌∙◌, subst, Bool, true, false, Option, none, some, Option-cases,
  List, [], ◌∷◌, get_elem?, set, arith, inl, inr,
}
use os_net_work_code.Base.Threads.{weigh, weigh-set}
use os_net_work_code.Sync.Cond.{signal_target}
use os_net_work_code.ThreadPool.Defs.{Pc, push_lock, workers, TaskEvent, move}
use os_net_work_code.ThreadPool.System.{
  System, Action, push_task, run, spurious, asleep, awake, begin, wake, signalled, call, start,
  finish, step_run, step, exec,
}
use os_net_work_code.ThreadPool.Places.{is_client, awake-client, begin-client}
use os_net_work_code.ThreadPool.Carries.{Moved, move-Moved}

-- A client counts as 0, a worker as 1.
abbrev pub unless : Bool → ℕ
unless true = 0
unless false = 1

module _ {ℓ} {T : Type ℓ} where
  abbrev pub works : Pc T → ℕ
  works p = unless (is_client p)

  abbrev pub workforce : List (Pc T) → ℕ
  workforce ps = weigh works ps

  workforce-set :
      (ps : List (Pc T)) (i : ℕ) (p p' : Pc T)
      → get_elem? ps i ≡ some p
      → is_client p' ≡ is_client p
      → workforce (set ps i p') ≡ workforce ps
  workforce-set ps i p p' e same = omega (arith, weigh-set works ps i p p' e, ap unless same)

  workforce-wake : (ps : List (Pc T)) (k : ℕ) → workforce (wake ps k) ≡ workforce ps
  unfolding wake
  workforce-wake ps k = elim (Option-cases (get_elem? ps k)) [
    | inl e ↦ rw (wake, e) refl
    | inr (p, e) ↦ rw (wake, e) (workforce-set ps k p (awake p) e (awake-client p))
  ]

  workforce-signalled :
      (b : Bool) (j : ℕ) (ps : List (Pc T)) → workforce (signalled b j ps) ≡ workforce ps
  unfolding signalled
  workforce-signalled false j ps = refl
  workforce-signalled true j ps = elim (Option-cases (signal_target asleep ps j)) [
    | inl e ↦ rw (signalled, e) refl
    | inr (k, e) ↦ rw (signalled, e) (workforce-wake ps k)
  ]

  workforce-call :
      (s : System T) (i : ℕ) (t : T)
      → workforce (call s i (push_lock t)).threads ≡ workforce s.threads
  unfolding call
  workforce-call s i t = elim (Option-cases (get_elem? s.threads i)) [
    | inl e ↦ rw (call, e) refl
    | inr (p, e) ↦
        rw (call, e) (workforce-set s.threads i p (begin p (push_lock t)) e (begin-client p t))
  ]

  -- The workers remain.
  abbrev pub Staffed : System T → Option (System T × List (TaskEvent T)) → Type 0
  Staffed s none = Unit {0}
  Staffed s (some (t, es)) = (workforce t.threads ≡ workforce s.threads)

  finish-Staffed :
      (s : System T) (i j : ℕ) (p : Pc T)
      → get_elem? s.threads i ≡ some p
      → Staffed s (finish s i j (move s.pool p))
  unfolding finish
  finish-Staffed s i j p e = elim (Option-cases (move s.pool p)) [
    | inl m ↦ rw (m, finish) tt
    | inr (o, m) ↦
        let moved : Moved p (some o) = subst (Moved p) m (move-Moved s.pool p) in
        rw (m, finish)
          (workforce-signalled o.signals j (set s.threads i o.place)
            ∙ workforce-set s.threads i p o.place e moved.0)
  ]

  step-Staffed : (s : System T) (a : Action T) → Staffed s (step s a)
  unfolding step step_run
  step-Staffed s (push_task i t) = workforce-call s i t
  step-Staffed s (run i j) = elim (Option-cases (get_elem? s.threads i)) [
    | inl e ↦ rw (step_run, e) refl
    | inr (p, e) ↦ rw (step_run, e) (finish-Staffed s i j p e)
  ]
  step-Staffed s (spurious i) = workforce-wake s.threads i

  pub exec-Staffed : (as' : List (Action T)) (s : System T) → Staffed s (exec s as')
  unfolding exec
  exec-Staffed [] s = refl
  exec-Staffed (a ∷ as') s = elim (Option-cases (step s a)) [
    | inl e ↦ rw (exec, e) tt
    | inr (r, e) ↦
        let now : Staffed s (some r) = subst (Staffed s) e (step-Staffed s a) in
        elim (Option-cases (exec r.0 as')) [
          | inl e' ↦ rw (exec, e, e') tt
          | inr (r', e') ↦
              let later : Staffed r.0 (some r') = subst (Staffed r.0) e' (exec-Staffed as' r.0) in
              rw (exec, e, e') (later ∙ now)
        ]
  ]

pub workforce-start_pos {ℓ} : (T : Type ℓ) (n k : ℕ) → 0 < n → 0 < workforce (start T n k).threads
unfolding start workers weigh
workforce-start_pos T zero k h = absurd (omega (arith, h))
workforce-start_pos T (suc n) k h = omega arith
