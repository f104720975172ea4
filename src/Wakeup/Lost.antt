-- ===== src/Wakeup/Lost.antt =====
-- Threads of 0113/demo/mycond.cc that sleep while `main` joins them.
use os_net_work_code.Base.{
  ℕ, zero, suc, true, false, replicate, ◌++◌, ◌≤◌, ◌≡◌, ◌≢◌, refl, sym, ap, ◌∙◌, some, List, [],
  ◌∷◌, get_elem?, set, get_elem?-set_self, get_elem?-set_ne, get_elem?-lt, get_elem?-ne-none, arith,
  inl, inr, Option-cases, ◌⊎◌, ℕ_discrete,
}
use os_net_work_code.Sync.{unlocked, lock, unlock}
use os_net_work_code.Sync.Cond.{signal_target, first_asleep}
use os_net_work_code.Wakeup.Defs.{
  Pc, testing, locking, waiting, sleeping, waking, printing, unlocking, finished, joining, returned,
  func, wake, wake_one, start, signalling, System, join, main, Event, run, control, spurious, step,
  exec, spurious_wakeups,
}

-- `main` has broadcast and has not yet joined thread `j`, which sleeps.
abbrev pub Missed : System → ℕ → Type 0
Missed s j = (i : ℕ) × (s.control ≡ joining i) × (i ≤ j) × (get_elem? s.threads j ≡ some sleeping)

join-cases : (i : ℕ) (p : Pc) → (join i (some p) ≡ joining (suc i)) ⊎ (join i (some p) ≡ joining i)
unfolding join
join-cases i testing = inr refl
join-cases i locking = inr refl
join-cases i waiting = inr refl
join-cases i sleeping = inr refl
join-cases i waking = inr refl
join-cases i printing = inr refl
join-cases i unlocking = inr refl
join-cases i finished = inl refl

join-Missed :
    (ps : List Pc) (i j : ℕ)
    → i ≤ j
    → get_elem? ps j ≡ some sleeping
    → (k : ℕ) × (join i (get_elem? ps i) ≡ joining k) × (k ≤ j)
unfolding join
join-Missed ps i j le h = elim (ℕ_discrete i j) [
  | yes q ↦ (i, ap (join i) (ap (get_elem? ps) q ∙ h), le)
  | no ne ↦ elim (Option-cases (get_elem? ps i)) [
    | inl e ↦ absurd (get_elem?-ne-none ps i (omega (arith, le, get_elem?-lt ps j h)) e)
    | inr (p, e) ↦ elim (join-cases i p) [
      | inl up ↦ (suc i, ap (join i) e ∙ up, omega (arith, le, ne))
      | inr same ↦ (i, ap (join i) e ∙ same, le)
    ]
  ]
]

func-Missed :
    (s : System) (j i : ℕ) (p : Pc)
    → get_elem? s.threads i ≡ some p
    → get_elem? s.threads j ≡ some sleeping
    → get_elem? (set s.threads i (func s.quit s.mtx p).1) j ≡ some sleeping
unfolding func
func-Missed s j i p e h = elim (ℕ_discrete i j) [
  | no ne ↦ get_elem?-set_ne s.threads i j (func s.quit s.mtx p).1 ne ∙ h
  | yes q ↦
      rw (sym q, its_place (sym e ∙ ap (get_elem? s.threads) q ∙ h), func)
        (get_elem?-set_self s.threads i sleeping (get_elem?-lt s.threads i e))
]
  where
    its_place : some p ≡ some sleeping → p ≡ sleeping
    its_place k = cc

step-Missed :
    (s : System) (j : ℕ) (e : Event)
    → spurious_wakeups (e ∷ []) ≡ 0
    → Missed s j
    → Missed (step s e).0 j
unfolding step main
step-Missed s j (run i) quiet (k, c, le, h) = elim (Option-cases (get_elem? s.threads i)) [
  | inl e ↦ rw (step, e) (k, c, le, h)
  | inr (p, e) ↦ rw (step, e) (k, c, le, func-Missed s j i p e h)
]
step-Missed s j (control l) quiet (k, c, le, h) =
    let (k', c', le') = join-Missed s.threads k j le h in rw (step, c, main) (k', c', le', h)
step-Missed s j (spurious i) quiet m = absurd (omega (arith, quiet))

exec-Missed :
    (s : System) (j : ℕ) (es : List Event)
    → spurious_wakeups es ≡ 0
    → Missed s j
    → Missed (exec s es).0 j
unfolding exec
exec-Missed s j [] quiet m = m
exec-Missed s j (run i ∷ es) quiet m =
    exec-Missed (step s (run i)).0 j es quiet (step-Missed s j (run i) refl m)
exec-Missed s j (control l ∷ es) quiet m =
    exec-Missed (step s (control l)).0 j es quiet (step-Missed s j (control l) refl m)
exec-Missed s j (spurious i ∷ es) quiet m = absurd (omega (arith, quiet))

-- `quit` stays as it is once `main` joins.
step-quit : (s : System) (j : ℕ) (e : Event) → Missed s j → s.quit ≡ true → (step s e).0.quit ≡ true
unfolding step main
step-quit s j (run i) m q = elim (Option-cases (get_elem? s.threads i)) [
  | inl e ↦ rw (step, e) q
  | inr (p, e) ↦ rw (step, e) q
]
step-quit s j (control l) (k, c, le, h) q = rw (step, c, main) q
step-quit s j (spurious i) m q = elim (Option-cases (get_elem? s.threads i)) [
  | inl e ↦ rw (step, e) q
  | inr (p, e) ↦ rw (step, e) q
]

exec-quit :
    (s : System) (j : ℕ) (es : List Event)
    → spurious_wakeups es ≡ 0
    → Missed s j
    → s.quit ≡ true
    → (exec s es).0.quit ≡ true
unfolding exec
exec-quit s j [] quiet m q = q
exec-quit s j (run i ∷ es) quiet m q =
    exec-quit (step s (run i)).0 j es quiet (step-Missed s j (run i) refl m)
      (step-quit s j (run i) m q)
exec-quit s j (control l ∷ es) quiet m q =
    exec-quit (step s (control l)).0 j es quiet (step-Missed s j (control l) refl m)
      (step-quit s j (control l) m q)
exec-quit s j (spurious i ∷ es) quiet m q = absurd (omega (arith, quiet))

-- Thread 0 has tested `quit`, and `main` still has `cnt` signals to send.
abbrev tested : ℕ → System
tested cnt = record {
  quit = false;
  mtx = unlocked;
  control = signalling cnt;
  threads = locking ∷ testing ∷ testing ∷ testing ∷ [];
}

-- Nobody sleeps, so that no signal wakes anybody.
signals_lost :
    (cnt : ℕ) (es : List Event)
    → (exec (tested cnt) (replicate cnt (control 0) ++ es)).0 ≡ (exec (tested 0) es).0
unfolding exec step main signal_target first_asleep wake_one
signals_lost zero es = refl
signals_lost (suc cnt) es = signals_lost cnt es

-- Thread 0 tests `quit`, `main` does all that it has to do before it joins, and then thread 0 takes
-- the mutex and waits. `es` comes after that.
abbrev pub unlucky : ℕ → List Event → List Event
unlucky cnt es =
    run 0 ∷ (replicate cnt (control 0) ++ control 0 ∷ control 0 ∷ control 0 ∷ run 0 ∷ run 0 ∷ es)

-- `main` joins, and thread 0 sleeps.
abbrev stuck : System
stuck = record {
  quit = true;
  mtx = unlocked;
  control = joining 0;
  threads = sleeping ∷ testing ∷ testing ∷ testing ∷ [];
}

unlucky-stuck :
    (cnt : ℕ) (es : List Event) → (exec (start cnt 4) (unlucky cnt es)).0 ≡ (exec stuck es).0
unfolding exec step start main func wake lock unlock
unlucky-stuck cnt es = signals_lost cnt (control 0 ∷ control 0 ∷ control 0 ∷ run 0 ∷ run 0 ∷ es)

-- The program loses a wake-up: however many signals `main` sends, there is a schedule from the start
-- of its four threads after which, whatever comes then, `quit` is set and thread 0 sleeps on the
-- condition, and `main`, which joins it, never returns, unless `pthread_cond_wait` returns by
-- itself.
pub sleeps_forever :
    (cnt : ℕ) (es : List Event)
    → spurious_wakeups es ≡ 0
    → ((exec (start cnt 4) (unlucky cnt es)).0.quit ≡ true)
      × (get_elem? (exec (start cnt 4) (unlucky cnt es)).0.threads 0 ≡ some sleeping)
      × ((exec (start cnt 4) (unlucky cnt es)).0.control ≢ returned)
sleeps_forever cnt es quiet =
    let missed : Missed stuck 0 = (0, refl, omega arith, refl) in
    let (k, c', le', h') = exec-Missed stuck 0 es quiet missed in
    rw (unlucky-stuck cnt es)
      (exec-quit stuck 0 es quiet missed refl, h', λ r. joining-ne-returned k (sym c' ∙ r))
  where
    joining-ne-returned : (k : ℕ) → joining k ≢ returned
    joining-ne-returned k e = cc
