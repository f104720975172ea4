-- ===== src/ThreadPool/Places.antt =====
-- Where the threads of a pool can stand (0211/threadPool.hpp): thread `n` calls pushTask and never
-- gets into `routine`, the others are workers.
use os_net_work_code.Base.{
  ℕ, zero, suc, ◌≡◌, refl, sym, ap, ◌∙◌, subst, Bool, true, false, Option, none, some, Option-cases,
  List, [], ◌∷◌, length-set, get_elem?, get_elem?-lt, get_elem?-set_self, get_elem?-set_ne, set,
  ℕ_discrete, ◌==◌, ne→==_false, arith, inl, inr,
}
use os_net_work_code.Sync.Cond.{signal_target}
use os_net_work_code.ThreadPool.Defs.{
  Pc, idle, push_lock, push_insert, push_signal, push_unlock, created, work_lock, work_test,
  work_sleep, work_wake, work_take, work_unlock, work_run, workers,
}
use os_net_work_code.ThreadPool.System.{start, System, asleep, awake, wake, begin, signalled, call}

module _ {ℓ} {T : Type ℓ} where
  abbrev pub is_client : Pc T → Bool
  is_client idle = true
  is_client (push_lock t) = true
  is_client (push_insert t) = true
  is_client push_signal = true
  is_client push_unlock = true
  is_client created = false
  is_client work_lock = false
  is_client work_test = false
  is_client work_sleep = false
  is_client work_wake = false
  is_client work_take = false
  is_client (work_unlock t) = false
  is_client (work_run t) = false

  -- The task that a client is about to put into the queue.
  abbrev pub hand : Pc T → List T
  hand (push_lock t) = t ∷ []
  hand (push_insert t) = t ∷ []
  hand p = []

  abbrev pub hand_of : Option (Pc T) → List T
  hand_of none = []
  hand_of (some p) = hand p

  -- Thread `n`, and no other, is a client.
  abbrev pub Placed : ℕ → List (Pc T) → Type ℓ
  Placed n ps = (i : ℕ) (p : Pc T) → get_elem? ps i ≡ some p → is_client p ≡ (i == n)

  pub set-Placed :
      (n : ℕ) (ps : List (Pc T)) (i : ℕ) (p : Pc T)
      → Placed n ps
      → is_client p ≡ (i == n)
      → Placed n (set ps i p)
  set-Placed n ps i p h new k q e = elim (ℕ_discrete i k) [
    | yes same ↦ subst (λ j. is_client q ≡ (j == n)) same (kept same)
    | no ne ↦ h k q (sym (get_elem?-set_ne ps i k p ne) ∙ e)
  ]
    where
      kept : i ≡ k → is_client q ≡ (i == n)
      kept same =
          let there : get_elem? (set ps i p) i ≡ some q =
            subst (λ j. get_elem? (set ps i p) j ≡ some q) (sym same) e in
          let here : get_elem? (set ps i p) i ≡ some p =
            get_elem?-set_self ps i p
              (omega (arith, get_elem?-lt (set ps i p) i there, length-set ps i p)) in
          let both : ◌≡◌ {A = Option (Pc T)} (some p) (some q) = sym here ∙ there in
          let eq : p ≡ q = cc both in subst (λ u. is_client u ≡ (i == n)) eq new

  pub awake-client : (p : Pc T) → is_client (awake p) ≡ is_client p
  awake-client idle = refl
  awake-client (push_lock t) = refl
  awake-client (push_insert t) = refl
  awake-client push_signal = refl
  awake-client push_unlock = refl
  awake-client created = refl
  awake-client work_lock = refl
  awake-client work_test = refl
  awake-client work_sleep = refl
  awake-client work_wake = refl
  awake-client work_take = refl
  awake-client (work_unlock t) = refl
  awake-client (work_run t) = refl

  awake-hand : (p : Pc T) → hand (awake p) ≡ hand p
  awake-hand work_sleep = refl
  awake-hand idle = refl
  awake-hand (push_lock t) = refl
  awake-hand (push_insert t) = refl
  awake-hand push_signal = refl
  awake-hand push_unlock = refl
  awake-hand created = refl
  awake-hand work_lock = refl
  awake-hand work_test = refl
  awake-hand work_wake = refl
  awake-hand work_take = refl
  awake-hand (work_unlock t) = refl
  awake-hand (work_run t) = refl

  pub wake-Placed : (n : ℕ) (ps : List (Pc T)) (k : ℕ) → Placed n ps → Placed n (wake ps k)
  unfolding wake
  wake-Placed n ps k h = elim (Option-cases (get_elem? ps k)) [
    | inl e ↦ rw (wake, e) h
    | inr (p, e) ↦ rw (wake, e) (set-Placed n ps k (awake p) h (awake-client p ∙ h k p e))
  ]

  -- What a place holds, after it was set.
  hand-set :
      (ps : List (Pc T)) (i n : ℕ) (p p' : Pc T)
      → get_elem? ps i ≡ some p
      → hand p' ≡ hand p
      → hand_of (get_elem? (set ps i p') n) ≡ hand_of (get_elem? ps n)
  hand-set ps i n p p' e same = elim (ℕ_discrete i n) [
    | yes q ↦
        subst (λ j. hand_of (get_elem? (set ps i p') j) ≡ hand_of (get_elem? ps j)) q
          (ap hand_of (get_elem?-set_self ps i p' (get_elem?-lt ps i e))
            ∙ same
            ∙ ap hand_of (sym e))
    | no ne ↦ ap hand_of (get_elem?-set_ne ps i n p' ne)
  ]

  pub wake-hand :
      (ps : List (Pc T)) (k n : ℕ) → hand_of (get_elem? (wake ps k) n) ≡ hand_of (get_elem? ps n)
  unfolding wake
  wake-hand ps k n = elim (Option-cases (get_elem? ps k)) [
    | inl e ↦ rw (wake, e) refl
    | inr (p, e) ↦ rw (wake, e) (hand-set ps k n p (awake p) e (awake-hand p))
  ]

  pub signalled-Placed :
      (n : ℕ) (b : Bool) (j : ℕ) (ps : List (Pc T)) → Placed n ps → Placed n (signalled b j ps)
  unfolding signalled
  signalled-Placed n false j ps h = h
  signalled-Placed n true j ps h = elim (Option-cases (signal_target asleep ps j)) [
    | inl e ↦ rw (signalled, e) h
    | inr (k, e) ↦ rw (signalled, e) (wake-Placed n ps k h)
  ]

  pub signalled-hand :
      (b : Bool) (j n : ℕ) (ps : List (Pc T))
      → hand_of (get_elem? (signalled b j ps) n) ≡ hand_of (get_elem? ps n)
  unfolding signalled
  signalled-hand false j n ps = refl
  signalled-hand true j n ps = elim (Option-cases (signal_target asleep ps j)) [
    | inl e ↦ rw (signalled, e) refl
    | inr (k, e) ↦ rw (signalled, e) (wake-hand ps k n)
  ]

  pub begin-client : (p : Pc T) (t : T) → is_client (begin p (push_lock t)) ≡ is_client p
  begin-client idle t = refl
  begin-client p t = refl

  -- A call of pushTask.
  pub call-Placed :
      (n : ℕ) (s : System T) (i : ℕ) (t : T)
      → Placed n s.threads
      → Placed n (call s i (push_lock t)).threads
  unfolding call
  call-Placed n s i t h = elim (Option-cases (get_elem? s.threads i)) [
    | inl e ↦ rw (call, e) h
    | inr (p, e) ↦
        rw (call, e)
          (set-Placed n s.threads i (begin p (push_lock t)) h (begin-client p t ∙ h i p e))
  ]

  -- When the thread is idle, the task is in its hand then.
  pub call-hand :
      (n : ℕ) (s : System T) (t : T)
      → get_elem? s.threads n ≡ some idle
      → hand_of (get_elem? (call s n (push_lock t)).threads n) ≡ t ∷ []
  unfolding call
  call-hand n s t e =
      rw (call, e)
        (ap hand_of (get_elem?-set_self s.threads n (push_lock t) (get_elem?-lt s.threads n e)))

  is_created : (p : Pc T) → ◌≡◌ {A = Option (Pc T)} (some created) (some p) → is_client p ≡ false
  is_created p both = let same : created ≡ p = cc both in subst (λ q. is_client q ≡ false) same refl

  is_idle : (p : Pc T) → ◌≡◌ {A = Option (Pc T)} (some idle) (some p) → is_client p ≡ true
  is_idle p both = let same : idle ≡ p = cc both in subst (λ q. is_client q ≡ true) same refl

  -- A new pool with one further thread.
  pub start-Placed : (n : ℕ) → Placed n (start T n 1).threads
  unfolding start workers
  start-Placed zero zero p e = is_idle p e
  start-Placed zero (suc i) p e = absurd (cc)
  start-Placed (suc n) zero p e = is_created p e ∙ sym (ne→==_false 0 (suc n) (omega arith))
  start-Placed (suc n) (suc i) p e = start-Placed n i p e ∙ ground arith
