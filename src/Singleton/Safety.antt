-- ===== src/Singleton/Safety.antt =====
-- Schedules of threads that want the single object (0211/threadPool.hpp, xjh_multi_thread/test.cc).
use os_net_work_code.Base.{
  ℕ, ◌≤◌, ◌≡◌, some, List, [], ◌∷◌, length, length-append, get_elem?, set, arith, inl, inr,
  Option-cases,
}
use os_net_work_code.Base.Threads.{weigh-ge}
use os_net_work_code.Sync.Laws.{lock-cases, held-unlock, held-le-one}
use os_net_work_code.Singleton.Defs.{
  Statics, Pc, idle, outer_test, locking, inner_test, creating, assigning, unlocking, returning,
  Outcome, get_thread_pool, System, Action, call, run, start, begin, step, exec,
}
use os_net_work_code.Singleton.Invariant.{
  AllFirst, AllFirst-append, at_creating, at_assigning, at_wrong, elsewhere_inside, needs_set, Inv,
  shift, start-Inv,
}

module _ {ℓ} {C : Type ℓ} where
  abbrev Kept : System C → ℕ → Outcome C → Type ℓ
  Kept s i (m, p, out) = Inv m (set s.threads i p) × AllFirst out

  module _ {s : System C} (inv : Inv s.statics s.threads) (i : ℕ) where
    abbrev m : Statics C
    m = s.statics

    abbrev ps : List (Pc C)
    ps = s.threads

    move-Kept : (p : Pc C) → get_elem? ps i ≡ some p → Kept s i (get_thread_pool m p)
    unfolding get_thread_pool
    move-Kept idle e = let sh = shift ps i idle idle e in (ground (arith, inv, sh), tt)
    move-Kept (outer_test num) e = elim (Option-cases m.thread_ptr) [
      | inl n ↦
          let sh = shift ps i (outer_test num) (locking num) e in
          rw (n, get_thread_pool) (ground (arith, inv, sh), tt)
      | inr (q, n) ↦
          let sh = shift ps i (outer_test num) returning e in
          rw (n, get_thread_pool) (ground (arith, inv, sh, n), tt)
    ]
    move-Kept (locking num) e = elim (lock-cases m.mutex_for_pool) [
      | inl (z, n) ↦
          let sh = shift ps i (locking num) (locking num) e in
          rw (n, get_thread_pool) (ground (arith, inv, sh), tt)
      | inr (l, z, h, n) ↦
          let sh = shift ps i (locking num) (inner_test num) e in
          rw (n, get_thread_pool) (ground (arith, inv, sh, z, h), tt)
    ]
    move-Kept (inner_test num) e = elim (Option-cases m.thread_ptr) [
      | inl n ↦
          let sh = shift ps i (inner_test num) (creating num) e in
          rw (n, get_thread_pool)
            (
              ground (
                arith,
                inv,
                sh,
                n,
                held-le-one m.mutex_for_pool,
                weigh-ge elsewhere_inside ps i (inner_test num) e,
              ),
              tt,
            )
      | inr (q, n) ↦
          let sh = shift ps i (inner_test num) unlocking e in
          rw (n, get_thread_pool) (ground (arith, inv, sh, n), tt)
    ]
    move-Kept (creating num) e =
        let sh = shift ps i (creating num) (assigning (length m.objects)) e in
        (
          ground (
            arith,
            inv,
            sh,
            weigh-ge at_creating ps i (creating num) e,
            length-append m.objects (num ∷ []),
          ),
          tt,
        )
    move-Kept (assigning p) e =
        let sh = shift ps i (assigning p) unlocking e in
        (
          ground (
            arith,
            inv,
            sh,
            weigh-ge at_assigning ps i (assigning p) e,
            weigh-ge at_wrong ps i (assigning p) e,
          ),
          tt,
        )
    move-Kept unlocking e =
        let sh = shift ps i unlocking returning e in
        (
          ground (
            arith,
            inv,
            sh,
            held-unlock m.mutex_for_pool,
            held-le-one m.mutex_for_pool,
            weigh-ge elsewhere_inside ps i unlocking e,
          ),
          tt,
        )
    move-Kept returning e =
        let sh = shift ps i returning idle e in
        (ground (arith, inv, sh), (ground (arith, inv, weigh-ge needs_set ps i returning e), tt))

  step-Kept :
      {s : System C} (a : Action C)
      → Inv s.statics s.threads
      → let (t, out) = step s a in Inv t.statics t.threads × AllFirst out
  unfolding step
  step-Kept {s} (call i num) inv = elim (Option-cases (get_elem? s.threads i)) [
    | inl e ↦ rw (e, step) (inv, tt)
    | inr (p, e) ↦ rw (e, step) (begun p e, tt)
  ]
    where
      begun :
          (p : Pc C)
          → get_elem? s.threads i ≡ some p
          → Inv s.statics (set s.threads i (begin num p))
      begun idle e = let sh = shift s.threads i idle (outer_test num) e in ground (arith, inv, sh)
      begun p e = let sh = shift s.threads i p p e in ground (arith, inv, sh)
  step-Kept {s} (run i) inv = elim (Option-cases (get_elem? s.threads i)) [
    | inl e ↦ rw (e, step) (inv, tt)
    | inr (p, e) ↦ rw (e, step) (move-Kept inv i p e)
  ]

  exec-Kept :
      (as' : List (Action C)) {s : System C}
      → Inv s.statics s.threads
      → let (t, out) = exec s as' in Inv t.statics t.threads × AllFirst out
  unfolding exec
  exec-Kept [] inv = (inv, tt)
  exec-Kept (a ∷ as') {s = s} inv =
      let (inv', out) = step-Kept a inv in
      let (inv'', rest) = exec-Kept as' {s = (step s a).0} inv' in
      (inv'', AllFirst-append (step s a).1 (exec (step s a).0 as').1 out rest)

  -- However many threads call it and however they interleave, at most one object is made, and every
  -- call that returns gives the pointer to that first object, never the null pointer.
  pub single_object :
      (n : ℕ) (as' : List (Action C))
      → let (t, out) = exec (start C n) as' in (length t.statics.objects ≤ 1) × AllFirst out
  single_object n as' = let (inv, out) = exec-Kept as' (start-Inv n) in (omega (arith, inv), out)
