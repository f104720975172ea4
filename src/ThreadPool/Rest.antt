-- ===== src/ThreadPool/Rest.antt =====
-- When the threads of the thread pool of 0211/threadPool.hpp are at rest.
use os_net_work_code.Base.{
  ℕ, ◌+◌, ◌≤◌, ◌<◌, ◌≡◌, refl, some, List, [], ◌∷◌, length, get_elem?, arith, inl, inr, dec_lt, ◌⊎◌,
}
use os_net_work_code.Base.Threads.{weigh, weigh-ge, weigh_pos, weigh-eq-zero}
use os_net_work_code.ThreadPool.Defs.{Pc, idle, work_unlock, work_run}
use os_net_work_code.ThreadPool.System.{System}
use os_net_work_code.ThreadPool.Invariant.{carried, taking, sleeping, coming, Inv}
use os_net_work_code.ThreadPool.Safety.{inside, weigh-inside}
use os_net_work_code.ThreadPool.Effort.{outside, Less, inside-Less, outside-Less}
use os_net_work_code.ThreadPool.Workforce.{works, workforce}

module _ {ℓ} {T : Type ℓ} where
  -- Every thread sleeps or is idle.
  abbrev pub AtRest : List (Pc T) → Type 0
  AtRest ps = (weigh inside ps ≡ 0) × (weigh outside ps ≡ 0)

  workforce_le :
      (ps : List (Pc T)) → workforce ps ≤ weigh sleeping ps + (weigh inside ps + weigh outside ps)
  unfolding weigh
  workforce_le [] = omega arith
  workforce_le (p ∷ ps) = omega (arith, workforce_le ps, one p)
    where
      one : (p : Pc T) → works p ≤ sleeping p + (inside p + outside p)
      one idle = omega arith
      one p = omega arith

  coming_le : (ps : List (Pc T)) → weigh coming ps ≤ weigh inside ps + weigh outside ps
  unfolding weigh
  coming_le [] = omega arith
  coming_le (p ∷ ps) = omega (arith, coming_le ps, one p)
    where
      one : (p : Pc T) → coming p ≤ inside p + outside p
      one idle = omega arith
      one p = omega arith

  pub carried-AtRest : (v : T → ℕ) (ps : List (Pc T)) → AtRest ps → weigh (carried v) ps ≡ 0
  carried-AtRest v ps h = weigh-eq-zero (carried v) ps (λ i p e.
      one p (omega (arith, h, weigh-ge inside ps i p e))
        (omega (arith, h, weigh-ge outside ps i p e)))
    where
      one : (p : Pc T) → inside p ≡ 0 → outside p ≡ 0 → carried v p ≡ 0
      one (work_unlock t) a b = absurd (omega (arith, a))
      one (work_run t) a b = absurd (omega (arith, b))
      one p a b = refl

  -- Then the queue is empty, if there is a worker.
  pub AtRest-empty :
      (s : System T)
      → Inv 0 s.pool s.threads
      → 0 < workforce s.threads
      → AtRest s.threads
      → length s.pool.task_queue ≡ 0
  AtRest-empty s inv some_worker h =
      omega (arith, inv, some_worker, h, workforce_le s.threads, coming_le s.threads)

  -- Some thread can make the work less, unless all are at rest.
  pub progress :
      (s : System T)
      → Inv 0 s.pool s.threads
      → AtRest s.threads ⊎ ((i : ℕ) × (p : Pc T) × (get_elem? s.threads i ≡ some p) × Less s.pool p)
  progress s inv = elim (dec_lt 0 (weigh inside s.threads)) [
    | yes h ↦
        let (i, p, e, here) = weigh_pos inside s.threads h in
        inr (
          i,
          p,
          e,
          inside-Less s.pool p here (λ t. omega (arith, inv, t, weigh-ge taking s.threads i p e)),
        )
    | no none_in ↦ elim (dec_lt 0 (weigh outside s.threads)) [
      | yes h ↦
          let (i, p, e, here) = weigh_pos outside s.threads h in
          inr (
            i,
            p,
            e,
            outside-Less s.pool p (omega (arith, inv, weigh-inside s.threads, none_in)) here,
          )
      | no none_out ↦ inl (omega (arith, none_in), omega (arith, none_out))
    ]
  ]
