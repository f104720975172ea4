-- ===== src/Sync/Cond.antt =====
-- `pthread_cond_signal`, as 0114/BlockQueue.hpp, 0208/ThreadPool/threadPool.hpp and
-- 0211/threadPool.hpp use it: it wakes a thread that sleeps on the condition, if there is one, and
-- which one is not determined. Here the schedule says which thread it would prefer.
use os_net_work_code.Base.{
  ℕ, suc, ◌≡◌, refl, Bool, true, false, Bool-cases, Option, none, some, List, [], ◌∷◌, get_elem?,
  arith, inl, inr,
}
use os_net_work_code.Base.Threads.{weigh}

module _ {ℓ} {P : Type ℓ} (asleep : P → Bool) where
  -- The first thread that sleeps.
  unfoldable pub first_asleep : List P → Option ℕ
  first_asleep [] = none
  first_asleep (p ∷ ps) = elim (asleep p) [
    | true ↦ some 0
    | false ↦ elim (first_asleep ps) [ none ↦ none | some k ↦ some (suc k) ]
  ]

  prefer : List P → ℕ → Option P → Option ℕ
  prefer ps j none = first_asleep ps
  prefer ps j (some p) = elim (asleep p) [ true ↦ some j | false ↦ first_asleep ps ]

  -- The thread that a signal wakes: the preferred one, if it sleeps.
  unfoldable pub signal_target : List P → ℕ → Option ℕ
  unfolding prefer first_asleep
  signal_target ps j = prefer ps j (get_elem? ps j)

  abbrev pub Sleeper : List P → ℕ → Type ℓ
  Sleeper ps k = (p : P) × (get_elem? ps k ≡ some p) × (asleep p ≡ true)

  abbrev pub Target : List P → Option ℕ → Type ℓ
  Target ps none = (w : P → ℕ) → ((p : P) → asleep p ≡ false → w p ≡ 0) → weigh w ps ≡ 0
  Target ps (some k) = Sleeper ps k

  first_asleep-Target : (ps : List P) → Target ps (first_asleep ps)
  unfolding first_asleep weigh
  first_asleep-Target [] = λ w h. refl
  first_asleep-Target (p ∷ ps) = elim (Bool-cases (asleep p)) [
    | inl e ↦ rw (e, first_asleep) (p, refl, e)
    | inr e ↦ rw (e, first_asleep) (later (first_asleep ps) (first_asleep-Target ps) e)
  ]
    where
      later :
          (o : Option ℕ)
          → Target ps o
          → asleep p ≡ false
          → Target (p ∷ ps) (elim o [ none ↦ none | some k ↦ some (suc k) ])
      later none t e = λ w h. omega (arith, h p e, t w h)
      later (some k) t e = t

  -- Either the thread found sleeps, or no thread does.
  pub signal_target-Target : (ps : List P) (j : ℕ) → Target ps (signal_target ps j)
  unfolding signal_target
  signal_target-Target ps j = from (get_elem? ps j) refl
    where
      from : (o : Option P) → get_elem? ps j ≡ o → Target ps (prefer ps j o)
      from none e = first_asleep-Target ps
      from (some p) e = elim (Bool-cases (asleep p)) [
        | inl a ↦ rw (a, prefer) (p, e, a)
        | inr a ↦ rw (a, prefer) (first_asleep-Target ps)
      ]
