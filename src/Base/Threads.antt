-- ===== src/Base/Threads.antt =====
-- The threads of a program as the list of the places where they stand, and the number of threads
-- at a place: `weigh w ps` adds up a weight over all threads.
use Prim.Native.Nat.{ℕ, zero, suc, ◌+◌, ◌≤◌, ◌<◌}
use mathlib.Core.Path.{◌≡◌, refl, ap}
use mathlib.Core.Logic.{◌≢◌}
use mathlib.Core.List.{List, [], ◌∷◌, ◌++◌}
use mathlib.Core.Option.{some}
use native.Mathlib.Omega.{arith}
use native.Mathlib.Decide.{dec_lt}
use os_net_work_code.Base.Lists.{get_elem?, set, replicate}

module _ {ℓ} {P : Type ℓ} (w : P → ℕ) where
  unfoldable pub weigh : List P → ℕ
  weigh [] = 0
  weigh (p ∷ ps) = w p + weigh ps

  same : (x p : P) → some x ≡ some p → w x ≡ w p
  same x p h = cc

  -- One thread going from `p` to `q` shifts the total by the difference of their weights.
  pub weigh-set :
      (ps : List P) (i : ℕ) (p q : P)
      → get_elem? ps i ≡ some p
      → weigh (set ps i q) + w p ≡ weigh ps + w q
  unfolding weigh
  weigh-set [] i p q h = absurd (cc)
  weigh-set (x ∷ ps) zero p q h = omega (arith, same x p h)
  weigh-set (x ∷ ps) (suc i) p q h = omega (arith, weigh-set ps i p q h)

  pub weigh-ge : (ps : List P) (i : ℕ) (p : P) → get_elem? ps i ≡ some p → w p ≤ weigh ps
  unfolding weigh
  weigh-ge [] i p h = absurd (cc)
  weigh-ge (x ∷ ps) zero p h = omega (arith, same x p h)
  weigh-ge (x ∷ ps) (suc i) p h = omega (arith, weigh-ge ps i p h)

  -- Two different threads both count.
  pub weigh-two :
      (ps : List P) (i j : ℕ) (p q : P)
      → i ≢ j
      → get_elem? ps i ≡ some p
      → get_elem? ps j ≡ some q
      → w p + w q ≤ weigh ps
  unfolding weigh
  weigh-two [] i j p q n h k = absurd (cc)
  weigh-two (x ∷ ps) zero zero p q n h k = absurd (n refl)
  weigh-two (x ∷ ps) zero (suc j) p q n h k = omega (arith, same x p h, weigh-ge ps j q k)
  weigh-two (x ∷ ps) (suc i) zero p q n h k = omega (arith, same x q k, weigh-ge ps i p h)
  weigh-two (x ∷ ps) (suc i) (suc j) p q n h k =
      omega (arith, weigh-two ps i j p q (λ e. n (ap suc e)) h k)

  pub weigh-replicate : (n : ℕ) (p : P) → w p ≡ 0 → weigh (replicate n p) ≡ 0
  unfolding weigh
  weigh-replicate zero p h = refl
  weigh-replicate (suc n) p h = omega (arith, weigh-replicate n p h)

  -- A positive total comes from some thread.
  pub weigh_pos :
      (ps : List P) → 0 < weigh ps → (i : ℕ) × (p : P) × (get_elem? ps i ≡ some p) × (0 < w p)
  unfolding weigh
  weigh_pos [] h = elim h [ ]
  weigh_pos (x ∷ ps) h = elim (dec_lt 0 (w x)) [
    | yes here ↦ (0, x, refl, here)
    | no not_here ↦ let (i, p, e, pos) = weigh_pos ps (omega arith) in (suc i, p, e, pos)
  ]

  -- If no thread counts, the total is zero.
  pub weigh-eq-zero :
      (ps : List P) → ((i : ℕ) (p : P) → get_elem? ps i ≡ some p → w p ≡ 0) → weigh ps ≡ 0
  unfolding weigh
  weigh-eq-zero [] h = refl
  weigh-eq-zero (x ∷ ps) h = omega (arith, h 0 x refl, weigh-eq-zero ps (λ i p e. h (suc i) p e))

  pub weigh-append : (ps qs : List P) → weigh (ps ++ qs) ≡ weigh ps + weigh qs
  unfolding weigh
  weigh-append [] qs = omega arith
  weigh-append (p ∷ ps) qs = omega (arith, weigh-append ps qs)
