-- ===== src/Base/Tabulate.antt =====
-- Lists that a function gives.
use os_net_work_code.Base.{
  ℕ, zero, suc, ◌<◌, ◌≡◌, ◌≢◌, refl, ap, some, List, [], ◌∷◌, get_elem?, set, arith,
}

-- The list of what a function gives below a number.
unfoldable pub tabulate {ℓ} : {A : Type ℓ} → ℕ → (ℕ → A) → List A
tabulate zero f = []
tabulate (suc n) f = f 0 ∷ tabulate n (λ k. f (suc k))

module _ {ℓ} {A : Type ℓ} where
  pub get_elem?-tabulate :
      (n : ℕ) (f : ℕ → A) (k : ℕ) → k < n → get_elem? (tabulate n f) k ≡ some (f k)
  unfolding tabulate
  get_elem?-tabulate zero f k h = absurd (omega (arith, h))
  get_elem?-tabulate (suc n) f zero h = refl
  get_elem?-tabulate (suc n) f (suc k) h =
      get_elem?-tabulate n (λ k. f (suc k)) k (omega (arith, h))

  pub tabulate_ext :
      (n : ℕ) (f g : ℕ → A) → ((k : ℕ) → k < n → f k ≡ g k) → tabulate n f ≡ tabulate n g
  unfolding tabulate
  tabulate_ext zero f g h = refl
  tabulate_ext (suc n) f g h = rw (h 0 (omega arith)) (
      ap (λ l. g 0 ∷ l)
        (tabulate_ext n (λ k. f (suc k)) (λ k. g (suc k)) (λ k lt. h (suc k) (omega (arith, lt)))))

  -- A place that is set is another function there.
  pub set-tabulate :
      (n : ℕ) (f g : ℕ → A) (i : ℕ)
      → ((k : ℕ) → k ≢ i → f k ≡ g k)
      → set (tabulate n f) i (g i) ≡ tabulate n g
  unfolding tabulate
  set-tabulate zero f g i h = refl
  set-tabulate (suc n) f g zero h =
      ap (λ l. g 0 ∷ l)
        (tabulate_ext n (λ k. f (suc k)) (λ k. g (suc k)) (λ k lt. h (suc k) (omega arith)))
  set-tabulate (suc n) f g (suc i) h = rw (h 0 (omega arith)) (
      ap (λ l. g 0 ∷ l)
        (set-tabulate n (λ k. f (suc k)) (λ k. g (suc k)) i
          (λ k ne. h (suc k) (omega (arith, ne)))))
