-- ===== src/Log/Bytes.antt =====
-- Lines, and what stands before a byte, for reading a log (0211/Log.hpp).
use os_net_work_code.Base.{
  ℕ, zero, suc, ◌+◌, ◌/◌, ◌%◌, ◌≤◌, ◌<◌, ◌≡◌, ◌≢◌, refl, ap, Bool-cases, List, [], ◌∷◌, ◌++◌,
  length, take, if◌then◌else◌, ltb, ◌==◌, ==_iff, ne→==_false, arith, inl, inr, ◌⊎◌,
}
use os_net_work_code.Buffer.{c_string}
use os_net_work_code.Udp.Key.{digits}

-- The byte does not occur.
abbrev pub Lacks : ℕ → List ℕ → Type 0
Lacks c [] = Unit {0}
Lacks c (d ∷ s) = (d ≢ c) × Lacks c s

-- The lines of a text; what stands behind the last newline is the last line.
unfoldable pub onto_first : ℕ → List (List ℕ) → List (List ℕ)
onto_first c [] = (c ∷ []) ∷ []
onto_first c (l ∷ ls) = (c ∷ l) ∷ ls

unfoldable pub lines : List ℕ → List (List ℕ)
lines [] = []
lines (c ∷ s) = let rest = lines s in if c == 10 then [] ∷ rest else onto_first c rest

-- What stands before the first `c`, and behind it.
unfoldable pub until : ℕ → List ℕ → List ℕ × List ℕ
until c [] = ([], [])
until c (d ∷ s) = let (before, after) = until c s in if d == c then ([], s) else (d ∷ before, after)

pub Lacks-append : (c : ℕ) (s t : List ℕ) → Lacks c s → Lacks c t → Lacks c (s ++ t)
Lacks-append c [] t h k = k
Lacks-append c (d ∷ s) t h k = (h.0, Lacks-append c s t h.1 k)

pub Lacks-digits : (fuel n c : ℕ) → (c < 48) ⊎ (57 < c) → Lacks c (digits fuel n)
unfolding digits
Lacks-digits zero n c h = tt
Lacks-digits (suc fuel) n c h = elim (Bool-cases (ltb n 10)) [
  | inl y ↦ rw (y, if◌then◌else◌) ((λ e. ground (arith, y)), tt)
  | inr e ↦
      rw (e, if◌then◌else◌)
        (Lacks-append c (digits fuel (n / 10)) ((48 + n % 10) ∷ []) (Lacks-digits fuel (n / 10) c h)
          ((λ e. ground arith), tt))
]

pub c_string-Lacks : (s : List ℕ) → Lacks 0 s → c_string s ≡ s
unfolding c_string
c_string-Lacks [] h = refl
c_string-Lacks (d ∷ s) h =
    rw (ne→==_false d 0 h.0, if◌then◌else◌) (ap (λ t. d ∷ t) (c_string-Lacks s h.1))

pub until-Lacks : (c : ℕ) (s t : List ℕ) → Lacks c s → until c (s ++ c ∷ t) ≡ (s, t)
unfolding until
until-Lacks c [] t h = rw ((==_iff c c).1 refl, if◌then◌else◌) refl
until-Lacks c (d ∷ s) t h = rw (until-Lacks c s t h.1, ne→==_false d c h.0, if◌then◌else◌) refl

pub lines-Lacks : (s t : List ℕ) → Lacks 10 s → lines (s ++ 10 ∷ t) ≡ s ∷ lines t
unfolding lines onto_first
lines-Lacks [] t h = refl
lines-Lacks (d ∷ s) t h =
    rw (lines-Lacks s t h.1, ne→==_false d 10 h.0, if◌then◌else◌, onto_first) refl

pub take-short : (n : ℕ) (s : List ℕ) → length s ≤ n → take n s ≡ s
take-short zero [] h = refl
take-short zero (c ∷ s) h = absurd (omega (arith, h))
take-short (suc n) [] h = refl
take-short (suc n) (c ∷ s) h = ap (λ t. c ∷ t) (take-short n s (omega (arith, h)))
