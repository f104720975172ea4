-- ===== src/Shell/Words.antt =====
-- How `main` of 1017/shell/myshell.c takes a command apart with `strtok`, into an array of 32
-- places.
use os_net_work_code.Base.{
  ℕ, zero, suc, ◌+◌, ◌≤◌, ◌<◌, ◌≡◌, ◌⊎◌, refl, sym, ap, ap₂, ◌∙◌, false, Bool-cases, Option, none,
  some, List, [], ◌∷◌, ◌++◌, append_assoc, append-nil, length, length-append, if◌then◌else◌, ltb,
  ◌==◌, arith, inl, inr,
}

abbrev pub size : ℕ
size = 32

-- The library's `strtok(s, " ")` on the text that is left: spaces are skipped, and the token ends
-- at the next space, which is used up, or with the text.
abbrev skip : List ℕ → List ℕ
skip [] = []
skip (c ∷ s) = let rest = skip s in if c == b' ' then rest else c ∷ s

abbrev token : List ℕ → List ℕ × List ℕ
token [] = ([], [])
token (c ∷ s) = let (t, r) = token s in if c == b' ' then ([], s) else (c ∷ t, r)

abbrev from_start : List ℕ → Option (List ℕ × List ℕ)
from_start [] = none
from_start (c ∷ s) = some (token (c ∷ s))

unfoldable pub strtok : List ℕ → Option (List ℕ × List ℕ)
strtok s = from_start (skip s)

-- The array, its fill before `idx`, or what goes wrong: a store behind its end, or no fuel.
pub data Filled : Type 0 where
  filled : List (List ℕ) → Filled
  overflow : Filled
  no_fuel : Filled

-- `while(g_argv[idx++] = strtok(NULL,SEP));` with `argv` before `idx`; the last store is the NULL.
unfoldable pub collect : ℕ → List ℕ → List (List ℕ) → Filled
collect zero s argv = no_fuel
collect (suc fuel) s argv =
    if ltb (length argv) size
    then elim (strtok s) [ none ↦ filled argv | some (t, r) ↦ collect fuel r (argv ++ t ∷ []) ]
    else overflow

-- The words of a text: what stands between spaces, without the empty ones.
unfoldable pub close_word : List ℕ → List (List ℕ)
close_word [] = []
close_word (c ∷ cs) = (c ∷ cs) ∷ []

unfoldable pub words_from : List ℕ → List ℕ → List (List ℕ)
words_from word [] = close_word word
words_from word (c ∷ s) =
    let here = close_word word ++ words_from [] s in
    let on = words_from (word ++ c ∷ []) s in if c == b' ' then here else on

unfoldable pub words : List ℕ → List (List ℕ)
words s = words_from [] s

words-skip : (s : List ℕ) → words (skip s) ≡ words s
unfolding words words_from close_word
words-skip [] = refl
words-skip (c ∷ s) = ground (arith, words-skip s)

words_from-token :
    (word s : List ℕ) → words_from word s ≡ close_word (word ++ (token s).0) ++ words (token s).1
unfolding words words_from
words_from-token word [] =
    unfold close_word in rw (append-nil word, append-nil (close_word word)) refl
words_from-token word (c ∷ s) = ground (
  arith,
  append-nil word,
  append_assoc word (c ∷ []) (token s).0,
  words_from-token (word ++ c ∷ []) s,
)

length-token : (s : List ℕ) → length (token s).1 ≤ length s
length-token [] = omega arith
length-token (c ∷ s) = ground (arith, length-token s)

length-skip : (s : List ℕ) → length (skip s) ≤ length s
length-skip [] = omega arith
length-skip (c ∷ s) = ground (arith, length-skip s)

skip-head : (s : List ℕ) (c : ℕ) (r : List ℕ) → skip s ≡ c ∷ r → (c == b' ') ≡ false
skip-head [] c r h = absurd (cc)
skip-head (d ∷ s) c r h = ground (arith, skip-head s c r)

List-cases : (s : List ℕ) → (s ≡ []) ⊎ ((c : ℕ) × (r : List ℕ) × (s ≡ c ∷ r))
List-cases [] = inl refl
List-cases (c ∷ r) = inr (c, r, refl)

-- What one call of `strtok` leaves.
pub strtok-words :
    (s : List ℕ)
    → ((strtok s ≡ none) × (words s ≡ []))
      ⊎ ((t r : List ℕ) × (strtok s ≡ some (t, r))
          × (words s ≡ t ∷ words r)
          × (length r < length s))
unfolding strtok words words_from close_word
strtok-words s = elim (List-cases (skip s)) [
  | inl e ↦ inl (rw (e) refl, sym (words-skip s) ∙ ap words e)
  | inr (c, r, e) ↦
      let other = skip-head s c r e in
      inr (
        c ∷ (token r).0,
        (token r).1,
        rw (e, other, if◌then◌else◌) refl,
        sym (words-skip s)
            ∙ ap words e
            ∙ rw (words, words_from, other, if◌then◌else◌) (words_from-token (c ∷ []) r),
        omega (arith, length-token r, length-skip s, ap length e),
      )
]

ltb-false_more : (a b k : ℕ) → ltb a k ≡ false → ltb (a + b) k ≡ false
ltb-false_more a b k h = ground arith

-- With more fuel than the text has characters, the array is filled with the words of the text, in
-- order, behind what stands there, if they and the NULL behind them fit into its 32 places;
-- otherwise the last store is behind its end.
pub collect_lem :
    (fuel : ℕ) (s : List ℕ) (argv : List (List ℕ))
    → length s < fuel
    → collect fuel s argv
      ≡ (if ltb (length argv + length (words s)) size then filled (argv ++ words s) else overflow)
unfolding collect
collect_lem zero s argv h = absurd (omega (arith, h))
collect_lem (suc fuel) s argv h = elim (strtok-words s) [
  | inl (e, w) ↦
      rw (e, w, append-nil argv) (ap (λ n. if ltb n size then filled argv else overflow) none_more)
  | inr (t, r, e, w, l) ↦ elim (Bool-cases (ltb (length argv) size)) [
    | inl y ↦
        rw (y, if◌then◌else◌, e, collect_lem fuel r (argv ++ t ∷ []) (omega (arith, h, l)))
          (ap₂ (λ n l. if ltb n size then filled l else overflow) (counts t r w)
            (append_assoc argv (t ∷ []) (words r) ∙ ap (λ l. argv ++ l) (sym w)))
    | inr n ↦ rw (n, ltb-false_more (length argv) (length (words s)) size n, if◌then◌else◌) refl
  ]
]
  where
    none_more : length argv ≡ length argv + 0
    none_more = omega arith

    counts :
        (t r : List ℕ)
        → words s ≡ t ∷ words r
        → length (argv ++ t ∷ []) + length (words r) ≡ length argv + length (words s)
    counts t r w = omega (arith, ap length w, length-append argv (t ∷ []))
