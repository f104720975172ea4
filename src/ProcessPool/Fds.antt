-- ===== src/ProcessPool/Fds.antt =====
-- The file descriptors of parent and children of 1119/processPool/ProcessPool.hpp.
use os_net_work_code.Base.{
  ℕ, zero, suc, ◌+◌, ◌-◌, ◌≤◌, ◌<◌, ◌≡◌, refl, ap, ◌∙◌, Bool, true, false, List, [], ◌∷◌, take,
  if◌then◌else◌, ◌==◌, ==_iff, dec_lt, ◌↔◌, arith,
}

-- The two ends of pipe `i`, the one of the child `i`.
pub data End : Type 0 where
  read_end write_end : ℕ → End

unfoldable pub same_end : End → End → Bool
same_end (read_end i) (read_end j) = i == j
same_end (read_end i) (write_end j) = false
same_end (write_end i) (read_end j) = false
same_end (write_end i) (write_end j) = i == j

-- `close` in one process, given the ends that it holds.
unfoldable pub close : End → List End → List End
close e [] = []
close e (f ∷ fs) = let rest = close e fs in if same_end e f then rest else f ∷ rest

-- The ends that the parent holds after the loop, and those of each child.
pub record Pool : Type 0 where
  pub parent : List End
  pub children : List (List End)

-- The loop of `StartThePool`, for `n` further children from child `i` on: a pipe is made, `fork`
-- copies the open ends, the child closes its write end and the parent its read end.
unfoldable pub start_the_pool : ℕ → ℕ → List End → Pool
start_the_pool zero i parent = record { parent = parent; children = [] }
start_the_pool (suc n) i parent =
    let opened = read_end i ∷ write_end i ∷ parent in
    let rest = start_the_pool n (suc i) (close (read_end i) opened) in
    record { parent = rest.parent; children = close (write_end i) opened ∷ rest.children }

-- 1 if a process holds the end, else 0.
unfoldable pub holds : End → List End → ℕ
holds e [] = 0
holds e (f ∷ fs) = let rest = holds e fs in if same_end e f then 1 else rest

-- How many of the processes hold the end.
unfoldable pub holders : End → List (List End) → ℕ
holders e [] = 0
holders e (p ∷ ps) = holds e p + holders e ps

-- The write ends of the pipes below `i`.
abbrev pub writes : ℕ → List End
writes zero = []
writes (suc i) = write_end i ∷ writes i

abbrev family : ℕ → ℕ → List (List End)
family i zero = []
family i (suc n) = (read_end i ∷ writes i) ∷ family (suc i) n

eq_self : (i : ℕ) → (i == i) ≡ true
eq_self i = (==_iff i i).1 refl

eq_above : (i j : ℕ) → j < i → (i == j) ≡ false
eq_above i j h = ground arith

close-writes : (i j : ℕ) → j ≤ i → close (write_end i) (writes j) ≡ writes j
unfolding close same_end
close-writes i zero h = refl
close-writes i (suc j) h =
    rw (eq_above i j (omega (arith, h)), if◌then◌else◌)
      (ap (λ t. write_end j ∷ t) (close-writes i j (omega (arith, h))))

close_read-writes : (i j : ℕ) → close (read_end i) (writes j) ≡ writes j
unfolding close same_end
close_read-writes i zero = refl
close_read-writes i (suc j) = ap (λ t. write_end j ∷ t) (close_read-writes i j)

-- From a parent with the write ends below `i`.
start-family :
    (n i : ℕ)
    → start_the_pool n i (writes i) ≡ record { parent = writes (i + n); children = family i n }
unfolding start_the_pool close same_end
start-family zero i = ap (λ j. record { parent = writes j; children = [] }) none_added
  where
    none_added : i ≡ i + 0
    none_added = omega arith
start-family (suc n) i =
    rw
      (
        eq_self i,
        if◌then◌else◌,
        close-writes i i (omega arith),
        close_read-writes i i,
        start-family n (suc i),
      )
      (ap (λ j. record { parent = writes j; children = (read_end i ∷ writes i) ∷ family (suc i) n })
        one_more)
  where
    one_more : suc i + n ≡ i + suc n
    one_more = omega arith

holds-writes : (k i : ℕ) → k < i → holds (write_end k) (writes i) ≡ 1
unfolding holds same_end
holds-writes k zero h = absurd (omega (arith, h))
holds-writes k (suc i) h = ground (arith, holds-writes k i)

lacks-writes : (k i : ℕ) → i ≤ k → holds (write_end k) (writes i) ≡ 0
unfolding holds same_end
lacks-writes k zero h = refl
lacks-writes k (suc i) h = ground (arith, lacks-writes k i)

holders_after : (k i m : ℕ) → k < i → holders (write_end k) (family i m) ≡ m
unfolding holders holds same_end
holders_after k i zero h = refl
holders_after k i (suc m) h =
    omega (arith, holds-writes k i h, holders_after k (suc i) m (omega (arith, h)))

holders_before : (k i m : ℕ) → i ≤ k → holders (write_end k) (family i m) ≡ (i + m) - 1 - k
unfolding holders holds same_end
holders_before k i zero h = omega (arith, h)
holders_before k i (suc m) h = elim (dec_lt i k) [
  | yes below ↦ omega (arith, lacks-writes k i h, holders_before k (suc i) m (omega (arith, below)))
  | no at ↦
      omega (arith, h, at, lacks-writes k i h, holders_after k (suc i) m (omega (arith, h, at)))
]

take-family : (m n i : ℕ) → m ≤ n → take m (family i n) ≡ family i m
take-family zero zero i h = refl
take-family zero (suc n) i h = refl
take-family (suc m) zero i h = absurd (omega (arith, h))
take-family (suc m) (suc n) i h =
    ap (λ t. (read_end i ∷ writes i) ∷ t) (take-family m n (suc i) (omega (arith, h)))

-- The pool of `n` children is left with more open ends than it needs: the parent holds the write
-- ends of all pipes, as it should, but child `k` has also inherited the write ends of the pipes
-- before its own. Among the first `m` children, which are those still there when the others have
-- exited from the last one down, the write end of pipe `k` is held by those after `k`. So
-- once the parent has closed its ends, the last of them is the only child whose pipe is at its end.
pub pool_fds :
    (n m k : ℕ)
    → m ≤ n
    → k < m
    → ((start_the_pool n 0 []).parent ≡ writes n)
      × (holders (write_end k) (take m (start_the_pool n 0 []).children) ≡ m - 1 - k)
      × ((holders (write_end k) (take m (start_the_pool n 0 []).children) ≡ 0) ↔ (suc k ≡ m))
pool_fds n m k fits below = (
  ap (λ p. p.parent) (start-family n 0) ∙ ap writes no_offset,
  count,
  (λ h. omega (arith, h, count, below), λ h. omega (arith, h, count)),
)
  where
    no_offset : 0 + n ≡ n
    no_offset = omega arith

    count : holders (write_end k) (take m (start_the_pool n 0 []).children) ≡ m - 1 - k
    count =
        rw (start-family n 0, take-family m n 0 fits)
          (omega (arith, holders_before k 0 m (omega arith)))
