-- ===== src/Fifo.antt =====
-- The specification that the queues of the repository share: a first-in first-out queue of at most
-- `cap` items, as an acceptor of traces of completed insertions and removals.
-- (0208/RingQueue/ringQueue.hpp, 0114/BlockQueue.hpp and 0211/threadPool.hpp implement it.)
use os_net_work_code.Base.{
  ℕ, ◌≤◌, ◌<◌, ◌≡◌, List, [], ◌∷◌, ◌++◌, length, arith, append_assoc, append-nil, length-append,
  ◌∙◌, sym, ap, refl,
}

-- What a thread has done to the queue.
pub data Event {ℓ} (A : Type ℓ) : Type ℓ where
  put : A → Event A
  got : A → Event A

module _ {ℓ} {A : Type ℓ} where
  -- The items put, and the items got, in the order of the trace.
  pub puts : List (Event A) → List A
  puts [] = []
  puts (put x ∷ es) = x ∷ puts es
  puts (got x ∷ es) = puts es

  unfoldable pub gots : List (Event A) → List A
  gots [] = []
  gots (put x ∷ es) = gots es
  gots (got x ∷ es) = x ∷ gots es

  pub gots-append : (es fs : List (Event A)) → gots (es ++ fs) ≡ gots es ++ gots fs
  unfolding gots
  gots-append [] fs = refl
  gots-append (put x ∷ es) fs = gots-append es fs
  gots-append (got x ∷ es) fs = ap (◌∷◌ x) (gots-append es fs)

  -- `Steps cap q es q'`: the queue of at most `cap` items may go from `q` to `q'` by `es`.
  pub data Steps (cap : ℕ) : List A → List (Event A) → List A → Type ℓ where
    done : {q : List A} → Steps cap q [] q
    enter :
        {q q' : List A} {es : List (Event A)} (x : A)
        → length q < cap
        → Steps cap (q ++ x ∷ []) es q'
        → Steps cap q (put x ∷ es) q'
    leave :
        {q q' : List A} {es : List (Event A)} (x : A)
        → Steps cap q es q'
        → Steps cap (x ∷ q) (got x ∷ es) q'

  -- What was put is what was got, then what is left, in that order.
  pub Steps-order :
      {cap : ℕ} {q q' : List A} {es : List (Event A)}
      → Steps cap q es q'
      → q ++ puts es ≡ gots es ++ q'
  unfolding puts gots
  Steps-order {q' = q'} done = append-nil q'
  Steps-order {q = q} (enter {es = es} x room s) =
      sym (append_assoc q (x ∷ []) (puts es)) ∙ Steps-order s
  Steps-order (leave x s) = ap (◌∷◌ x) (Steps-order s)

  -- The queue never exceeds its capacity.
  pub Steps-length :
      {cap : ℕ} {q q' : List A} {es : List (Event A)}
      → Steps cap q es q'
      → length q ≤ cap
      → length q' ≤ cap
  Steps-length done h = h
  Steps-length (enter {q} x room s) h = Steps-length s (omega (arith, length-append q (x ∷ [])))
  Steps-length (leave x s) h = Steps-length s (omega arith)

  -- Traces of the bounded queue can be put one behind the other.
  pub Steps-append :
      {cap : ℕ} {q q' q'' : List A} {es fs : List (Event A)}
      → Steps cap q es q'
      → Steps cap q' fs q''
      → Steps cap q (es ++ fs) q''
  Steps-append done t = t
  Steps-append (enter x room s) t = enter x room (Steps-append s t)
  Steps-append (leave x s) t = leave x (Steps-append s t)
