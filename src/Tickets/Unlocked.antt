-- ===== src/Tickets/Unlocked.antt =====
-- `getTickets` of 0110/mythread.cc: three threads test, print and decrement one counter with no
-- lock. The decrement is a load and a store.
use os_net_work_code.Base.{
  ℕ, zero, suc, ◌≡◌, refl, none, some, List, [], ◌∷◌, ◌++◌, get_elem?, set, replicate,
  if◌then◌else◌,
}
use os_net_work_code.Base.Int.{ℤ, pos, negsuc, pred_ℤ, positive_ℤ}

-- Where a thread stands: before the named action of its loop.
pub data Pc : Type 0 where
  testing : Pc  -- if (tickets > 0)
  printing : Pc  -- printf("%p: %d\n", pthread_self(), tickets)
  loading : Pc  -- tickets--, the load
  storing : ℤ → Pc  -- tickets--, the store
  finished : Pc

-- The counter, the place of the thread, and the numbers that it has printed.
abbrev pub Outcome : Type 0
Outcome = ℤ × Pc × List ℤ

-- The next action of a thread.
unfoldable pub get_tickets : ℤ → Pc → Outcome
get_tickets tickets testing =
    if positive_ℤ tickets then (tickets, printing, []) else (tickets, finished, [])
get_tickets tickets printing = (tickets, loading, tickets ∷ [])
get_tickets tickets loading = (tickets, storing (pred_ℤ tickets), [])
get_tickets tickets (storing v) = (v, testing, [])
get_tickets tickets finished = (tickets, finished, [])

pub record System : Type 0 where
  pub tickets : ℤ
  pub threads : List Pc

-- `main`, with `k` tickets and `n` threads; the source has 10000 and 3.
unfoldable pub start : ℕ → ℕ → System
start k n = record { tickets = pos k; threads = replicate n testing }

abbrev pub put_back : System → ℕ → Outcome → System × List ℤ
put_back s i (v, p, out) = (record { tickets = v; threads = set s.threads i p }, out)

unfoldable pub step : System → ℕ → System × List ℤ
step s i = elim (get_elem? s.threads i) [
  | none ↦ (s, [])
  | some p ↦ put_back s i (get_tickets s.tickets p)
]

-- The threads in the order of the schedule, with all that was printed.
unfoldable pub exec : System → List ℕ → System × List ℤ
exec s [] = (s, [])
exec s (i ∷ is) = let (t, out) = step s i in let (u, rest) = exec t is in (u, out ++ rest)

-- The tickets k, k - 1, ..., 1.
abbrev pub down : ℕ → List ℤ
down zero = []
down (suc k) = pos (suc k) ∷ down k

-- Thread 0 sells `k` tickets by itself, and then both threads pass the test for the last one.
abbrev pub race_at_the_end : ℕ → List ℕ
race_at_the_end zero = 0 ∷ 1 ∷ 0 ∷ 0 ∷ 0 ∷ 1 ∷ 1 ∷ 1 ∷ []
race_at_the_end (suc k) = 0 ∷ 0 ∷ 0 ∷ 0 ∷ race_at_the_end k

-- Without a lock two threads oversell every stock: for any number of tickets above 0 there is a
-- schedule under which all of them are sold, a ticket with the number 0 is sold as well, and the
-- counter ends at -1.
pub oversold :
    (k : ℕ)
    → exec (start (suc k) 2) (race_at_the_end k) ≡ (
      record { tickets = negsuc 0; threads = testing ∷ testing ∷ [] },
      down (suc k) ++ pos 0 ∷ [],
    )
unfolding exec step start get_tickets
oversold zero = refl
oversold (suc k) = let ih = oversold k in λ i. ((ih i).0, pos (suc (suc k)) ∷ (ih i).1)
