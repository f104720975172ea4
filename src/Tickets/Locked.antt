-- ===== src/Tickets/Locked.antt =====
-- `getTickets` of 0112/mythread1.cc: the counter is tested, printed and decremented under a mutex.
use os_net_work_code.Base.{
  ℕ, zero, suc, ◌+◌, ◌≤◌, ◌≡◌, sym, none, some, List, [], ◌∷◌, ◌++◌, get_elem?, set, replicate,
  if◌then◌else◌, ◌⊎◌,
}
use os_net_work_code.Base.Int.{ℤ, pos, pred_ℤ, positive_ℤ}
use os_net_work_code.Base.Threads.{weigh, weigh-set}
use os_net_work_code.Sync.{Mutex, unlocked, lock, unlock, held}

-- The global counter and the mutex that every thread is given.
pub record Shop : Type 0 where
  pub tickets : ℤ
  pub mtx : Mutex

-- Where a thread stands: before the named action of its loop.
pub data Pc : Type 0 where
  locking : Pc  -- pthread_mutex_lock(td->pmtx)
  testing : Pc  -- if (tickets > 0)
  printing : Pc  -- printf("%p: %d\n", pthread_self(), tickets)
  selling : Pc  -- tickets--
  unlocking : Pc  -- pthread_mutex_unlock(td->pmtx), and round the loop
  leaving : Pc  -- pthread_mutex_unlock(td->pmtx), and break
  finished : Pc

-- The shop, the place of the thread, and the numbers that it has printed.
abbrev pub Outcome : Type 0
Outcome = Shop × Pc × List ℤ

-- The next action of a thread.
unfoldable pub get_tickets : Shop → Pc → Outcome
get_tickets s locking = elim (lock s.mtx) [
  | none ↦ (s, locking, [])
  | some m ↦ (record s { mtx = m }, testing, [])
]
get_tickets s testing = if positive_ℤ s.tickets then (s, printing, []) else (s, leaving, [])
get_tickets s printing = (s, selling, s.tickets ∷ [])
get_tickets s selling = (record s { tickets = pred_ℤ s.tickets }, unlocking, [])
get_tickets s unlocking = (record s { mtx = unlock s.mtx }, locking, [])
get_tickets s leaving = (record s { mtx = unlock s.mtx }, finished, [])
get_tickets s finished = (s, finished, [])

pub record System : Type 0 where
  pub shop : Shop
  pub threads : List Pc

-- `main`, with `k` tickets and `n` threads; the source has 10000 and 5.
unfoldable pub start : ℕ → ℕ → System
start k n = record {
  shop = record { tickets = pos k; mtx = unlocked };
  threads = replicate n locking;
}

abbrev pub put_back : System → ℕ → Outcome → System × List ℤ
put_back s i (shop, p, out) = (record { shop = shop; threads = set s.threads i p }, out)

unfoldable pub step : System → ℕ → System × List ℤ
step s i = elim (get_elem? s.threads i) [
  | none ↦ (s, [])
  | some p ↦ put_back s i (get_tickets s.shop p)
]

-- The threads in the order of the schedule, with all that was printed.
unfoldable pub exec : System → List ℕ → System × List ℤ
exec s [] = (s, [])
exec s (i ∷ is) = let (t, out) = step s i in let (u, rest) = exec t is in (u, out ++ rest)

-- `Sold k es r`: the numbers printed are k, k - 1, ..., r + 1.
abbrev pub Sold : ℕ → List ℤ → ℕ → Type 0
Sold k [] r = r ≡ k
Sold zero (e ∷ es) r = ⊥
Sold (suc k) (e ∷ es) r = (e ≡ pos (suc k)) × Sold k es r

pub Sold-append : (k r r' : ℕ) (es fs : List ℤ) → Sold k es r → Sold r fs r' → Sold k (es ++ fs) r'
Sold-append k r r' [] fs h j = rw (sym h) j
Sold-append zero r r' (e ∷ es) fs h j = absurd h
Sold-append (suc k) r r' (e ∷ es) fs h j = (h.0, Sold-append k r r' es fs h.1 j)

abbrev pub at_selling : Pc → ℕ
at_selling selling = 1
at_selling p = 0

abbrev pub at_printing : Pc → ℕ
at_printing printing = 1
at_printing p = 0

abbrev pub elsewhere_inside : Pc → ℕ
elsewhere_inside testing = 1
elsewhere_inside unlocking = 1
elsewhere_inside leaving = 1
elsewhere_inside p = 0

abbrev pub over : Pc → ℕ
over leaving = 1
over finished = 1
over p = 0

-- `r` tickets have not been printed yet.
pub record Inv (r : ℕ) (s : Shop) (ps : List Pc) : Type 0 where
  pub held_by : held s.mtx ≡ weigh at_printing ps + weigh at_selling ps + weigh elsewhere_inside ps
  pub stock : s.tickets ≡ pos (r + weigh at_selling ps)
  pub enough : weigh at_printing ps ≤ r
  pub sold_out : (weigh over ps ≡ 0) ⊎ (r + weigh at_selling ps ≡ 0)

pub record Shift (ps : List Pc) (i : ℕ) (p p' : Pc) : Type 0 where
  pub selling_moved :
      weigh at_selling (set ps i p') + at_selling p ≡ weigh at_selling ps + at_selling p'
  pub printing_moved :
      weigh at_printing (set ps i p') + at_printing p ≡ weigh at_printing ps + at_printing p'
  pub inside_moved :
      weigh elsewhere_inside (set ps i p') + elsewhere_inside p
      ≡ weigh elsewhere_inside ps + elsewhere_inside p'
  pub over_moved : weigh over (set ps i p') + over p ≡ weigh over ps + over p'

pub shift : (ps : List Pc) (i : ℕ) (p p' : Pc) → get_elem? ps i ≡ some p → Shift ps i p p'
shift ps i p p' e = record {
  selling_moved = weigh-set at_selling ps i p p' e;
  printing_moved = weigh-set at_printing ps i p p' e;
  inside_moved = weigh-set elsewhere_inside ps i p p' e;
  over_moved = weigh-set over ps i p p' e;
}

-- What an action has printed continues the countdown.
abbrev pub Kept : ℕ → System × List ℤ → Type 0
Kept r (t, out) = (r' : ℕ) × Sold r out r' × Inv r' t.shop t.threads
