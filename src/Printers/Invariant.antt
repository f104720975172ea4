-- ===== src/Printers/Invariant.antt =====
-- An invariant for the printers of xjh_multi_thread/test1.cc: whose turn it is, and how far they
-- are.
use os_net_work_code.Base.{
  ℕ, zero, suc, ◌+◌, ◌%◌, ◌≤◌, ◌≡◌, refl, sym, Bool, true, false, not, [], ◌∷◌, ◌++◌, arith,
}
use os_net_work_code.Sync.{held}
use os_net_work_code.Printers.Defs.{
  Shared, Pc, locking, checking, sleeping, waking, printing, incrementing, setting, notifying,
  unlocking, finished, wake, Output,
}

abbrev pub bit : Bool → ℕ
bit true = 1
bit false = 0

-- Where a thread holds the mutex.
abbrev pub inside : Pc → ℕ
inside checking = 1
inside printing = 1
inside incrementing = 1
inside setting = 1
inside notifying = 1
inside unlocking = 1
inside p = 0

-- Where it has printed and not yet counted, or not yet passed the turn on.
abbrev pub uncounted : Pc → ℕ
uncounted incrementing = 1
uncounted p = 0

abbrev pub done : Pc → ℕ
done incrementing = 1
done setting = 1
done p = 0

-- Where it must be its turn.
abbrev pub busy : Pc → ℕ
busy printing = 1
busy incrementing = 1
busy setting = 1
busy p = 0

-- Where it has passed the test and is going to print.
abbrev pub passed : Pc → ℕ
passed locking = 1
passed checking = 1
passed sleeping = 1
passed waking = 1
passed printing = 1
passed p = 0

abbrev pub over : Pc → ℕ
over finished = 1
over p = 0

abbrev pub asleep : Pc → ℕ
asleep sleeping = 1
asleep p = 0

abbrev pub notifies : Pc → ℕ
notifies notifying = 1
notifies p = 0

-- The next number at or after `r` that the thread prints which waits for `t`: for 1 the even ones.
abbrev pub next : ℕ → ℕ → ℕ
next t r = r + (r + t + 1) % 2

-- After `r` numbers, for a thread that waits for `t` and stands at `p`, with the other at `q` and
-- `ready` as the number `b`.
pub record Side (n r t u i b : ℕ) (p q : Pc) : Type 0 where
  pub its_turn : busy p ≡ 1 → b ≡ t
  pub its_next : passed p ≡ 1 → next t r ≤ n
  pub its_end : over p ≡ 1 → n ≤ i
  pub its_sleep : asleep p ≡ 1 → notifies q ≡ 0 → b ≡ u

pub record Inv (n r t u : ℕ) (s : Shared) (mine other : Pc) : Type 0 where
  pub exclusive : inside mine + inside other ≡ held s.mtx
  pub counted : r ≡ s.i + uncounted mine + uncounted other
  pub turn : (bit s.ready + r + done mine + done other) % 2 ≡ 1
  pub bound : r ≤ suc n
  pub me : Side n r t u s.i (bit s.ready) mine other
  pub you : Side n r u t s.i (bit s.ready) other mine

pub swap : (n r t u : ℕ) (s : Shared) (a b : Pc) → Inv n r t u s a b → Inv n r u t s b a
swap n r t u s a b inv = record {
  exclusive = omega (arith, inv.exclusive);
  counted = omega (arith, inv.counted);
  turn = omega (arith, inv.turn);
  bound = inv.bound;
  me = inv.you;
  you = inv.me;
}

-- A thread between two turns.
pub Side-idle :
    (n r t u i b : ℕ) (p q : Pc) → busy p + passed p + over p + asleep p ≡ 0 → Side n r t u i b p q
Side-idle n r t u i b p q h = record {
  its_turn = λ e. absurd (omega (arith, h, e));
  its_next = λ e. absurd (omega (arith, h, e));
  its_end = λ e. absurd (omega (arith, h, e));
  its_sleep = λ e k. absurd (omega (arith, h, e));
}

-- The other thread moves on, without having notified.
pub Side-other :
    (n r t u i b : ℕ) (p q q' : Pc) → notifies q ≡ 0 → Side n r t u i b p q → Side n r t u i b p q'
Side-other n r t u i b p q q' h side = record {
  its_turn = side.its_turn;
  its_next = side.its_next;
  its_end = side.its_end;
  its_sleep = λ e k. side.its_sleep e h;
}

-- How the places lie in each other.
pub record Places (p : Pc) : Type 0 where
  pub busy_inside : busy p ≤ inside p
  pub done_busy : done p ≤ busy p
  pub uncounted_done : uncounted p ≤ done p
  pub notifies_inside : notifies p ≤ inside p
  pub inside_one : inside p ≤ 1

pub places : (p : Pc) → Places p
places p = record {
  busy_inside = ground arith;
  done_busy = ground arith;
  uncounted_done = ground arith;
  notifies_inside = ground arith;
  inside_one = ground arith;
}

pub bit-not : (b : Bool) → bit (not b) + bit b ≡ 1
bit-not b = ground arith

pub bit-le-one : (b : Bool) → bit b ≤ 1
bit-le-one b = ground arith

-- `Counts k out r`: the numbers k, ..., r - 1 are printed, the even ones by the thread `t2`.
abbrev pub even : ℕ → Bool
even zero = true
even (suc k) = not (even k)

abbrev pub Counts : ℕ → Output → ℕ → Type 0
Counts k [] r = r ≡ k
Counts k (e ∷ es) r = (e ≡ (even k, k)) × Counts (suc k) es r

pub Counts-append :
    (k r r' : ℕ) (es fs : Output) → Counts k es r → Counts r fs r' → Counts k (es ++ fs) r'
Counts-append k r r' [] fs h j = rw (sym h) j
Counts-append k r r' (e ∷ es) fs h j = (h.0, Counts-append (suc k) r r' es fs h.1 j)

not-not : (b : Bool) → not (not b) ≡ b
not-not true = refl
not-not false = refl

pub even-bit : (k : ℕ) (t : Bool) → (bit t + k) % 2 ≡ 1 → even k ≡ t
even-bit zero t h = ground arith
even-bit (suc k) t h = flip (even k) t (even-bit k (not t) (omega (arith, h, bit-not t)))
  where
    flip : (a b : Bool) → a ≡ not b → not a ≡ b
    flip a b e = rw (e) (not-not b)

pub record Woken (p : Pc) : Type 0 where
  pub inside_same : inside (wake p) ≡ inside p
  pub uncounted_same : uncounted (wake p) ≡ uncounted p
  pub done_same : done (wake p) ≡ done p
  pub busy_same : busy (wake p) ≡ busy p
  pub passed_same : passed (wake p) ≡ passed p
  pub over_same : over (wake p) ≡ over p
  pub notifies_same : notifies (wake p) ≡ notifies p
  pub awake : asleep (wake p) ≡ 0

pub woken : (p : Pc) → Woken p
unfolding wake
woken p = record {
  inside_same = ground arith;
  uncounted_same = ground arith;
  done_same = ground arith;
  busy_same = ground arith;
  passed_same = ground arith;
  over_same = ground arith;
  notifies_same = ground arith;
  awake = ground arith;
}

-- The invariant for the thread that waits for `t`.
abbrev pub At : ℕ → ℕ → Bool → Shared → Pc → Pc → Type 0
At n r t s mine other = Inv n r (bit t) (bit (not t)) s mine other

pub wake-Inv :
    (n r t u : ℕ) (s : Shared) (mine other : Pc)
    → Inv n r t u s mine other
    → Inv n r t u s mine (wake other)
wake-Inv n r t u s mine other inv =
    let w = woken other in
    record {
      exclusive = omega (arith, inv.exclusive, w);
      counted = omega (arith, inv.counted, w);
      turn = omega (arith, inv.turn, w);
      bound = inv.bound;
      me = record {
        its_turn = inv.me.its_turn;
        its_next = inv.me.its_next;
        its_end = inv.me.its_end;
        its_sleep = λ a b. inv.me.its_sleep a (omega (arith, b, w));
      };
      you = record {
        its_turn = λ b. inv.you.its_turn (omega (arith, b, w));
        its_next = λ b. inv.you.its_next (omega (arith, b, w));
        its_end = λ b. inv.you.its_end (omega (arith, b, w));
        its_sleep = λ a b. absurd (omega (arith, a, w));
      };
    }
