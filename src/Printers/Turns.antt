-- ===== src/Printers/Turns.antt =====
-- Schedules of the printers of xjh_multi_thread/test1.cc.
use os_net_work_code.Base.{
  ℕ, suc, ◌+◌, ◌≤◌, ◌≡◌, refl, ap, ◌⊎◌, true, false, List, [], ◌∷◌, arith, inl, inr, dec_lt,
}
use os_net_work_code.Sync.{held}
use os_net_work_code.Printers.Defs.{
  Shared, Pc, locking, waking, finished, wake, System, start, Event, run, spurious, Output, step,
  exec, act, notified,
}
use os_net_work_code.Printers.Invariant.{
  places, wake-Inv, swap, Side-idle, Counts, Counts-append, At, Inv, over, asleep, inside, notifies,
  done, uncounted, passed,
}
use os_net_work_code.Printers.Moves.{act-Kept}

abbrev Reached : ℕ → ℕ → System → Type 0
Reached n r s = At n r true s.shared s.t2 s.t1

abbrev KeptBy : ℕ → ℕ → System × Output → Type 0
KeptBy n r (s, out) = (r' : ℕ) × Counts r out r' × Reached n r' s

start-Reached : (n : ℕ) → Reached n 0 start
unfolding start
start-Reached n = record {
  exclusive = omega arith;
  counted = omega arith;
  turn = omega arith;
  bound = omega arith;
  me = Side-idle n 0 1 0 0 1 Pc.testing Pc.testing (omega arith);
  you = Side-idle n 0 0 1 0 1 Pc.testing Pc.testing (omega arith);
}

step-KeptBy : (n r : ℕ) (s : System) (e : Event) → Reached n r s → KeptBy n r (step n s e)
unfolding step
step-KeptBy n r s (run true) inv = act-Kept n r true s.shared s.t1 s.t2 inv
step-KeptBy n r s (run false) inv =
    let (r', counts, kept) =
      act-Kept n r false s.shared s.t2 s.t1 (swap n r 1 0 s.shared s.t2 s.t1 inv) in
    let (shared, p, nt, out) = act n false s.shared s.t1 in
    (r', counts, swap n r' 0 1 shared p (notified nt s.t2) kept)
step-KeptBy n r s (spurious true) inv = (
  r,
  refl,
  swap n r 0 1 s.shared s.t1 (wake s.t2)
      (wake-Inv n r 0 1 s.shared s.t1 s.t2 (swap n r 1 0 s.shared s.t2 s.t1 inv)),
)
step-KeptBy n r s (spurious false) inv = (r, refl, wake-Inv n r 1 0 s.shared s.t2 s.t1 inv)

exec-KeptBy : (n r : ℕ) (s : System) (es : List Event) → Reached n r s → KeptBy n r (exec n s es)
unfolding exec
exec-KeptBy n r s [] inv = (r, refl, inv)
exec-KeptBy n r s (e ∷ es) inv =
    let (r', first, kept) = step-KeptBy n r s e inv in
    let (r'', others, end) = exec-KeptBy n r' (step n s e).0 es kept in
    (r'', Counts-append r r' r'' (step n s e).1 (exec n (step n s e).0 es).1 first others, end)

-- Whatever the schedule, and however often `cv.wait` wakes up for no reason, the threads print 0,
-- 1, 2, ... in order, the even numbers by `t2` and the odd ones by `t1`. The last number is at most
-- n, which is not below the limit of the loops; when both threads have ended it is at least n - 1.
pub prints_in_turn :
    (n : ℕ) (es : List Event)
    → (r : ℕ) × Counts 0 (exec n start es).1 r
      × (r ≤ suc n)
      × ((exec n start es).0.t1 ≡ finished → (exec n start es).0.t2 ≡ finished → n ≤ r)
prints_in_turn n es =
    let (r, counts, inv) = exec-KeptBy n 0 start es (start-Reached n) in
    (r, counts, inv.bound, λ a b. omega (arith, inv.counted, inv.you.its_end (ap over a)))

abbrev needs_lock : Pc → ℕ
needs_lock locking = 1
needs_lock waking = 1
needs_lock p = 0

-- The thread has an action to take that does not block.
abbrev pub Runs : Shared → Pc → Type 0
Runs s p = (over p + asleep p ≡ 0) × (needs_lock p ≡ 1 → held s.mtx ≡ 0)

inside-Runs : (s : Shared) (p : Pc) → inside p ≡ 1 → Runs s p
inside-Runs s p h = (ground (arith, h), ground (arith, h))

abbrev Resting : Pc → Type 0
Resting p =
    (over p + asleep p ≡ 1) × (notifies p + done p + uncounted p ≡ 0) × (asleep p ≡ passed p)

rests : (p : Pc) → over p + asleep p ≡ 1 → Resting p
rests p h = (h, ground (arith, h), ground (arith, h))

-- Nobody sleeps while the other sleeps or has ended.
no_sleeper :
    (n r t u : ℕ) (s : Shared) (p q : Pc)
    → t + u ≡ 1
    → Inv n r t u s p q
    → Resting p
    → Resting q
    → asleep p ≡ 0
no_sleeper n r t u s p q opposite inv a b = elim (dec_lt 0 (asleep p)) [
  | no awake ↦ omega (arith, awake)
  | yes sleeps ↦
      let its = inv.me.its_sleep (omega (arith, sleeps, a)) (omega (arith, b)) in
      let more = inv.me.its_next (omega (arith, sleeps, a)) in
      elim (dec_lt 0 (asleep q)) [
        | yes both ↦ absurd (
            omega
              (arith, opposite, its, inv.you.its_sleep (omega (arith, both, b)) (omega (arith, a))))
        | no ended ↦ absurd (
            omega (
              arith,
              opposite,
              its,
              more,
              a,
              b,
              inv.turn,
              inv.counted,
              inv.you.its_end (omega (arith, ended, b)),
            ))
      ]
]

free_Runs : (s : Shared) (p : Pc) → held s.mtx ≡ 0 → over p + asleep p ≡ 0 → Runs s p
free_Runs s p free h = (h, λ w. free)

-- The two threads never wait for each other: after any schedule both have ended, or one of them
-- neither sleeps in `cv.wait` nor waits for the mutex.
pub never_stuck :
    (n : ℕ) (es : List Event)
    → ((exec n start es).0.t1 ≡ finished) × ((exec n start es).0.t2 ≡ finished)
      ⊎ (Runs (exec n start es).0.shared (exec n start es).0.t1
          ⊎ Runs (exec n start es).0.shared (exec n start es).0.t2)
never_stuck n es = from (exec n start es).0 (exec-KeptBy n 0 start es (start-Reached n)).2
  where
    finish : (p : Pc) → Resting p → asleep p ≡ 0 → p ≡ finished
    finish p h awake = ground (arith, h, awake)

    small : (p : Pc) → over p + asleep p ≤ 1
    small p = ground arith

    nobody_inside :
        (s : System) {r : ℕ}
        → Reached n r s
        → held s.shared.mtx ≡ 0
        → ((s.t1 ≡ finished) × (s.t2 ≡ finished)) ⊎ (Runs s.shared s.t1 ⊎ Runs s.shared s.t2)
    nobody_inside s {r} inv free = elim (dec_lt 0 (over s.t1 + asleep s.t1)) [
      | no c ↦ inr (inl (free_Runs s.shared s.t1 free (omega (arith, c))))
      | yes c ↦ elim (dec_lt 0 (over s.t2 + asleep s.t2)) [
        | no d ↦ inr (inr (free_Runs s.shared s.t2 free (omega (arith, d))))
        | yes d ↦
            let one = rests s.t1 (omega (arith, c, small s.t1)) in
            let two = rests s.t2 (omega (arith, d, small s.t2)) in
            let other = swap n r 1 0 s.shared s.t2 s.t1 inv in
            inl (
              finish s.t1 one (no_sleeper n r 0 1 s.shared s.t1 s.t2 (omega arith) other one two),
              finish s.t2 two (no_sleeper n r 1 0 s.shared s.t2 s.t1 (omega arith) inv two one),
            )
      ]
    ]

    from :
        (s : System) {r : ℕ}
        → Reached n r s
        → ((s.t1 ≡ finished) × (s.t2 ≡ finished)) ⊎ (Runs s.shared s.t1 ⊎ Runs s.shared s.t2)
    from s {r} inv = elim (dec_lt 0 (inside s.t1)) [
      | yes a ↦ inr (inl (inside-Runs s.shared s.t1 (omega (arith, a, places s.t1))))
      | no a ↦ elim (dec_lt 0 (inside s.t2)) [
        | yes b ↦ inr (inr (inside-Runs s.shared s.t2 (omega (arith, b, places s.t2))))
        | no b ↦ nobody_inside s inv (omega (arith, a, b, inv.exclusive))
      ]
    ]
