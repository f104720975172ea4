-- ===== src/Printers/Waiting.antt =====
-- The actions of the printers of xjh_multi_thread/test1.cc up to their turn.
use os_net_work_code.Base.{
  ℕ, ◌+◌, ◌≤◌, ◌<◌, ◌≡◌, refl, Bool, true, false, not, Bool-cases, ltb, dec_lt, ltb→lt,
  ltb_false→le, arith, inl, inr,
}
use os_net_work_code.Sync.{Mutex, held}
use os_net_work_code.Sync.Laws.{lock-cases, held-unlock, held-le-one}
use os_net_work_code.Printers.Defs.{
  Shared, Pc, testing, locking, checking, sleeping, waking, printing, finished, same, Outcome, act,
  notified, tag,
}
use os_net_work_code.Printers.Invariant.{
  bit, bit-not, places, Side-other, Counts, At, Side, inside, passed, notifies, done, uncounted,
  next,
}

-- What an action leaves for the thread that takes it, and what it prints.
abbrev pub Kept : ℕ → ℕ → Bool → Pc → Outcome → Type 0
Kept n r t other (s, p, nt, out) =
    (r' : ℕ) × Counts r (tag t out) r' × At n r' t s p (notified nt other)

same-bit : (b t : Bool) → same b t ≡ true → bit b ≡ bit t
unfolding same
same-bit b t h = ground arith

other-bit : (b t : Bool) → same b t ≡ false → bit b ≡ bit (not t)
unfolding same
other-bit b t h = ground arith

module _ (n r : ℕ) (t : Bool) (s : Shared) (other : Pc) where
  -- The other thread, when this one goes from `p` to `p'`.
  pub you-moved :
      (p p' : Pc)
      → notifies p ≡ 0
      → At n r t s p other
      → Side n r (bit (not t)) (bit t) s.i (bit s.ready) other p'
  you-moved p p' h inv = Side-other n r (bit (not t)) (bit t) s.i (bit s.ready) other p p' h inv.you

  -- Even if the other thread has printed and not yet counted.
  tested : s.i < n → At n r t s testing other → next (bit t) r ≤ n
  tested more inv = elim (dec_lt 0 (uncounted other)) [
    | yes ahead ↦ omega (
      arith,
      inv.counted,
      inv.turn,
      inv.you.its_turn (omega (arith, ahead, places other)),
      bit-not t,
      places other,
    )
    | no level ↦ omega (arith, inv.counted)
  ]

  pub testing-Kept : At n r t s testing other → Kept n r t other (act n t s testing)
  unfolding act tag notified
  testing-Kept inv = elim (Bool-cases (ltb s.i n)) [
    | inl more ↦
        rw (more, act, notified)
          (
            r,
            refl,
            record {
              exclusive = inv.exclusive;
              counted = inv.counted;
              turn = inv.turn;
              bound = inv.bound;
              me = record {
                its_turn = λ b. absurd (omega (arith, b));
                its_next = λ b. tested (ltb→lt s.i n more) inv;
                its_end = λ b. absurd (omega (arith, b));
                its_sleep = λ b k. absurd (omega (arith, b));
              };
              you = you-moved testing locking refl inv;
            },
          )
    | inr enough ↦
        rw (enough, act, notified)
          (
            r,
            refl,
            record {
              exclusive = inv.exclusive;
              counted = inv.counted;
              turn = inv.turn;
              bound = inv.bound;
              me = record {
                its_turn = λ b. absurd (omega (arith, b));
                its_next = λ b. absurd (omega (arith, b));
                its_end = λ b. ltb_false→le s.i n enough;
                its_sleep = λ b k. absurd (omega (arith, b));
              };
              you = you-moved testing finished refl inv;
            },
          )
  ]

  -- The mutex is taken.
  taken-Kept :
      (p : Pc) (m : Mutex)
      → At n r t s p other
      → inside p ≡ 0
      → uncounted p + done p + notifies p ≡ 0
      → passed p ≡ 1
      → held s.mtx ≡ 0
      → held m ≡ 1
      → At n r t (record s { mtx = m }) checking other
  taken-Kept p m inv out still pass free got = record {
    exclusive = omega (arith, inv.exclusive, out, free, got);
    counted = omega (arith, inv.counted, still);
    turn = omega (arith, inv.turn, still);
    bound = inv.bound;
    me = record {
      its_turn = λ b. absurd (omega (arith, b));
      its_next = λ b. inv.me.its_next pass;
      its_end = λ b. absurd (omega (arith, b));
      its_sleep = λ b k. absurd (omega (arith, b));
    };
    you = you-moved p checking (omega (arith, still)) inv;
  }

  pub locking-Kept : At n r t s locking other → Kept n r t other (act n t s locking)
  unfolding act tag notified
  locking-Kept inv = elim (lock-cases s.mtx) [
    | inl (h, e) ↦ rw (act, e, notified) (r, refl, inv)
    | inr (m, h, g, e) ↦
        rw (act, e, notified) (r, refl, taken-Kept locking m inv refl (omega arith) refl h g)
  ]

  pub waking-Kept : At n r t s waking other → Kept n r t other (act n t s waking)
  unfolding act tag notified
  waking-Kept inv = elim (lock-cases s.mtx) [
    | inl (h, e) ↦ rw (act, e, notified) (r, refl, inv)
    | inr (m, h, g, e) ↦
        rw (act, e, notified) (r, refl, taken-Kept waking m inv refl (omega arith) refl h g)
  ]

  pub checking-Kept : At n r t s checking other → Kept n r t other (act n t s checking)
  unfolding act tag notified
  checking-Kept inv = elim (Bool-cases (same s.ready t)) [
    | inl mine ↦
        rw (act, mine, notified)
          (
            r,
            refl,
            record {
              exclusive = inv.exclusive;
              counted = inv.counted;
              turn = inv.turn;
              bound = inv.bound;
              me = record {
                its_turn = λ b. same-bit s.ready t mine;
                its_next = λ b. inv.me.its_next refl;
                its_end = λ b. absurd (omega (arith, b));
                its_sleep = λ b k. absurd (omega (arith, b));
              };
              you = you-moved checking printing refl inv;
            },
          )
    | inr yours ↦
        rw (act, yours, notified)
          (
            r,
            refl,
            record {
              exclusive = omega (arith, inv.exclusive, held-le-one s.mtx, held-unlock s.mtx);
              counted = inv.counted;
              turn = inv.turn;
              bound = inv.bound;
              me = record {
                its_turn = λ b. absurd (omega (arith, b));
                its_next = λ b. inv.me.its_next refl;
                its_end = λ b. absurd (omega (arith, b));
                its_sleep = λ b k. other-bit s.ready t yours;
              };
              you = you-moved checking sleeping refl inv;
            },
          )
  ]
