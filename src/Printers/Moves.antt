-- ===== src/Printers/Moves.antt =====
-- The actions of the printers of xjh_multi_thread/test1.cc in their turn, and all of them.
use os_net_work_code.Base.{ℕ, suc, ◌≡◌, refl, sym, Bool, not, arith}
use os_net_work_code.Sync.Laws.{held-unlock, held-le-one}
use os_net_work_code.Printers.Defs.{
  Shared, Pc, testing, locking, checking, sleeping, waking, printing, incrementing, setting,
  notifying, unlocking, finished, act, wake, notified, tag,
}
use os_net_work_code.Printers.Invariant.{
  bit, bit-not, places, woken, wake-Inv, Side-idle, even, even-bit, At, inside,
}
use os_net_work_code.Printers.Waiting.{
  Kept, you-moved, testing-Kept, locking-Kept, waking-Kept, checking-Kept,
}

module _ (n r : ℕ) (t : Bool) (s : Shared) (other : Pc) where
  printing-Kept : At n r t s printing other → Kept n r t other (act n t s printing)
  unfolding act tag notified
  printing-Kept inv = (
    suc r,
    (λ j. (sym here j, level j), refl),
    record {
      exclusive = inv.exclusive;
      counted = omega (arith, inv.counted);
      turn = omega (arith, inv.turn);
      bound = omega (
        arith,
        inv.me.its_next refl,
        inv.turn,
        inv.me.its_turn refl,
        inv.exclusive,
        places other,
        held-le-one s.mtx,
      );
      me = record {
        its_turn = λ b. inv.me.its_turn refl;
        its_next = λ b. absurd (omega (arith, b));
        its_end = λ b. absurd (omega (arith, b));
        its_sleep = λ b k. absurd (omega (arith, b));
      };
      you = record {
        its_turn = λ b. absurd (omega (arith, b, inv.exclusive, places other, held-le-one s.mtx));
        its_next = λ b. omega (
          arith,
          inv.you.its_next b,
          inv.turn,
          inv.me.its_turn refl,
          bit-not t,
          inv.exclusive,
          places other,
          held-le-one s.mtx,
        );
        its_end = inv.you.its_end;
        its_sleep = λ a b. inv.you.its_sleep a refl;
      };
    },
  )
    where
      alone : inside other ≡ 0
      alone = omega (arith, inv.exclusive, held-le-one s.mtx)

      level : s.i ≡ r
      level = omega (arith, inv.counted, places other, alone)

      here : even r ≡ t
      here = even-bit r t (omega (arith, inv.turn, inv.me.its_turn refl, places other, alone))

  incrementing-Kept : At n r t s incrementing other → Kept n r t other (act n t s incrementing)
  unfolding act tag notified
  incrementing-Kept inv = (
    r,
    refl,
    record {
      exclusive = inv.exclusive;
      counted = omega (arith, inv.counted);
      turn = inv.turn;
      bound = inv.bound;
      me = record {
        its_turn = λ b. inv.me.its_turn refl;
        its_next = λ b. absurd (omega (arith, b));
        its_end = λ b. absurd (omega (arith, b));
        its_sleep = λ b k. absurd (omega (arith, b));
      };
      you = record {
        its_turn = inv.you.its_turn;
        its_next = inv.you.its_next;
        its_end = λ b. omega (arith, inv.you.its_end b);
        its_sleep = inv.you.its_sleep;
      };
    },
  )

  setting-Kept : At n r t s setting other → Kept n r t other (act n t s setting)
  unfolding act tag notified
  setting-Kept inv = (
    r,
    refl,
    record {
      exclusive = inv.exclusive;
      counted = inv.counted;
      turn = omega (arith, inv.turn, inv.me.its_turn refl, bit-not t);
      bound = inv.bound;
      me = Side-idle n r (bit t) (bit (not t)) s.i (bit (not t)) notifying other (omega arith);
      you = record {
        its_turn = λ b. absurd (omega (arith, b, inv.exclusive, places other, held-le-one s.mtx));
        its_next = inv.you.its_next;
        its_end = inv.you.its_end;
        its_sleep = λ a k. absurd (omega (arith, k));
      };
    },
  )

  notifying-Kept : At n r t s notifying other → Kept n r t other (act n t s notifying)
  unfolding act tag notified
  notifying-Kept inv =
      let w = wake-Inv n r (bit t) (bit (not t)) s notifying other inv in
      (
        r,
        refl,
        record {
          exclusive = w.exclusive;
          counted = w.counted;
          turn = w.turn;
          bound = w.bound;
          me =
              Side-idle n r (bit t) (bit (not t)) s.i (bit s.ready) unlocking (wake other)
                (omega arith);
          you = record {
            its_turn = w.you.its_turn;
            its_next = w.you.its_next;
            its_end = w.you.its_end;
            its_sleep = λ a k. absurd (omega (arith, a, woken other));
          };
        },
      )

  unlocking-Kept : At n r t s unlocking other → Kept n r t other (act n t s unlocking)
  unfolding act tag notified
  unlocking-Kept inv = (
    r,
    refl,
    record {
      exclusive = omega (arith, inv.exclusive, held-le-one s.mtx, held-unlock s.mtx);
      counted = inv.counted;
      turn = inv.turn;
      bound = inv.bound;
      me = Side-idle n r (bit t) (bit (not t)) s.i (bit s.ready) testing other (omega arith);
      you = you-moved n r t s other unlocking testing refl inv;
    },
  )

  pub act-Kept : (p : Pc) → At n r t s p other → Kept n r t other (act n t s p)
  unfolding act tag notified
  act-Kept testing inv = testing-Kept n r t s other inv
  act-Kept locking inv = locking-Kept n r t s other inv
  act-Kept checking inv = checking-Kept n r t s other inv
  act-Kept sleeping inv = (r, refl, inv)
  act-Kept waking inv = waking-Kept n r t s other inv
  act-Kept printing inv = printing-Kept inv
  act-Kept incrementing inv = incrementing-Kept inv
  act-Kept setting inv = setting-Kept inv
  act-Kept notifying inv = notifying-Kept inv
  act-Kept unlocking inv = unlocking-Kept inv
  act-Kept finished inv = (r, refl, inv)
