-- ===== src/Shm/Wakes.antt =====
-- An invariant for 1201/shm_pipe, and the actions of the server.
use os_net_work_code.Base.{
  ℕ, zero, suc, ◌+◌, ◌<◌, ◌≡◌, ◌⊎◌, refl, subst, sym, ap, ◌∙◌, Bool, true, false, Bool-cases,
  if◌then◌else◌, arith, inl, inr,
}
use os_net_work_code.Shm.Handshake.{
  Server, waiting, printing, testing, leaving, exited, aborted, Client, comparing, closing, done,
  killed, System, wait, is_quit, serve,
}

-- Places as numbers, to be compared with the ends of the fifo that are open.
abbrev pub waits : Server → ℕ
waits waiting = 1
waits p = 0

abbrev pub has_left : Server → ℕ
has_left exited = 1
has_left p = 0

abbrev pub has_aborted : Server → ℕ
has_aborted aborted = 1
has_aborted p = 0

abbrev pub signalled : Client → ℕ
signalled comparing = 1
signalled closing = 1
signalled done = 1
signalled p = 0

abbrev pub knows_quit : Client → ℕ
knows_quit closing = 1
knows_quit done = 1
knows_quit p = 0

abbrev pub has_stopped : Client → ℕ
has_stopped done = 1
has_stopped killed = 1
has_stopped p = 0

abbrev pub was_killed : Client → ℕ
was_killed killed = 1
was_killed p = 0

abbrev pub bit : Bool → ℕ
bit true = 1
bit false = 0

-- `quit` as it stands in the segment counts from the signal on: a server that waits finds a number
-- in the fifo.
pub record Inv (s : System) : Type 0 where
  pub no_abort : has_aborted s.server ≡ 0
  pub reader : bit s.read_end + has_left s.server ≡ 1
  pub writer : bit s.write_end + has_stopped s.client ≡ 1
  pub was_quit : knows_quit s.client ≡ 1 → is_quit s.shm ≡ true
  pub not_lost : signalled s.client ≡ 1 → waits s.server ≡ 1 → is_quit s.shm ≡ true → 0 < s.fifo
  pub no_victim : was_killed s.client ≡ 1 → has_left s.server ≡ 1

stopped-cases :
    (c : Client) → has_stopped c ≡ 1 → ((knows_quit c ≡ 1) × (signalled c ≡ 1)) ⊎ (was_killed c ≡ 1)
stopped-cases c h = ground (arith, h)

wait-Inv : (s : System) (n : ℕ) → s.fifo ≡ n → s.server ≡ waiting → Inv s → Inv (wait n s)
unfolding wait
wait-Inv s zero h e inv = elim (Bool-cases s.write_end) [
  | inl up ↦ subst (λ b. Inv (if b then s else record s { server = aborted })) (sym up) inv
  | inr down ↦ absurd (over (stopped-cases s.client (omega (arith, inv.writer, ap bit down))))
]
  where
    over : ((knows_quit s.client ≡ 1) × (signalled s.client ≡ 1)) ⊎ (was_killed s.client ≡ 1) → ⊥
    over (inl (k, g)) = omega (arith, h, inv.not_lost g (ap waits e) (inv.was_quit k))
    over (inr k) = omega (arith, inv.no_victim k, ap has_left e)
wait-Inv s (suc n) h e inv = record {
  no_abort = refl;
  reader = omega (arith, inv.reader, ap has_left e);
  writer = inv.writer;
  was_quit = inv.was_quit;
  not_lost = λ a b. absurd (omega (arith, b));
  no_victim = λ a. absurd (omega (arith, inv.no_victim a, ap has_left e));
}

-- The server comes back to its wait only if there is no "quit".
testing-Inv : (s : System) → s.server ≡ testing → Inv s → Inv (serve testing s).0
unfolding serve
testing-Inv s e inv = elim (Bool-cases (is_quit s.shm)) [
  | inl y ↦
      rw (serve, y, if◌then◌else◌)
        (record {
          no_abort = refl;
          reader = omega (arith, inv.reader, ap has_left e);
          writer = inv.writer;
          was_quit = inv.was_quit;
          not_lost = λ a b. absurd (omega (arith, b));
          no_victim = λ a. absurd (omega (arith, inv.no_victim a, ap has_left e));
        })
  | inr other ↦
      rw (serve, other, if◌then◌else◌)
        (record {
          no_abort = refl;
          reader = omega (arith, inv.reader, ap has_left e);
          writer = inv.writer;
          was_quit = inv.was_quit;
          not_lost = λ a b q. absurd (true-ne-false (sym q ∙ other));
          no_victim = λ a. absurd (omega (arith, inv.no_victim a, ap has_left e));
        })
]
  where
    true-ne-false : true ≡ false → ⊥
    true-ne-false h = cc

pub serve-Inv : (s : System) (p : Server) → s.server ≡ p → Inv s → Inv (serve p s).0
unfolding serve wait
serve-Inv s waiting e inv = wait-Inv s s.fifo refl e inv
serve-Inv s printing e inv = record {
  no_abort = refl;
  reader = omega (arith, inv.reader, ap has_left e);
  writer = inv.writer;
  was_quit = inv.was_quit;
  not_lost = λ a b. absurd (omega (arith, b));
  no_victim = λ a. omega (arith, inv.no_victim a, ap has_left e);
}
serve-Inv s testing e inv = testing-Inv s e inv
serve-Inv s leaving e inv = record {
  no_abort = refl;
  reader = refl;
  writer = inv.writer;
  was_quit = inv.was_quit;
  not_lost = λ a b. absurd (omega (arith, b));
  no_victim = λ a. refl;
}
serve-Inv s exited e inv = inv
serve-Inv s aborted e inv = inv
