-- ===== src/Shm/Runs.antt =====
-- The actions of the client of 1201/shm_pipe, and schedules of both.
use os_net_work_code.Base.{
  ℕ, ◌+◌, ◌≡◌, refl, ap, Bool-cases, List, [], ◌∷◌, length, set, if◌then◌else◌, arith, inl, inr,
}
use os_net_work_code.Buffer.{fill}
use os_net_work_code.Shm.Handshake.{
  Client, reading, cutting, signalling, comparing, closing, done, killed, System, start, signal,
  is_quit, typed, work, Who, the_server, the_client, step, exec,
}
use os_net_work_code.Shm.Wakes.{Inv, signalled, knows_quit, has_stopped, was_killed, bit, serve-Inv}

-- The client changes the segment only before it signals.
quiet :
    (s : System) (shm : List ℕ) (c : Client) (keyboard : List (List ℕ))
    → Inv s
    → signalled c + knows_quit c + has_stopped c + was_killed c ≡ 0
    → has_stopped s.client ≡ 0
    → Inv (record s { shm = shm; client = c; keyboard = keyboard })
quiet s shm c keyboard inv h k = record {
  no_abort = inv.no_abort;
  reader = inv.reader;
  writer = omega (arith, inv.writer, h, k);
  was_quit = λ a. absurd (omega (arith, a, h));
  not_lost = λ a b q. absurd (omega (arith, a, h));
  no_victim = λ a. absurd (omega (arith, a, h));
}

typed-Inv :
    (s : System) (chunks : List (List ℕ)) → s.client ≡ reading → Inv s → Inv (typed chunks s)
unfolding typed
typed-Inv s [] e inv = inv
typed-Inv s ([] ∷ chunks) e inv = record {
  no_abort = inv.no_abort;
  reader = inv.reader;
  writer = inv.writer;
  was_quit = inv.was_quit;
  not_lost = inv.not_lost;
  no_victim = inv.no_victim;
}
typed-Inv s ((b ∷ bs) ∷ chunks) e inv =
    quiet s (fill s.shm (b ∷ bs)) (cutting (length bs)) chunks inv (omega arith) (ap has_stopped e)

signal-Inv : (s : System) → s.client ≡ signalling → Inv s → Inv (signal s)
unfolding signal
signal-Inv s e inv = elim (Bool-cases s.read_end) [
  | inl up ↦
      rw (up, if◌then◌else◌)
        (record {
          no_abort = inv.no_abort;
          reader = omega (arith, inv.reader, ap bit up);
          writer = omega (arith, inv.writer, ap has_stopped e);
          was_quit = λ a. absurd (omega (arith, a));
          not_lost = λ a b q. omega arith;
          no_victim = λ a. absurd (omega (arith, a));
        })
  | inr down ↦
      rw (down, if◌then◌else◌)
        (record {
          no_abort = inv.no_abort;
          reader = omega (arith, inv.reader, ap bit down);
          writer = omega arith;
          was_quit = λ a. absurd (omega (arith, a));
          not_lost = λ a b q. absurd (omega (arith, a));
          no_victim = λ a. omega (arith, inv.reader, ap bit down);
        })
]

comparing-Inv : (s : System) → s.client ≡ comparing → Inv s → Inv (work comparing s)
unfolding work
comparing-Inv s e inv = elim (Bool-cases (is_quit s.shm)) [
  | inl y ↦
      rw (work, y, if◌then◌else◌)
        (record {
          no_abort = inv.no_abort;
          reader = inv.reader;
          writer = omega (arith, inv.writer, ap has_stopped e);
          was_quit = λ a. y;
          not_lost = λ a b q. inv.not_lost (ap signalled e) b q;
          no_victim = λ a. absurd (omega (arith, a));
        })
  | inr other ↦
      rw (work, other, if◌then◌else◌)
        (quiet s s.shm reading s.keyboard inv (omega arith) (ap has_stopped e))
]

work-Inv : (s : System) (p : Client) → s.client ≡ p → Inv s → Inv (work p s)
unfolding work
work-Inv s reading e inv = typed-Inv s s.keyboard e inv
work-Inv s (cutting k) e inv =
    quiet s (set s.shm k 0) signalling s.keyboard inv (omega arith) (ap has_stopped e)
work-Inv s signalling e inv = signal-Inv s e inv
work-Inv s comparing e inv = comparing-Inv s e inv
work-Inv s closing e inv = record {
  no_abort = inv.no_abort;
  reader = inv.reader;
  writer = omega arith;
  was_quit = λ a. inv.was_quit (ap knows_quit e);
  not_lost = λ a b q. inv.not_lost (ap signalled e) b q;
  no_victim = λ a. absurd (omega (arith, a));
}
work-Inv s done e inv = inv
work-Inv s killed e inv = inv

step-Inv : (s : System) (w : Who) → Inv s → Inv (step s w).0
unfolding step
step-Inv s the_server inv = serve-Inv s s.server refl inv
step-Inv s the_client inv = work-Inv s s.client refl inv

pub exec-Inv : (s : System) (ws : List Who) → Inv s → Inv (exec s ws).0
unfolding exec
exec-Inv s [] inv = inv
exec-Inv s (w ∷ ws) inv = exec-Inv (step s w).0 ws (step-Inv s w inv)

pub start-Inv : (keyboard : List (List ℕ)) → Inv (start keyboard)
unfolding start
start-Inv keyboard = record {
  no_abort = refl;
  reader = omega arith;
  writer = omega arith;
  was_quit = λ a. absurd (omega (arith, a));
  not_lost = λ a b q. absurd (omega (arith, a));
  no_victim = λ a. absurd (omega (arith, a));
}
