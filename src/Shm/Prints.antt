-- ===== src/Shm/Prints.antt =====
-- How often the server of 1201/shm_pipe prints.
use os_net_work_code.Base.{
  ℕ, zero, suc, ◌+◌, ◌≤◌, ◌≡◌, ◌≢◌, refl, ap, Bool-cases, some, List, [], ◌∷◌, length,
  length-append, if◌then◌else◌, arith, inl, inr,
}
use os_net_work_code.Shm.Handshake.{
  Server, waiting, printing, testing, leaving, exited, aborted, Client, reading, cutting,
  signalling, comparing, closing, done, killed, System, start, wait, signal, is_quit, serve, typed,
  work, Who, the_server, the_client, step, exec,
}
use os_net_work_code.Shm.Setup.{Calls, session, session-start}
use os_net_work_code.Shm.Wakes.{has_aborted}
use os_net_work_code.Shm.Runs.{exec-Inv, start-Inv}

-- How often the server may still print.
abbrev to_print : Server → ℕ
to_print printing = 1
to_print p = 0

abbrev to_signal : Client → ℕ
to_signal (cutting k) = 1
to_signal signalling = 1
to_signal p = 0

abbrev potential : System → ℕ
potential s = to_print s.server + s.fifo + to_signal s.client + length s.keyboard

serve-potential :
    (s : System) (p : Server)
    → s.server ≡ p
    → length (serve p s).1 + potential (serve p s).0 ≤ potential s
unfolding serve wait
serve-potential s waiting e = from s.fifo refl
  where
    from : (n : ℕ) → s.fifo ≡ n → length {A = List ℕ} [] + potential (wait n s) ≤ potential s
    from zero h = elim (Bool-cases s.write_end) [
      | inl up ↦ rw (wait, up, if◌then◌else◌) (omega arith)
      | inr down ↦ rw (wait, down, if◌then◌else◌) (omega arith)
    ]
    from (suc n) h = omega (arith, h)
serve-potential s printing e = omega (arith, ap to_print e)
serve-potential s testing e = elim (Bool-cases (is_quit s.shm)) [
  | inl y ↦ rw (serve, y, if◌then◌else◌) (omega arith)
  | inr other ↦ rw (serve, other, if◌then◌else◌) (omega arith)
]
serve-potential s leaving e = omega arith
serve-potential s exited e = omega arith
serve-potential s aborted e = omega arith

typed-potential :
    (s : System) (chunks : List (List ℕ))
    → s.keyboard ≡ chunks
    → potential (typed chunks s) ≤ potential s
unfolding typed
typed-potential s [] e = omega arith
typed-potential s ([] ∷ chunks) e = omega (arith, ap length e)
typed-potential s ((b ∷ bs) ∷ chunks) e = omega (arith, ap length e)

work-potential : (s : System) (p : Client) → s.client ≡ p → potential (work p s) ≤ potential s
unfolding work signal
work-potential s reading e = typed-potential s s.keyboard refl
work-potential s (cutting k) e = omega (arith, ap to_signal e)
work-potential s signalling e = elim (Bool-cases s.read_end) [
  | inl up ↦ rw (work, signal, up, if◌then◌else◌) (omega (arith, ap to_signal e))
  | inr down ↦ rw (work, signal, down, if◌then◌else◌) (omega arith)
]
work-potential s comparing e = elim (Bool-cases (is_quit s.shm)) [
  | inl y ↦ rw (work, y, if◌then◌else◌) (omega arith)
  | inr other ↦ rw (work, other, if◌then◌else◌) (omega arith)
]
work-potential s closing e = omega arith
work-potential s done e = omega arith
work-potential s killed e = omega arith

exec-potential : (s : System) (ws : List Who) → length (exec s ws).1 ≤ potential s
unfolding exec step
exec-potential s [] = omega arith
exec-potential s (the_server ∷ ws) =
    let (t, out) = serve s.server s in
    omega
      (arith, serve-potential s s.server refl, exec-potential t ws, length-append out (exec t ws).1)
exec-potential s (the_client ∷ ws) =
    omega (arith, work-potential s s.client refl, exec-potential (work s.client s) ws)

-- If both programs get to their loops, then under every schedule the fifo keeps the server from
-- printing more often than the client has read the keyboard, and the assertion in `Wait` never
-- fails: the fifo is never closed while the server still waits for a number.
pub fifo_wakes :
    (server client : Calls) (keyboard : List (List ℕ)) (s : System) (ws : List Who)
    → session server client keyboard ≡ some s
    → (length (exec s ws).1 ≤ length keyboard) × ((exec s ws).0.server ≢ aborted)
unfolding start
fifo_wakes server client keyboard s ws both = rw (session-start server client keyboard s both) (
  omega (arith, exec-potential (start keyboard) ws),
  λ e. absurd (
      omega
        (arith, (exec-Inv (start keyboard) ws (start-Inv keyboard)).no_abort, ap has_aborted e)),
)
