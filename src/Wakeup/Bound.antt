-- ===== src/Wakeup/Bound.antt =====
-- How often the threads of 0113/demo/mycond.cc print.
use os_net_work_code.Base.{
  ℕ, zero, suc, ◌+◌, ◌≤◌, ◌≡◌, refl, ap, Bool, true, false, Option, none, some, List, [], ◌∷◌,
  length, length-append, length-set, length-replicate, get_elem?, set, map, arith, inl, inr,
  Option-cases,
}
use os_net_work_code.Base.Threads.{weigh, weigh-set, weigh-replicate}
use os_net_work_code.Sync.{Mutex, lock}
use os_net_work_code.Sync.Cond.{signal_target}
use os_net_work_code.Wakeup.Defs.{
  Pc, testing, locking, waiting, sleeping, waking, unlocking, finished, printing, asleep, Main,
  signalling, quitting, broadcasting, joining, returned, func, wake, wake_one, System, start, join,
  main, Event, run, control, spurious, printed, step, exec, spurious_wakeups,
}

-- A thread that is awake and has not printed yet.
abbrev pending : Pc → ℕ
pending waking = 1
pending printing = 1
pending p = 0

-- How many threads `main` may still wake, of `n`.
abbrev budget : ℕ → Main → ℕ
budget n (signalling c) = c + n
budget n quitting = n
budget n broadcasting = n
budget n (joining i) = 0
budget n returned = 0

abbrev potential : System → ℕ
potential s = weigh pending s.threads + budget (length s.threads) s.control

func-pending :
    (quit : Bool) (m : Mutex) (p : Pc) (i : ℕ)
    → length (printed i (func quit m p).2) + pending (func quit m p).1 ≤ pending p
unfolding func printed
func-pending true m testing i = omega arith
func-pending false m testing i = omega arith
func-pending quit m locking i = elim (Option-cases (lock m)) [
  | inl e ↦ rw (func, e) (omega arith)
  | inr (n, e) ↦ rw (func, e) (omega arith)
]
func-pending quit m waiting i = omega arith
func-pending quit m sleeping i = omega arith
func-pending quit m waking i = elim (Option-cases (lock m)) [
  | inl e ↦ rw (func, e) (omega arith)
  | inr (n, e) ↦ rw (func, e) (omega arith)
]
func-pending quit m printing i = omega arith
func-pending quit m unlocking i = omega arith
func-pending quit m finished i = omega arith

wake-pending : (p : Pc) → pending (wake p) ≤ suc (pending p)
unfolding wake
wake-pending p = ground arith

-- A thread that is set to another place raises the weight by what that place weighs at most.
set-pending :
    (ps : List Pc) (k : ℕ) (q : Pc) → weigh pending (set ps k q) ≤ pending q + weigh pending ps
unfolding weigh
set-pending [] k q = omega arith
set-pending (p ∷ ps) zero q = omega arith
set-pending (p ∷ ps) (suc k) q = omega (arith, set-pending ps k q)

wake_one-pending :
    (ps : List Pc) (t : Option ℕ)
    → (length (wake_one ps t) ≡ length ps)
      × (weigh pending (wake_one ps t) ≤ suc (weigh pending ps))
unfolding wake_one
wake_one-pending ps none = (refl, omega arith)
wake_one-pending ps (some k) = (length-set ps k waking, omega (arith, set-pending ps k waking))

map-wake-pending :
    (ps : List Pc)
    → (length (map wake ps) ≡ length ps)
      × (weigh pending (map wake ps) ≤ weigh pending ps + length ps)
unfolding weigh
map-wake-pending [] = (refl, omega arith)
map-wake-pending (p ∷ ps) =
    let ih = map-wake-pending ps in (omega (arith, ih.0), omega (arith, ih.1, wake-pending p))

join-budget : (n i : ℕ) (p : Option Pc) → budget n (join i p) ≡ 0
unfolding join
join-budget n i none = refl
join-budget n i (some p) = ground arith

main-potential :
    (c : Main) (s : System) (j : ℕ) → s.control ≡ c → potential (main c s j) ≤ potential s
unfolding main
main-potential (signalling zero) s j e = omega (arith, ap (budget (length s.threads)) e)
main-potential (signalling (suc c)) s j e =
    let woken = wake_one-pending s.threads (signal_target asleep s.threads j) in
    omega (arith, woken.0, woken.1, ap (budget (length s.threads)) e)
main-potential quitting s j e = omega (arith, ap (budget (length s.threads)) e)
main-potential broadcasting s j e =
    omega (arith, map-wake-pending s.threads, ap (budget (length s.threads)) e)
main-potential (joining i) s j e =
    omega (arith, join-budget (length s.threads) i (get_elem? s.threads i))
main-potential returned s j e = omega arith

-- One event.
step-potential :
    (s : System) (e : Event)
    → length (step s e).1 + potential (step s e).0 ≤ potential s + spurious_wakeups (e ∷ [])
unfolding step
step-potential s (run i) = elim (Option-cases (get_elem? s.threads i)) [
  | inl e ↦ rw (step, e) (omega arith)
  | inr (p, e) ↦
      rw (step, e)
        (omega (
          arith,
          func-pending s.quit s.mtx p i,
          weigh-set pending s.threads i p (func s.quit s.mtx p).1 e,
          ap (λ n. budget n s.control) (length-set s.threads i (func s.quit s.mtx p).1),
        ))
]
step-potential s (control j) = omega (arith, main-potential s.control s j refl)
step-potential s (spurious i) = elim (Option-cases (get_elem? s.threads i)) [
  | inl e ↦ rw (step, e) (omega arith)
  | inr (p, e) ↦
      rw (step, e)
        (omega (
          arith,
          wake-pending p,
          weigh-set pending s.threads i p (wake p) e,
          ap (λ n. budget n s.control) (length-set s.threads i (wake p)),
        ))
]

spurious_more :
    (e : Event) (es : List Event)
    → spurious_wakeups (e ∷ es) ≡ spurious_wakeups (e ∷ []) + spurious_wakeups es
spurious_more (run i) es = omega arith
spurious_more (control j) es = omega arith
spurious_more (spurious i) es = omega arith

exec-potential :
    (s : System) (es : List Event) → length (exec s es).1 ≤ potential s + spurious_wakeups es
unfolding exec
exec-potential s [] = omega arith
exec-potential s (e ∷ es) = omega (
  arith,
  step-potential s e,
  exec-potential (step s e).0 es,
  spurious_more e es,
  length-append (step s e).1 (exec (step s e).0 es).1,
)

-- Under every schedule, n threads that `main` signals cnt times before its broadcast print at most
-- cnt + n lines, and one more for each time that `pthread_cond_wait` returns by itself.
pub prints_bounded :
    (cnt n : ℕ) (es : List Event) → length (exec (start cnt n) es).1 ≤ cnt + n + spurious_wakeups es
unfolding start
prints_bounded cnt n es = omega (
  arith,
  exec-potential (start cnt n) es,
  weigh-replicate pending n testing refl,
  length-replicate n testing,
)
