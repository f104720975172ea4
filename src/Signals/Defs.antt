-- ===== src/Signals/Defs.antt =====
-- The last program of 0105/mysignal.cc, which blocks all signals, and 0108/mysignal1.cc, whose
-- handler of signal 2 blocks more; both show which signals are pending.
use os_net_work_code.Base.{
  ℕ, zero, suc, Bool, false, ◌||◌, List, [], ◌∷◌, ◌++◌, take, if◌then◌else◌, ◌==◌,
}

-- A `sigset_t` as the list of its signals.
unfoldable pub sigismember : List ℕ → ℕ → Bool
sigismember [] sig = false
sigismember (s ∷ set) sig = (sig == s) || sigismember set sig

-- Signals 9 and 19 cannot be blocked, and `sigaddset` refuses 32 and 33, which the C library keeps
-- for itself.
unfoldable pub unblockable : ℕ → Bool
unblockable sig = (sig == 9) || ((sig == 19) || ((sig == 32) || (sig == 33)))

-- SIGCONT, and the signals that stop a process.
abbrev pub cont : ℕ
cont = 18

unfoldable pub is_stop : ℕ → Bool
is_stop sig = (sig == 19) || ((sig == 20) || ((sig == 21) || (sig == 22)))

unfoldable pub job_control : ℕ → Bool
job_control sig = (sig == cont) || is_stop sig

-- SIGCHLD, SIGCONT, SIGURG and SIGWINCH do not harm a process that has no handler for them.
unfoldable pub harmless : ℕ → Bool
harmless sig = (sig == 17) || ((sig == cont) || ((sig == 23) || (sig == 28)))

unfoldable pub without_stops : List ℕ → List ℕ
without_stops [] = []
without_stops (s ∷ set) = let rest = without_stops set in if is_stop s then rest else s ∷ rest

unfoldable pub without_cont : List ℕ → List ℕ
without_cont [] = []
without_cont (s ∷ set) = let rest = without_cont set in if s == cont then rest else s ∷ rest

-- SIGCONT takes pending stop signals back, and a stop signal a pending SIGCONT.
unfoldable pub discards : ℕ → List ℕ → List ℕ
discards sig pending =
    if job_control sig
    then (if sig == cont then without_stops pending else without_cont pending)
    else pending

pub data Life : Type 0 where
  running : Life
  halted : ℕ → Life  -- ended or stopped by a signal with its default action

pub record Process : Type 0 where
  pub blocked : List ℕ
  pub pending : List ℕ
  pub life : Life

abbrev pub fresh : Process
fresh = record { blocked = []; pending = []; life = running }

-- `blockSig`, whose set stays empty for a signal that `sigaddset` refuses; `sigprocmask` leaves out
-- what cannot be blocked.
unfoldable pub block_sig : ℕ → Process → Process
block_sig sig p = if unblockable sig then p else record p { blocked = sig ∷ p.blocked }

-- The loop over `n` signals from `sig` on.
unfoldable pub block_from : ℕ → ℕ → Process → Process
block_from zero sig p = p
block_from (suc n) sig p = block_from n (suc sig) (block_sig sig p)

-- `main` of 0105 before its second loop.
unfoldable pub block_all : Process
block_all = block_from 32 1 fresh

-- The mask of `act` in `main` of 0108.
unfoldable pub sa_mask : List ℕ
sa_mask = 7 ∷ 6 ∷ 5 ∷ 4 ∷ 3 ∷ []

-- A signal is caught: while its handler runs, the mask and the signal itself are blocked.
unfoldable pub catch_sig : ℕ → Process → Process
catch_sig sig p = record p { blocked = sig ∷ (sa_mask ++ p.blocked) }

-- The kernel marks a blocked signal as pending; another one, without a handler, halts the process,
-- unless it is harmless.
unfoldable pub raised : Process → ℕ → Life → Process
raised p sig (halted s) = p
raised p sig running =
    let kept = discards sig p.pending in
    if sigismember p.blocked sig
    then record p { pending = sig ∷ kept }
    else if harmless sig
    then record p { pending = kept }
    else record p { life = halted sig }

unfoldable pub raise_all : List ℕ → Process → Process
raise_all [] p = p
raise_all (sig ∷ sigs) p = raise_all sigs (raised p sig p.life)

-- `showPending`: a '1' or a '0' for each of the signals 1 to 31.
unfoldable pub show_from : ℕ → ℕ → List ℕ → List ℕ
show_from zero sig pending = []
show_from (suc n) sig pending =
    (if sigismember pending sig then b'1' else b'0') ∷ show_from n (suc sig) pending

unfoldable pub show_pending : List ℕ → List ℕ
show_pending pending = show_from 31 1 pending

-- Rounds of `sigpending` and `showPending`, each after some signals have been raised.
unfoldable pub watch : Process → List (List ℕ) → List (List ℕ)
watch p [] = []
watch p (sigs ∷ rounds) =
    let q = raise_all sigs p in
    let rest = watch q rounds in
    elim q.life [ running ↦ show_pending q.pending ∷ rest | halted s ↦ [] ]

-- `main` of 0105.
unfoldable pub main : List (List ℕ) → List (List ℕ)
main rounds = watch block_all rounds

-- `handler` of 0108, which is called for signal 2: ten rounds.
unfoldable pub handler : List (List ℕ) → List (List ℕ)
handler rounds = watch (catch_sig 2 fresh) (take 10 rounds)
