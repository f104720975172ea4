-- ===== src/Signals/Pending.antt =====
-- What the programs of 0105 and 0108 show of the signals that are sent to them.
use os_net_work_code.Base.{ℕ, ◌+◌, ◌≤◌, ◌<◌, ◌≡◌, true, false, List, [], ◌∷◌, ◌++◌}
use os_net_work_code.Signals.Defs.{
  sigismember, unblockable, job_control, running, Process, block_from, show_pending,
}

-- What should be shown: the line of each round has a '1' for the signals raised up to it, the
-- earlier ones being `seen`.
unfoldable pub expected : List ℕ → List (List ℕ) → List (List ℕ)
expected seen [] = []
expected seen (sigs ∷ rounds) = show_pending (seen ++ sigs) ∷ expected (seen ++ sigs) rounds

abbrev Same : List ℕ → List ℕ → Type 0
Same s t = (sig : ℕ) → sigismember s sig ≡ sigismember t sig

abbrev AllIn : List ℕ → List ℕ → Type 0
AllIn set [] = Unit {0}
AllIn set (sig ∷ sigs) = (sigismember set sig ≡ true) × (job_control sig ≡ false) × AllIn set sigs

abbrev RoundsIn : List ℕ → List (List ℕ) → Type 0
RoundsIn set [] = Unit {0}
RoundsIn set (sigs ∷ rounds) = AllIn set sigs × RoundsIn set rounds

-- A process that runs.
abbrev alive : List ℕ → List ℕ → Process
alive blocked pending = record { blocked = blocked; pending = pending; life = running }

-- Signals one after the other in front of a set.
abbrev onto : List ℕ → List ℕ → List ℕ
onto [] set = set
onto (sig ∷ sigs) set = onto sigs (sig ∷ set)

-- What `block_from` blocks, in a process that runs.
abbrev Blocks : ℕ → ℕ → List ℕ → Type 0
Blocks n sig blocked =
    (b : List ℕ) × (block_from n sig (alive blocked []) ≡ alive b [])
    × ((x : ℕ) → sigismember blocked x ≡ true → sigismember b x ≡ true)
    × ((x : ℕ) → sig ≤ x → x < sig + n → unblockable x ≡ false → sigismember b x ≡ true)

-- Signals that 0105 can block, and those that the handler of 0108 does.
abbrev pub Blockable : ℕ → Type 0
Blockable sig = (1 ≤ sig) × (sig < 32) × (unblockable sig ≡ false) × (job_control sig ≡ false)

abbrev pub Masked : ℕ → Type 0
Masked sig = (2 ≤ sig) × (sig ≤ 7)

abbrev pub All : (ℕ → Type 0) → List ℕ → Type 0
All P [] = Unit {0}
All P (sig ∷ sigs) = P sig × All P sigs

abbrev pub AllRounds : (ℕ → Type 0) → List (List ℕ) → Type 0
AllRounds P [] = Unit {0}
AllRounds P (sigs ∷ rounds) = All P sigs × AllRounds P rounds
