-- ===== src/Shell/First.antt =====
-- The first shell, 0921/shell/myshell.c, which knows no redirection.
use os_net_work_code.Base.{
  ℕ, zero, suc, true, false, Option, none, some, List, [], ◌∷◌, ◌++◌, length, get_elem?, set,
  replicate, if◌then◌else◌,
}
use os_net_work_code.Buffer.{c_string, fill}
use os_net_work_code.Udp.Server.{same_string}
use os_net_work_code.Shell.Words.{strtok, filled, overflow, no_fuel, collect}
use os_net_work_code.Shell.Turn.{num, ls, cd, color, terminal}
use os_net_work_code.Shell.Session.{Machine, exited_with, wexitstatus, Ran}

-- What a turn comes to, as for the later shell, but a child has its terminal.
pub data FirstTurn : Type 0 where
  again : FirstTurn
  undefined : FirstTurn
  out_of_fuel : FirstTurn
  change_dir : Option (List ℕ) → FirstTurn
  launch : List (List ℕ) → FirstTurn

-- `cmd_line` after `memset`, and with the newline overwritten.
unfoldable pub cleared : List ℕ
cleared = replicate num 0

unfoldable pub strip : List ℕ → ℕ → Option (List ℕ)
strip line zero = none
strip line (suc k) = some (set line k 0)

unfoldable pub first_argv : List ℕ → List (List ℕ)
first_argv command = command ∷ (if same_string command ls then color ∷ [] else [])

unfoldable pub choose : List ℕ → List (List ℕ) → FirstTurn
choose command argv = if same_string command cd then change_dir (get_elem? argv 1) else launch argv

unfoldable pub split : List ℕ → FirstTurn
split text = elim (strtok text) [
  | none ↦ undefined
  | some (command, rest) ↦ elim (collect (suc (length rest)) rest (first_argv command)) [
    | filled argv ↦ choose command argv
    | overflow ↦ undefined
    | no_fuel ↦ out_of_fuel
  ]
]

unfoldable pub stripped : Option (List ℕ) → FirstTurn
stripped none = undefined
stripped (some line) = split (c_string line)

unfoldable pub first_turn : Option (List ℕ) → FirstTurn
first_turn none = again
first_turn (some input) =
    let line = fill cleared input in stripped (strip line (length (c_string line)))

module _ (m : Machine) where
  open m use {State, chdir, fork, execvp}

  -- The child, and the parent that waits for it.
  unfoldable pub first_child : List (List ℕ) → State → State × ℕ
  first_child argv s = elim (execvp argv terminal s) [ none ↦ (s, exited_with 1) | some r ↦ r ]

  unfoldable pub first_run : List (List ℕ) → State → State × List ℕ
  first_run argv s = elim (fork s) [
    | none ↦ (s, [])
    | some t ↦ let (u, code) = first_child argv t in (u, wexitstatus code ∷ [])
  ]

  unfoldable pub first_after : FirstTurn → State → Option (State × List ℕ)
  first_after again s = some (s, [])
  first_after undefined s = none
  first_after out_of_fuel s = none
  first_after (change_dir none) s = some (s, [])
  first_after (change_dir (some dir)) s = some (chdir dir s, [])
  first_after (launch argv) s = some (first_run argv s)

  -- The loop of `main`.
  unfoldable pub first_session : List (Option (List ℕ)) → State → Ran State
  first_session [] s = record { state = s; codes = []; crashed = false }
  first_session (i ∷ is) s = elim (first_after (first_turn i) s) [
    | none ↦ record { state = s; codes = []; crashed = true }
    | some (t, codes) ↦ let rest = first_session is t in record rest { codes = codes ++ rest.codes }
  ]
