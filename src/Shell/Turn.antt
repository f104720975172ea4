-- ===== src/Shell/Turn.antt =====
-- One turn of the loop of `main` in 1017/shell/myshell.c.
use os_net_work_code.Base.{
  ℕ, zero, suc, Bool, Option, none, some, List, [], ◌∷◌, length, get_elem?, set, replicate,
  if◌then◌else◌,
}
use os_net_work_code.Buffer.{c_string, fill}
use os_net_work_code.Udp.Server.{same_string}
use os_net_work_code.Shell.Redirect.{
  Redir, none_redir, input_redir, output_redir, append_redir, check_redir, Line, reading,
}
use os_net_work_code.Shell.Words.{strtok, filled, overflow, no_fuel, collect}

abbrev pub num : ℕ
num = 1024

abbrev pub ls : List ℕ
ls = b'l' ∷ b's' ∷ []

abbrev pub cd : List ℕ
cd = b'c' ∷ b'd' ∷ []

-- "--color=auto"
abbrev pub color : List ℕ
color = b'-' ∷ b'-' ∷ b'c' ∷ b'o' ∷ b'l' ∷ b'o' ∷ b'r' ∷ b'=' ∷ b'a' ∷ b'u' ∷ b't' ∷ b'o' ∷ []

-- What a turn comes to: the input could not be read and the loop goes on, undefined behaviour, a
-- `chdir` (none: there is no argument) by the shell itself, or a child that is to run `argv`.
pub data Turn : Type 0 where
  again : Turn
  undefined : Turn
  out_of_fuel : Turn
  change_dir : Option (List ℕ) → Turn
  launch : List (List ℕ) → Redir → Option (List ℕ) → Turn

-- `cmd_line` after `memset`.
unfoldable pub zeroed : List ℕ
zeroed = replicate num 0

-- `cmd_line[strlen(cmd_line)-1] = '\0'`, given the length; `none` is a store before the array.
unfoldable pub chop : List ℕ → ℕ → Option (List ℕ)
chop line zero = none
chop line (suc k) = some (set line k 0)

-- The first words of `g_argv`: "ls" is given a colour.
unfoldable pub first_words : List ℕ → List (List ℕ)
first_words command = command ∷ (if same_string command ls then color ∷ [] else [])

-- `cd` is run by the shell, all else by a child.
unfoldable pub dispatch : List ℕ → List (List ℕ) → Redir → Option (List ℕ) → Turn
dispatch command argv status file =
    if same_string command cd then change_dir (get_elem? argv 1) else launch argv status file

-- The array as `strtok` and the loop behind it leave it. `strcmp` of NULL is undefined.
unfoldable pub split_command : List ℕ → Redir → Option (List ℕ) → Turn
split_command text status file = elim (strtok text) [
  | none ↦ undefined
  | some (command, rest) ↦ elim (collect (suc (length rest)) rest (first_words command)) [
    | filled argv ↦ dispatch command argv status file
    | overflow ↦ undefined
    | no_fuel ↦ out_of_fuel
  ]
]

unfoldable pub redirected : Option Line → Turn
redirected none = undefined
redirected (some l) = split_command l.command l.status l.file

unfoldable pub chopped : Option (List ℕ) → Turn
chopped none = undefined
chopped (some line) = redirected (reading (check_redir line))

-- The turn, on what `fgets` has read, or none.
unfoldable pub turn : Option (List ℕ) → Turn
turn none = again
turn (some input) = let line = fill zeroed input in chopped (chop line (length (c_string line)))

-- Where a child reads and writes: a file, or none for the terminal.
pub record Io : Type 0 where
  pub stdin : Option (List ℕ)
  pub stdout : Option (List ℕ)

abbrev pub terminal : Io
terminal = record { stdin = none; stdout = none }

-- The `switch` of the child. `opens` says whether `open` succeeds; `dup2` of -1 changes nothing.
unfoldable pub child_io : (Redir → List ℕ → Bool) → Redir → Option (List ℕ) → Io
child_io opens status none = terminal
child_io opens none_redir (some sep) = terminal
child_io opens input_redir (some sep) =
    if opens input_redir sep then record { stdin = some sep; stdout = none } else terminal
child_io opens output_redir (some sep) =
    if opens output_redir sep then record { stdin = none; stdout = some sep } else terminal
child_io opens append_redir (some sep) =
    if opens append_redir sep then record { stdin = none; stdout = some sep } else terminal
