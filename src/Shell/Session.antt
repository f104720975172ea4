-- ===== src/Shell/Session.antt =====
-- The loop of `main` in 1017/shell/myshell.c, over all that is typed: what the children do and the
-- exit codes that are shown.
use os_net_work_code.Base.{
  ℕ, ◌/◌, ◌%◌, ◌*◌, Bool, true, false, Option, none, some, List, [], ◌∷◌, ◌++◌,
}
use os_net_work_code.Shell.Redirect.{Redir, none_redir, input_redir, output_redir, append_redir}
use os_net_work_code.Shell.Turn.{
  Turn, again, undefined, out_of_fuel, change_dir, launch, turn, Io, child_io,
}

-- What the shell asks of the kernel, over an unknown state of the machine. Calls that fail are
-- none; `execvp` gives what the program leaves and the status that `waitpid` stores.
pub record Machine : Type 1 where
  pub State : Type 0
  pub chdir : List ℕ → State → State
  pub fork : State → Option State
  pub open_file : Redir → List ℕ → State → Option State
  pub execvp : List (List ℕ) → Io → State → Option (State × ℕ)

-- The status of a child that has called `exit(code)`, and what WEXITSTATUS takes from a status.
unfoldable pub exited_with : ℕ → ℕ
exited_with code = code % 256 * 256

unfoldable pub wexitstatus : ℕ → ℕ
wexitstatus status = status / 256 % 256

abbrev pub is_some {ℓ} : {A : Type ℓ} → Option A → Bool
is_some none = false
is_some (some a) = true

abbrev or_same {ℓ} : {A : Type ℓ} → Option A → A → A
or_same none a = a
or_same (some b) a = b

-- What is left when the shell stops: the state, the codes shown, and whether it has met undefined
-- behaviour.
pub record Ran (S : Type 0) : Type 0 where
  pub state : S
  pub codes : List ℕ
  pub crashed : Bool

module _ (m : Machine) where
  open m use {State, chdir, fork, open_file, execvp}

  -- The state that the `open` of the child leaves.
  unfoldable pub opened : Redir → Option (List ℕ) → State → State
  opened status none s = s
  opened none_redir (some sep) s = s
  opened input_redir (some sep) s = or_same (open_file input_redir sep s) s
  opened output_redir (some sep) s = or_same (open_file output_redir sep s) s
  opened append_redir (some sep) s = or_same (open_file append_redir sep s) s

  unfoldable pub program : Option (State × ℕ) → State → State × ℕ
  program none s = (s, exited_with 1)
  program (some r) s = r

  -- The child, from `fork` on.
  unfoldable pub child : List (List ℕ) → Redir → Option (List ℕ) → State → State × ℕ
  child argv status file s =
      let io = child_io (λ r sep. is_some (open_file r sep s)) status file in
      let t = opened status file s in program (execvp argv io t) t

  -- `fork`, and the parent's `waitpid`, which fails if `fork` has.
  unfoldable pub run_child : List (List ℕ) → Redir → Option (List ℕ) → State → State × List ℕ
  run_child argv status file s = elim (fork s) [
    | none ↦ (s, [])
    | some t ↦ let (u, code) = child argv status file t in (u, wexitstatus code ∷ [])
  ]

  unfoldable pub go : Option (List ℕ) → State → State
  go none s = s
  go (some dir) s = chdir dir s

  -- What a turn leaves and shows; none is undefined behaviour.
  unfoldable pub after_turn : Turn → State → Option (State × List ℕ)
  after_turn again s = some (s, [])
  after_turn undefined s = none
  after_turn out_of_fuel s = none
  after_turn (change_dir dir) s = some (go dir s, [])
  after_turn (launch argv status file) s = some (run_child argv status file s)

  -- The loop, on what `fgets` reads turn after turn.
  unfoldable pub session : List (Option (List ℕ)) → State → Ran State
  session [] s = record { state = s; codes = []; crashed = false }
  session (i ∷ is) s = elim (after_turn (turn i) s) [
    | none ↦ record { state = s; codes = []; crashed = true }
    | some (t, codes) ↦ let rest = session is t in record rest { codes = codes ++ rest.codes }
  ]
