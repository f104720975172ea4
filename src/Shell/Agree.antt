-- ===== src/Shell/Agree.antt =====
-- The shells of 0921/shell/myshell.c and 1017/shell/myshell.c on lines without redirection.
use os_net_work_code.Base.{
  ℕ, suc, ◌-◌, ◌+◌, zero, ◌≤◌, ◌≡◌, refl, ap, ◌∙◌, Bool-cases, Option-cases, Option, none, some,
  List, [], ◌∷◌, ◌++◌, length, if◌then◌else◌, replicate, ltb, arith, inl, inr, map,
}
use os_net_work_code.Buffer.{c_string, c_string-closed, IsText, fill}
use os_net_work_code.Udp.Server.{same_string}
use os_net_work_code.Shell.Redirect.{none_redir, redirection, last_op}
use os_net_work_code.Shell.Scan.{Plain, check_redir_lem}
use os_net_work_code.Shell.Words.{size, words, strtok, collect_lem}
use os_net_work_code.Shell.Turn.{
  num, cd, Turn, again, undefined, out_of_fuel, change_dir, launch, first_words, dispatch,
  split_command, redirected, chopped, turn, child_io, terminal, zeroed, chop,
}
use os_net_work_code.Shell.Meaning.{cut_line}
use os_net_work_code.Shell.Session.{
  Machine, opened, program, child, run_child, go, after_turn, session,
}
use os_net_work_code.Shell.First.{
  FirstTurn, cleared, strip, first_argv, choose, split, stripped, first_turn, first_child,
  first_run, first_after, first_session,
}

-- What is typed: a line, or the end of the input.
pub data Typed : Type 0 where
  line : List ℕ → Typed
  end_of_file : Typed

-- What `fgets` makes of it.
unfoldable pub fgets : Typed → Option (List ℕ)
fgets (line s) = some (s ++ 10 ∷ [])
fgets end_of_file = none

-- A line that fits into the buffer, with no 0 and no redirection operator.
abbrev pub IsSimple : Typed → Type 0
IsSimple (line s) = IsText s × Plain s × (length s ≤ 1022)
IsSimple end_of_file = Unit {0}

abbrev pub AllSimple : List Typed → Type 0
AllSimple [] = Unit {0}
AllSimple (t ∷ ts) = IsSimple t × AllSimple ts

-- A turn of the first shell as one of the later.
later : FirstTurn → Turn
later FirstTurn.again = again
later FirstTurn.undefined = undefined
later FirstTurn.out_of_fuel = out_of_fuel
later (FirstTurn.change_dir dir) = change_dir dir
later (FirstTurn.launch argv) = launch argv none_redir none

last_op-Plain : (s : List ℕ) → Plain s → last_op s ≡ none
unfolding last_op
last_op-Plain [] h = refl
last_op-Plain (c ∷ s) h = rw (last_op-Plain s h.1, h.0, if◌then◌else◌) refl

dispatch-choose :
    (w : List ℕ) (argv : List (List ℕ)) → dispatch w argv none_redir none ≡ later (choose w argv)
unfolding dispatch choose later
dispatch-choose w argv = elim (Bool-cases (same_string w cd)) [
  | inl y ↦ rw (y, if◌then◌else◌) refl
  | inr n ↦ rw (n, if◌then◌else◌) refl
]

split_command-split : (text : List ℕ) → split_command text none_redir none ≡ later (split text)
unfolding split_command split later first_words first_argv
split_command-split text = elim (Option-cases (strtok text)) [
  | inl e ↦ rw (split_command, split, e) refl
  | inr ((w, r), e) ↦
      let n = length (first_words w) + length (words r) in
      let whole = collect_lem (suc (length r)) r (first_words w) (omega arith) in
      elim (Bool-cases (ltb n size)) [
        | inl y ↦
            rw (split_command, split, e, whole, y, if◌then◌else◌)
              (dispatch-choose w (first_words w ++ words r))
        | inr f ↦ rw (split_command, split, e, whole, f, if◌then◌else◌) refl
      ]
]

strip-chop : (l : List ℕ) (n : ℕ) → strip l n ≡ chop l n
unfolding strip chop
strip-chop l zero = refl
strip-chop l (suc n) = refl

cleared-zeroed : cleared ≡ zeroed
unfolding cleared zeroed
cleared-zeroed = refl

-- A turn of the later shell on a simple line is one of the first.
turn-first : (t : Typed) → IsSimple t → turn (fgets t) ≡ later (first_turn (fgets t))
unfolding turn first_turn fgets later chopped stripped redirected redirection
turn-first (line s) h =
    let (text, plain, short) = h in
    let rest : List ℕ = replicate (num - length (s ++ 10 ∷ [])) 0 in
    rw
      (
        cleared-zeroed,
        strip-chop (fill zeroed (s ++ 10 ∷ [])) (length (c_string (fill zeroed (s ++ 10 ∷ [])))),
        cut_line s text short,
        check_redir_lem s rest text,
        redirection,
        last_op-Plain s plain,
        c_string-closed s rest text,
      )
      (split_command-split s)
turn-first end_of_file h = refl

module _ (m : Machine) where
  open m use {State, execvp}

  run_child-first :
      (argv : List (List ℕ)) (s : State) → run_child m argv none_redir none s ≡ first_run m argv s
  unfolding run_child first_run child first_child opened child_io program
  run_child-first argv s = elim (Option-cases (m.fork s)) [
    | inl e ↦ rw (run_child, first_run, e) refl
    | inr (t, e) ↦ elim (Option-cases (m.execvp argv terminal t)) [
      | inl f ↦ rw (run_child, first_run, e, child, first_child, f) refl
      | inr (r, f) ↦ rw (run_child, first_run, e, child, first_child, f) refl
    ]
  ]

  after_turn-first : (t : FirstTurn) (s : State) → after_turn m (later t) s ≡ first_after m t s
  unfolding after_turn first_after later go
  after_turn-first FirstTurn.again s = refl
  after_turn-first FirstTurn.undefined s = refl
  after_turn-first FirstTurn.out_of_fuel s = refl
  after_turn-first (FirstTurn.change_dir none) s = refl
  after_turn-first (FirstTurn.change_dir (some dir)) s = refl
  after_turn-first (FirstTurn.launch argv) s = ap some (run_child-first argv s)

  -- Over any input whose lines fit into the buffer and have no 0 and no redirection operator, and
  -- whatever the machine does, the later shell is the first one: both leave the machine in the same
  -- state, show the same exit codes, and meet undefined behaviour or not alike.
  pub sessions_agree :
      (ts : List Typed) (s : State)
      → AllSimple ts
      → session m (map fgets ts) s ≡ first_session m (map fgets ts) s
  unfolding session first_session
  sessions_agree [] s h = refl
  sessions_agree (t ∷ ts) s h =
      let same =
        ap (λ u. after_turn m u s) (turn-first t h.0) ∙ after_turn-first (first_turn (fgets t)) s in
      elim (Option-cases (first_after m (first_turn (fgets t)) s)) [
        | inl e ↦ rw (session, first_session, same, e) refl
        | inr ((u, codes), e) ↦ rw (session, first_session, same, e, sessions_agree ts u h.1) refl
      ]
