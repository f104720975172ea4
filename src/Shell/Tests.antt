-- ===== src/Shell/Tests.antt =====
-- Lines of the shell of 1017/shell/myshell.c.
use os_net_work_code.Base.{
  ◌≡◌, ◌≢◌, refl, ℕ, some, List, [], ◌∷◌, ◌++◌, ◌*◌, arith, map, length, false,
}
use os_net_work_code.Buffer.{IsText, c_string}
use os_net_work_code.Udp.Server.{same_string}
use os_net_work_code.Shell.Redirect.{check_redir, reading, append_redir, scan, at_greater}
use os_net_work_code.Shell.Words.{collect, strtok}
use os_net_work_code.Shell.Turn.{
  turn, chopped, chop, zeroed, redirected, split_command, first_words, dispatch, launch, color, ls,
  undefined, out_of_fuel,
}
use os_net_work_code.Shell.Session.{Machine, session, wexitstatus}
use os_net_work_code.Shell.First.{
  first_session, first_after, first_turn, stripped, strip, cleared, split, first_argv, choose,
  first_run, first_child,
}
use os_net_work_code.Shell.Agree.{Typed, line, end_of_file, fgets, AllSimple, sessions_agree}
use os_net_work_code.Shell.Meaning.{meaning, turn-meaning, turn_terminates}

-- "ls -l>>f"
abbrev listing : List ℕ
listing = b'l' ∷ b's' ∷ b' ' ∷ b'-' ∷ b'l' ∷ b'>' ∷ b'>' ∷ b'f' ∷ []

-- "cd  x"
abbrev change : List ℕ
change = b'c' ∷ b'd' ∷ b' ' ∷ b' ' ∷ b'x' ∷ []

listing-IsText : IsText listing
listing-IsText = (
  (λ e. cc),
  ((λ e. cc), ((λ e. cc), ((λ e. cc), ((λ e. cc), ((λ e. cc), ((λ e. cc), ((λ e. cc), tt))))))),
)

turn_example : turn (some (listing ++ 10 ∷ [])) ≡ meaning listing
turn_example = turn-meaning listing listing-IsText (omega arith)

turn_terminates_example : turn (some (change ++ 10 ∷ [])) ≢ out_of_fuel
turn_terminates_example = turn_terminates (some (change ++ 10 ∷ []))

turn-listing :
    turn (some (listing ++ 10 ∷ []))
    ≡ launch (ls ∷ color ∷ (b'-' ∷ b'l' ∷ []) ∷ []) append_redir (some (b'f' ∷ []))
unfolding turn chopped chop zeroed c_string redirected reading check_redir scan split_command strtok
    at_greater collect first_words same_string dispatch
turn-listing = refl

turn-empty : turn (some (10 ∷ [])) ≡ undefined
unfolding turn chopped chop zeroed c_string redirected reading check_redir scan split_command strtok
turn-empty = refl

-- A machine that keeps the commands run; its programs exit with their number of words.
abbrev counting : Machine
counting = record {
  State = List (List (List ℕ));
  chdir = λ dir s. (dir ∷ []) ∷ s;
  fork = λ s. some s;
  open_file = λ status name s. some s;
  execvp = λ argv io s. some (argv ∷ s, 256 * length argv);
}

-- "ls -l", the end of the input, and "cd  x".
abbrev typed : List Typed
typed = line (b'l' ∷ b's' ∷ b' ' ∷ b'-' ∷ b'l' ∷ []) ∷ end_of_file ∷ line change ∷ []

typed-AllSimple : AllSimple typed
typed-AllSimple = (
  (
    ((λ e. cc), ((λ e. cc), ((λ e. cc), ((λ e. cc), ((λ e. cc), tt))))),
    (refl, (refl, (refl, (refl, (refl, tt))))),
    omega arith,
  ),
  (
    tt,
    (
      (
        ((λ e. cc), ((λ e. cc), ((λ e. cc), ((λ e. cc), ((λ e. cc), tt))))),
        (refl, (refl, (refl, (refl, (refl, tt))))),
        omega arith,
      ),
      tt,
    ),
  ),
)

sessions_agree_example :
    session counting (map fgets typed) [] ≡ first_session counting (map fgets typed) []
sessions_agree_example = sessions_agree counting typed [] typed-AllSimple

session-typed : first_session counting (map fgets typed) [] ≡ record {
  state = ((b'x' ∷ []) ∷ []) ∷ (ls ∷ color ∷ (b'-' ∷ b'l' ∷ []) ∷ []) ∷ [];
  codes = 3 ∷ [];
  crashed = false;
}
unfolding first_session first_after first_turn stripped strip cleared split strtok collect
    first_argv same_string choose fgets c_string first_run first_child wexitstatus
session-typed = refl
