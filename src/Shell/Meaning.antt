-- ===== src/Shell/Meaning.antt =====
-- What a turn of the shell of 1017/shell/myshell.c does with a line, without its buffers.
use os_net_work_code.Base.{
  ℕ, suc, ◌+◌, ◌-◌, ◌≤◌, ◌<◌, ◌≡◌, ◌≢◌, refl, sym, ap, ◌∙◌, get_elem?, Bool-cases, Option-cases,
  Option, none, some, List, [], ◌∷◌, ◌++◌, append_assoc, length, length-append, set, set-append,
  drop-replicate, replicate, if◌then◌else◌, ltb, arith, inl, inr,
}
use os_net_work_code.Buffer.{c_string, c_string-zeros, IsText, append-IsText, fill}
use os_net_work_code.Udp.Server.{same_string}
use os_net_work_code.Udp.Room.{same_string_iff}
use os_net_work_code.Shell.Redirect.{Redir, Line, redirection, check_redir, reading}
use os_net_work_code.Shell.Scan.{check_redir_lem}
use os_net_work_code.Shell.Words.{size, words, strtok-words, collect_lem}
use os_net_work_code.Shell.Turn.{
  num, cd, ls, Turn, change_dir, launch, undefined, zeroed, chop, first_words, dispatch,
  split_command, redirected, chopped, turn, out_of_fuel,
}

-- The program and its arguments: "ls" is given "--color=auto".
unfoldable pub arguments : List ℕ → List (List ℕ) → List (List ℕ)
arguments w ws =
    if same_string w (b'l' ∷ b's' ∷ [])
    then w
      ∷ (b'-' ∷ b'-' ∷ b'c' ∷ b'o' ∷ b'l' ∷ b'o' ∷ b'r' ∷ b'=' ∷ b'a' ∷ b'u' ∷ b't' ∷ b'o' ∷ [])
      ∷ ws
    else w ∷ ws

unfoldable pub first_of : List (List ℕ) → Option (List ℕ)
first_of [] = none
first_of (w ∷ ws) = some w

-- "cd" is the shell's own, and goes to its first argument; all else is launched.
unfoldable pub performed : List ℕ → List (List ℕ) → Redir → Option (List ℕ) → Turn
performed w ws status file =
    if same_string w (b'c' ∷ b'd' ∷ [])
    then change_dir (first_of ws)
    else launch (arguments w ws) status file

-- The first word names the program; all that it is given has to fit into the array with the NULL
-- behind it.
unfoldable pub interpret : List (List ℕ) → Redir → Option (List ℕ) → Turn
interpret [] status file = undefined
interpret (w ∷ ws) status file =
    if ltb (length (arguments w ws)) size then performed w ws status file else undefined

unfoldable pub interpreted : Option Line → Turn
interpreted none = undefined
interpreted (some l) = interpret (words l.command) l.status l.file

unfoldable pub meaning : List ℕ → Turn
meaning s = interpreted (redirection s)

first_words-arguments : (w : List ℕ) (ws : List (List ℕ)) → first_words w ++ ws ≡ arguments w ws
unfolding first_words arguments
first_words-arguments w ws = elim (Bool-cases (same_string w ls)) [
  | inl y ↦ rw (y, if◌then◌else◌) refl
  | inr n ↦ rw (n, if◌then◌else◌) refl
]

second_of :
    (w : List ℕ) (ws : List (List ℕ)) → w ≡ cd → get_elem? (first_words w ++ ws) 1 ≡ first_of ws
unfolding first_words same_string first_of
second_of w [] e = rw e refl
second_of w (v ∷ ws) e = rw e refl

dispatch-performed :
    (w : List ℕ) (ws : List (List ℕ)) (status : Redir) (file : Option (List ℕ))
    → dispatch w (first_words w ++ ws) status file ≡ performed w ws status file
unfolding dispatch performed
dispatch-performed w ws status file = elim (Bool-cases (same_string w cd)) [
  | inl y ↦ rw (y, if◌then◌else◌) (ap change_dir (second_of w ws ((same_string_iff w cd).0 y)))
  | inr n ↦
      rw (n, if◌then◌else◌) (ap (λ argv. launch argv status file) (first_words-arguments w ws))
]

-- What the loop collects, and what becomes of it.
sizes :
    (w : List ℕ) (ws : List (List ℕ)) → length (first_words w) + length ws ≡ length (arguments w ws)
sizes w ws = sym (length-append (first_words w) ws) ∙ ap length (first_words-arguments w ws)

split-interpret :
    (text : List ℕ) (status : Redir) (file : Option (List ℕ))
    → split_command text status file ≡ interpret (words text) status file
unfolding split_command interpret
split-interpret text status file = elim (strtok-words text) [
  | inl (e, w) ↦ rw (split_command, e, w, interpret) refl
  | inr (t, r, e, w, l) ↦
      rw
        (
          split_command,
          e,
          w,
          interpret,
          collect_lem (suc (length r)) r (first_words t) (omega arith),
          sizes t (words r),
        )
        (elim (Bool-cases (ltb (length (arguments t (words r))) size)) [
          | inl y ↦ rw (y, if◌then◌else◌) (dispatch-performed t (words r) status file)
          | inr n ↦ rw (n, if◌then◌else◌) refl
        ])
]

redirected-interpreted : (l : Option Line) → redirected l ≡ interpreted l
unfolding redirected interpreted
redirected-interpreted none = refl
redirected-interpreted (some l) = split-interpret l.command l.status l.file

-- The buffer with the line of `fgets` in it.
read_line : (t : List ℕ) → fill zeroed t ≡ t ++ replicate (num - length t) 0
unfolding zeroed
read_line t = ap (λ rest. t ++ rest) (drop-replicate (length t) num 0)

line-IsText : (s : List ℕ) → IsText s → IsText (s ++ 10 ∷ [])
line-IsText s text = append-IsText s (10 ∷ []) text ((λ e. absurd (omega (arith, e))), tt)

overwrite :
    (s : List ℕ) (n : ℕ)
    → set ((s ++ 10 ∷ []) ++ replicate n 0) (length s) 0 ≡ s ++ 0 ∷ replicate n 0
overwrite s n =
    ap (λ l. set l (length s) 0) (append_assoc s (10 ∷ []) (replicate n 0))
    ∙ set-append s 10 0 (replicate n 0)

-- `strlen` of the buffer counts the newline, which is overwritten.
pub cut_line :
    (s : List ℕ)
    → IsText s
    → length s ≤ 1022
    → chop (fill zeroed (s ++ 10 ∷ [])) (length (c_string (fill zeroed (s ++ 10 ∷ []))))
      ≡ some (s ++ 0 ∷ replicate (num - length (s ++ 10 ∷ [])) 0)
unfolding chop
cut_line s text short =
    rw
      (
        read_line (s ++ 10 ∷ []),
        c_string-zeros (s ++ 10 ∷ []) (num - length (s ++ 10 ∷ [])) (line-IsText s text) room,
        one_more,
      )
      (ap some (overwrite s (num - suc (length s))))
  where
    one_more : length (s ++ 10 ∷ []) ≡ suc (length s)
    one_more = omega (arith, length-append s (10 ∷ []))

    room : 0 < num - length (s ++ 10 ∷ [])
    room = omega (arith, one_more, short)

-- A line of at most 1022 characters, none of them 0, that `fgets` reads with its newline is taken
-- as its meaning says: the last redirection operator splits it, its words are what stands between
-- spaces, "cd" is run by the shell itself and all else by a child, with the colour added to "ls".
pub turn-meaning :
    (s : List ℕ) → IsText s → length s ≤ 1022 → turn (some (s ++ 10 ∷ [])) ≡ meaning s
unfolding turn chopped chop meaning
turn-meaning s text short = rw (cut_line s text short) (
    ap redirected (check_redir_lem s (replicate (num - length (s ++ 10 ∷ [])) 0) text)
    ∙ redirected-interpreted (redirection s))

performed-ne-out_of_fuel :
    (w : List ℕ) (ws : List (List ℕ)) (status : Redir) (file : Option (List ℕ))
    → performed w ws status file ≢ out_of_fuel
unfolding performed
performed-ne-out_of_fuel w ws status file = elim (Bool-cases (same_string w cd)) [
  | inl y ↦ rw (y, if◌then◌else◌) (λ e. cc)
  | inr n ↦ rw (n, if◌then◌else◌) (λ e. cc)
]

interpret-ne-out_of_fuel :
    (ws : List (List ℕ)) (status : Redir) (file : Option (List ℕ))
    → interpret ws status file ≢ out_of_fuel
unfolding interpret
interpret-ne-out_of_fuel [] status file = λ e. cc
interpret-ne-out_of_fuel (w ∷ ws) status file =
    elim (Bool-cases (ltb (length (arguments w ws)) size)) [
      | inl y ↦ rw (y, if◌then◌else◌) (performed-ne-out_of_fuel w ws status file)
      | inr n ↦ rw (n, if◌then◌else◌) (λ e. cc)
    ]

chopped-ne-out_of_fuel : (line : Option (List ℕ)) → chopped line ≢ out_of_fuel
unfolding chopped redirected
chopped-ne-out_of_fuel none = λ e. cc
chopped-ne-out_of_fuel (some line) = elim (Option-cases (reading (check_redir line))) [
  | inl e ↦ rw (e) (λ e. cc)
  | inr (l, e) ↦
      rw (e, split-interpret l.command l.status l.file)
        (interpret-ne-out_of_fuel (words l.command) l.status l.file)
]

-- Whatever `fgets` has put into the buffer, the loop that takes the command apart ends within the
-- fuel: it is given one more than the characters that are left.
pub turn_terminates : (input : Option (List ℕ)) → turn input ≢ out_of_fuel
unfolding turn
turn_terminates none = λ e. cc
turn_terminates (some input) =
    chopped-ne-out_of_fuel (chop (fill zeroed input) (length (c_string (fill zeroed input))))
