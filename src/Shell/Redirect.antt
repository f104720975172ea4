-- ===== src/Shell/Redirect.antt =====
-- `CheckRedir` of 1017/shell/myshell.c, and what it finds in a line.
use os_net_work_code.Base.{
  ℕ, zero, suc, ◌+◌, Bool, ◌||◌, Option, none, some, List, [], ◌∷◌, length, get_elem?, set, drop,
  if◌then◌else◌, ◌==◌,
}
use os_net_work_code.Buffer.{c_string}

pub data Redir : Type 0 where
  none_redir input_redir output_redir append_redir : Redir

-- The array after the call, `redir_status`, and the index of the file name that is returned; none
-- stands for NULL.
pub record Found : Type 0 where
  pub line : List ℕ
  pub status : Redir
  pub file : Option ℕ

-- At a '>' with index `end`, which reads `*(end-1)`; `none` is a read before the array.
unfoldable pub at_greater : List ℕ → ℕ → Option Found
at_greater line zero = none
at_greater line (suc p) = elim (get_elem? line p) [
  | none ↦ none
  | some d ↦
      if d == b'>'
      then some (record { line = set line p 0; status = append_redir; file = some (p + 2) })
      else some (record { line = set line (suc p) 0; status = output_redir; file = some (p + 2) })
]

-- The loop, with `n` characters at and before `end`.
unfoldable pub scan : List ℕ → ℕ → Option Found
scan line zero = some (record { line = line; status = none_redir; file = none })
scan line (suc end) =
    let rest = scan line end in
    elim (get_elem? line end) [
      | none ↦ none
      | some c ↦
          if c == b'>'
          then at_greater line end
          else if c == b'<'
          then some (record { line = set line end 0; status = input_redir; file = some (end + 1) })
          else rest
    ]

unfoldable pub check_redir : List ℕ → Option Found
check_redir start = scan start (length (c_string start))

-- What the caller sees: the command, the kind of redirection, and the name of the file.
pub record Line : Type 0 where
  pub command : List ℕ
  pub status : Redir
  pub file : Option (List ℕ)

unfoldable pub reading : Option Found → Option Line
reading none = none
reading (some r) = some (record {
  command = c_string r.line;
  status = r.status;
  file = elim r.file [ none ↦ none | some i ↦ some (c_string (drop i r.line)) ];
})

-- The last '<' or '>' of a text, with what stands before and after it.
pub record Cut : Type 0 where
  pub before : List ℕ
  pub op : ℕ
  pub after : List ℕ

abbrev pub is_op : ℕ → Bool
is_op c = (c == b'>') || (c == b'<')

unfoldable pub last_op : List ℕ → Option Cut
last_op [] = none
last_op (c ∷ s) = elim (last_op s) [
  | some r ↦ some (record r { before = c ∷ r.before })
  | none ↦ if is_op c then some (record { before = []; op = c; after = s }) else none
]

-- All but the last character, and that.
unfoldable pub unsnoc : List ℕ → Option (List ℕ × ℕ)
unsnoc [] = none
unsnoc (c ∷ s) = elim (unsnoc s) [ none ↦ some ([], c) | some (i, d) ↦ some (c ∷ i, d) ]

abbrev pub found : List ℕ → Redir → List ℕ → Option Line
found command status file = some (record { command = command; status = status; file = some file })

-- Output to `after`: append if there are two '>' in a row; a line that starts with its only '>' is
-- read before its start.
unfoldable pub output : List ℕ → List ℕ → Option Line
output before after = elim (unsnoc before) [
  | none ↦ none
  | some (i, d) ↦ if d == b'>' then found i append_redir after else found before output_redir after
]

-- What a line means: the last operator splits it.
unfoldable pub redirection : List ℕ → Option Line
redirection s = elim (last_op s) [
  | none ↦ some (record { command = s; status = none_redir; file = none })
  | some r ↦ if r.op == b'>' then output r.before r.after else found r.before input_redir r.after
]
