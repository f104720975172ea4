-- ===== src/Log/Reading.antt =====
-- One line of logMessage, read back (0211/Log.hpp, 0215/udp/Log.hpp, 0215/tcp/threadPool/Log.hpp).
use os_net_work_code.Base.{
  ℕ, zero, suc, ◌^◌, ◌≤◌, ◌<◌, ◌≡◌, refl, ap, ap₂, ◌∙◌, Option, none, some, List, [], ◌∷◌, ◌++◌,
  append_assoc, length, length-append, drop, get_elem?, if◌then◌else◌, ◌==◌, arith, inl, inr,
}
use os_net_work_code.Udp.Key.{digits, value, value-digits, length-digits}
use os_net_work_code.Log.Defs.{g_level_map, timestamp, Message, std_buffer, log_buffer, composed}
use os_net_work_code.Log.Bytes.{
  Lacks, Lacks-append, Lacks-digits, until, until-Lacks, take-short, c_string-Lacks,
}

unfoldable pub same : List ℕ → List ℕ → ℕ
same [] [] = 1
same [] (d ∷ t) = 0
same (c ∷ s) [] = 0
same (c ∷ s) (d ∷ t) = let rest = same s t in if c == d then rest else 0

-- The number of a name, counted from `i`.
unfoldable pub level_of : List ℕ → List (List ℕ) → ℕ → Option ℕ
level_of name [] i = none
level_of name (n ∷ ns) i =
    let rest = level_of name ns (suc i) in if same name n == 1 then some i else rest

-- A line of the log, taken apart: "[" name "] [" time "] " text.
unfoldable pub read_time : Option ℕ → List ℕ × List ℕ → Option Message
read_time none parts = none
read_time (some level) (time, text) =
    some (record { level = level; time = value 0 time; text = drop 1 text })

unfoldable pub read_name : List ℕ × List ℕ → Option Message
read_name (name, more) = read_time (level_of name g_level_map 0) (until b']' (drop 2 more))

unfoldable pub read_entry : List ℕ → Option Message
read_entry l = read_name (until b']' (drop 1 l))

-- What a message has to be for its line to be read back: the level is one of the five, the time fits
-- into its 19 digits, and the text into its buffer, with room for a newline; it has no newline and no
-- 0.
abbrev pub IsPlain : Message → Type 0
IsPlain m =
    (m.level < 5) × (m.time < 10 ^ 19) × (length m.text ≤ 1022) × Lacks 10 m.text × Lacks 0 m.text

abbrev pub AllPlain : List Message → Type 0
AllPlain [] = Unit {0}
AllPlain (m ∷ ms) = IsPlain m × AllPlain ms

-- What is used of a name of a level.
pub record IsName (level : ℕ) (name : List ℕ) : Type 0 where
  pub found : get_elem? g_level_map level ≡ some name
  pub closed : Lacks b']' name
  pub on_line : Lacks 10 name
  pub short : length name ≤ 7
  pub known : level_of name g_level_map 0 ≡ some level

pub level-IsName : (level : ℕ) → level < 5 → (name : List ℕ) × IsName level name
unfolding g_level_map level_of same
level-IsName zero h = (
  b'D' ∷ b'E' ∷ b'B' ∷ b'U' ∷ b'G' ∷ [],
  record {
    found = refl;
    closed = omega arith;
    on_line = omega arith;
    short = omega arith;
    known = refl;
  },
)
level-IsName (suc zero) h = (
  b'N' ∷ b'O' ∷ b'R' ∷ b'M' ∷ b'A' ∷ b'L' ∷ [],
  record {
    found = refl;
    closed = omega arith;
    on_line = omega arith;
    short = omega arith;
    known = refl;
  },
)
level-IsName (suc (suc zero)) h = (
  b'W' ∷ b'A' ∷ b'R' ∷ b'N' ∷ b'I' ∷ b'N' ∷ b'G' ∷ [],
  record {
    found = refl;
    closed = omega arith;
    on_line = omega arith;
    short = omega arith;
    known = refl;
  },
)
level-IsName (suc (suc (suc zero))) h = (
  b'E' ∷ b'R' ∷ b'R' ∷ b'O' ∷ b'R' ∷ [],
  record {
    found = refl;
    closed = omega arith;
    on_line = omega arith;
    short = omega arith;
    known = refl;
  },
)
level-IsName (suc (suc (suc (suc zero)))) h = (
  b'F' ∷ b'A' ∷ b'T' ∷ b'A' ∷ b'L' ∷ [],
  record {
    found = refl;
    closed = omega arith;
    on_line = omega arith;
    short = omega arith;
    known = refl;
  },
)
level-IsName (suc (suc (suc (suc (suc k))))) h = absurd (omega (arith, h))

-- The line of a message.
abbrev pub line_of : List ℕ → ℕ → List ℕ → List ℕ
line_of name time text =
    b'[' ∷ (name ++ b']' ∷ b' ' ∷ b'[' ∷ (timestamp time ++ b']' ∷ b' ' ∷ text))

pub regroup :
    (name stamp text : List ℕ)
    → (b'[' ∷ (name ++ b']' ∷ b' ' ∷ b'[' ∷ (stamp ++ b']' ∷ b' ' ∷ []))) ++ text
      ≡ b'[' ∷ (name ++ b']' ∷ b' ' ∷ b'[' ∷ (stamp ++ b']' ∷ b' ' ∷ text))
regroup name stamp text =
    ap (λ l. b'[' ∷ l)
      (append_assoc name (b']' ∷ b' ' ∷ b'[' ∷ (stamp ++ b']' ∷ b' ' ∷ [])) text
        ∙ ap (λ l. name ++ b']' ∷ b' ' ∷ b'[' ∷ l) (append_assoc stamp (b']' ∷ b' ' ∷ []) text))

std_buffer_lem :
    (name : List ℕ) (t : ℕ)
    → length name ≤ 7
    → std_buffer name t ≡ b'[' ∷ (name ++ b']' ∷ b' ' ∷ b'[' ∷ (timestamp t ++ b']' ∷ b' ' ∷ []))
unfolding std_buffer timestamp
std_buffer_lem name t short =
    take-short 1023 (b'[' ∷ (name ++ b']' ∷ b' ' ∷ b'[' ∷ (digits 19 t ++ b']' ∷ b' ' ∷ []))) (
      omega (
        arith,
        short,
        length-digits 19 t,
        length-append name (b']' ∷ b' ' ∷ b'[' ∷ (digits 19 t ++ b']' ∷ b' ' ∷ [])),
        length-append (digits 19 t) (b']' ∷ b' ' ∷ []),
      ))

log_buffer_lem : (text : List ℕ) → length text ≤ 1023 → log_buffer text ≡ text
unfolding log_buffer
log_buffer_lem text short = take-short 1023 text short

pub composed_lem :
    (m : Message) (name : List ℕ)
    → IsName m.level name
    → length m.text ≤ 1023
    → Lacks 0 m.text
    → composed m ≡ some (line_of name m.time m.text)
unfolding composed
composed_lem m name n short text =
    rw
      (
        composed,
        n.found,
        std_buffer_lem name m.time n.short,
        log_buffer_lem m.text short,
        c_string-Lacks m.text text,
      )
      (ap some (regroup name (timestamp m.time) m.text))

pub read_entry-line :
    (m : Message) (name : List ℕ)
    → IsName m.level name
    → m.time < 10 ^ 19
    → read_entry (line_of name m.time m.text) ≡ some m
unfolding read_entry read_name read_time timestamp
read_entry-line m name n time =
    ap read_name
      (until-Lacks b']' name (b' ' ∷ b'[' ∷ (digits 19 m.time ++ b']' ∷ b' ' ∷ m.text)) n.closed)
    ∙ ap₂ read_time n.known (
        until-Lacks b']' (digits 19 m.time) (b' ' ∷ m.text)
          (Lacks-digits 19 m.time b']' (inr (omega arith))))
    ∙ ap (λ t. some (record { level = m.level; time = t; text = m.text }))
        (value-digits 19 m.time time)

pub line-Lacks :
    (m : Message) (name : List ℕ)
    → IsName m.level name
    → Lacks 10 m.text
    → Lacks 10 (line_of name m.time m.text)
unfolding timestamp
line-Lacks m name n text = (
  (λ e. cc),
  Lacks-append 10 name (b']' ∷ b' ' ∷ b'[' ∷ (digits 19 m.time ++ b']' ∷ b' ' ∷ m.text)) n.on_line (
    (λ e. cc),
    (
      (λ e. cc),
      (
        (λ e. cc),
        Lacks-append 10 (digits 19 m.time) (b']' ∷ b' ' ∷ m.text)
            (Lacks-digits 19 m.time 10 (inl (omega arith))) ((λ e. cc), ((λ e. cc), text)),
      ),
    ),
  ),
)
