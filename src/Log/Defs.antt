-- ===== src/Log/Defs.antt =====
-- `logMessage` of 0211/Log.hpp, 0215/tcp/threadPool/Log.hpp and 0215/udp/Log.hpp.
use os_net_work_code.Base.{
  ℕ, ◌-◌, Bool, Option, none, some, List, [], ◌∷◌, ◌++◌, take, get_elem?, if◌then◌else◌,
}
use os_net_work_code.Buffer.{c_string}
use os_net_work_code.Udp.Key.{digits}

-- `gLevelMap`: "DEBUG", "NORMAL", "WARNING", "ERROR" and "FATAL".
unfoldable pub g_level_map : List (List ℕ)
g_level_map =
    (b'D' ∷ b'E' ∷ b'B' ∷ b'U' ∷ b'G' ∷ [])
    ∷ (b'N' ∷ b'O' ∷ b'R' ∷ b'M' ∷ b'A' ∷ b'L' ∷ [])
    ∷ (b'W' ∷ b'A' ∷ b'R' ∷ b'N' ∷ b'I' ∷ b'N' ∷ b'G' ∷ [])
    ∷ (b'E' ∷ b'R' ∷ b'R' ∷ b'O' ∷ b'R' ∷ [])
    ∷ (b'F' ∷ b'A' ∷ b'T' ∷ b'A' ∷ b'L' ∷ [])
    ∷ []

-- The size of `stdBuffer` and of `logBuffer`.
abbrev pub buffer_size : ℕ
buffer_size = 1024

-- A time after 1970 in a `long`, which has 19 digits at most.
unfoldable pub timestamp : ℕ → List ℕ
timestamp t = digits 19 t

-- One call: the level, the time, and what the format and its arguments come to.
pub record Message : Type 0 where
  pub level : ℕ
  pub time : ℕ
  pub text : List ℕ

-- "[%s] [%ld] ", cut to the size of `stdBuffer`.
unfoldable pub std_buffer : List ℕ → ℕ → List ℕ
std_buffer name time =
    take (buffer_size - 1)
      (b'[' ∷ (name ++ b']' ∷ b' ' ∷ b'[' ∷ (timestamp time ++ b']' ∷ b' ' ∷ [])))

unfoldable pub log_buffer : List ℕ → List ℕ
log_buffer text = take (buffer_size - 1) text

-- What `fprintf` writes for "%s%s", so that a 0 in `logBuffer` ends it, as `%c` may put one there;
-- none is a level outside `gLevelMap`.
unfoldable pub composed : Message → Option (List ℕ)
composed m = elim (get_elem? g_level_map m.level) [
  | none ↦ none
  | some name ↦ some (std_buffer name m.time ++ c_string (log_buffer m.text))
]

-- The log file and the standard output.
pub record Outputs : Type 0 where
  pub file : List ℕ
  pub stdout : List ℕ

-- 0211/Log.hpp; `opens` says whether `fopen` succeeds. A null `FILE*` is undefined behaviour.
unfoldable pub log_to_file : Bool → Message → Outputs → Option Outputs
log_to_file opens m o = elim (composed m) [
  | none ↦ none
  | some bytes ↦ if opens then some (record o { file = o.file ++ bytes }) else none
]

-- 0215/tcp/threadPool/Log.hpp: the file is opened and closed, and a line goes to `stdout`.
unfoldable pub log_and_open : Bool → Message → Outputs → Option Outputs
log_and_open opens m o = elim (composed m) [
  | none ↦ none
  | some bytes ↦ if opens then some (record o { stdout = o.stdout ++ (bytes ++ 10 ∷ []) }) else none
]

-- 0215/udp/Log.hpp.
unfoldable pub log_to_stdout : Message → Outputs → Option Outputs
log_to_stdout m o = elim (composed m) [
  | none ↦ none
  | some bytes ↦ some (record o { stdout = o.stdout ++ (bytes ++ 10 ∷ []) })
]

-- Calls one after the other.
unfoldable pub log_all :
    (Message → Outputs → Option Outputs) → List Message → Outputs → Option Outputs
log_all log [] o = some o
log_all log (m ∷ ms) o = elim (log m o) [ none ↦ none | some o' ↦ log_all log ms o' ]
