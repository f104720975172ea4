-- ===== src/Log/Tests.antt =====
-- Messages of logMessage (0211/Log.hpp, 0215/udp/Log.hpp, 0215/tcp/threadPool/Log.hpp).
use os_net_work_code.Base.{◌≡◌, refl, true, ℕ, some, List, [], ◌∷◌, ◌++◌, map, arith}
use os_net_work_code.Buffer.{c_string}
use os_net_work_code.Udp.Key.{digits}
use os_net_work_code.Log.Defs.{
  Message, Outputs, log_all, log_to_stdout, log_and_open, log_to_file, composed, std_buffer,
  log_buffer, timestamp, g_level_map,
}
use os_net_work_code.Log.Bytes.{lines}
use os_net_work_code.Log.Reading.{read_entry, AllPlain}
use os_net_work_code.Log.All.{ended, log_reads_back}

-- A warning at 17 that says "a]b", and an error at 203 that says nothing.
abbrev messages : List Message
messages =
    record { level = 2; time = 17; text = b'a' ∷ b']' ∷ b'b' ∷ [] }
    ∷ record { level = 3; time = 203; text = [] }
    ∷ []

abbrev nothing : Outputs
nothing = record { file = []; stdout = [] }

messages-AllPlain : AllPlain messages
messages-AllPlain = omega arith

log_reads_back_example :
    (out : List ℕ) × (log_all log_to_stdout messages nothing
      ≡ some (record nothing { stdout = nothing.stdout ++ out }))
    × (log_all (log_and_open true) messages nothing
        ≡ some (record nothing { stdout = nothing.stdout ++ out }))
    × (log_all (log_to_file true) (ended messages) nothing
        ≡ some (record nothing { file = nothing.file ++ out }))
    × (map read_entry (lines out) ≡ map some messages)
log_reads_back_example = log_reads_back messages nothing messages-AllPlain

-- "[ERROR] [203] "
composed-error :
    composed (record { level = 3; time = 203; text = [] })
    ≡ some (
        b'[' ∷ b'E' ∷ b'R' ∷ b'R' ∷ b'O' ∷ b'R' ∷ b']' ∷ b' ' ∷ b'[' ∷ b'2' ∷ b'0' ∷ b'3' ∷ b']'
        ∷ b' ' ∷ [])
unfolding composed std_buffer log_buffer timestamp digits g_level_map c_string
composed-error = refl
