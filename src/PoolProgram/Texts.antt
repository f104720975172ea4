-- ===== src/PoolProgram/Texts.antt =====
-- The texts of the messages of 0211/testMain.cc and 0211/Task.hpp fit into the log's buffer and have
-- no newline.
use os_net_work_code.Base.{
  ℕ, ◌+◌, ◌^◌, ◌≤◌, ◌<◌, List, [], ◌∷◌, ◌++◌, length, length-append, arith, inl,
}
use os_net_work_code.Udp.Key.{length-digits}
use os_net_work_code.Log.Bytes.{Lacks, Lacks-append, Lacks-digits, take-short}
use os_net_work_code.Log.Reading.{IsPlain, AllPlain}
use os_net_work_code.PoolProgram.Defs.{
  Task, func, int_text, thread_name, result_text, made_text, Line, made_line, result_line, message,
  messages,
}

-- Short, and on one line.
pub record Fits (n : ℕ) (s : List ℕ) : Type 0 where
  pub short : length s ≤ n
  pub on_line : Lacks 10 s
  pub closed : Lacks 0 s

int_text-Fits : (n : ℕ) → Fits 10 (int_text n)
unfolding int_text
int_text-Fits n = record {
  short = length-digits 10 n;
  on_line = Lacks-digits 10 n 10 (inl (omega arith));
  closed = Lacks-digits 10 n 0 (inl (omega arith));
}

pub append-Fits : (m n : ℕ) (s t : List ℕ) → Fits m s → Fits n t → Fits (m + n) (s ++ t)
append-Fits m n s t h k = record {
  short = omega (arith, length-append s t, h.short, k.short);
  on_line = Lacks-append 10 s t h.on_line k.on_line;
  closed = Lacks-append 0 s t h.closed k.closed;
}

pub thread_name-Fits : (num : ℕ) → Fits 17 (thread_name num)
unfolding thread_name
thread_name-Fits num =
    let whole =
      append-Fits 7 10 (b'T' ∷ b'h' ∷ b'r' ∷ b'e' ∷ b'a' ∷ b'd' ∷ b'-' ∷ []) (int_text num)
        (record { short = omega arith; on_line = omega arith; closed = omega arith })
        (int_text-Fits num) in
    rw
      (take-short 63 (b'T' ∷ b'h' ∷ b'r' ∷ b'e' ∷ b'a' ∷ b'd' ∷ b'-' ∷ int_text num)
        (omega (arith, whole.short)))
      whole

result_text-Fits : (name : List ℕ) (t : Task) → Fits 17 name → Fits 53 (result_text name t)
unfolding result_text
result_text-Fits name t h =
    append-Fits 8 45 (0xE7 ∷ 0xBA ∷ 0xBF ∷ 0xE7 ∷ 0xA8 ∷ 0x8B ∷ b':' ∷ b' ' ∷ [])
      (name
        ++ b','
          ∷ 0xE5
          ∷ 0xA4
          ∷ 0x84
          ∷ 0xE7
          ∷ 0x90
          ∷ 0x86
          ∷ 0xE7
          ∷ 0xBB
          ∷ 0x93
          ∷ 0xE6
          ∷ 0x9E
          ∷ 0x9C
          ∷ 0xE6
          ∷ 0x98
          ∷ 0xAF
          ∷ b':'
          ∷ b' '
          ∷ int_text (func t.x t.y))
      (record { short = omega arith; on_line = omega arith; closed = omega arith })
      (append-Fits 17 28 name
        (b','
          ∷ 0xE5
          ∷ 0xA4
          ∷ 0x84
          ∷ 0xE7
          ∷ 0x90
          ∷ 0x86
          ∷ 0xE7
          ∷ 0xBB
          ∷ 0x93
          ∷ 0xE6
          ∷ 0x9E
          ∷ 0x9C
          ∷ 0xE6
          ∷ 0x98
          ∷ 0xAF
          ∷ b':'
          ∷ b' '
          ∷ int_text (func t.x t.y))
        h
        (append-Fits 18 10
          (b',' ∷ 0xE5 ∷ 0xA4 ∷ 0x84 ∷ 0xE7 ∷ 0x90 ∷ 0x86 ∷ 0xE7 ∷ 0xBB ∷ 0x93 ∷ 0xE6 ∷ 0x9E ∷ 0x9C
            ∷ 0xE6 ∷ 0x98 ∷ 0xAF ∷ b':' ∷ b' ' ∷ [])
          (int_text (func t.x t.y))
          (record { short = omega arith; on_line = omega arith; closed = omega arith })
          (int_text-Fits (func t.x t.y))))

made_text-Fits : (t : Task) → Fits 50 (made_text t)
unfolding made_text
made_text-Fits t =
    append-Fits 20 30
      (0xE4 ∷ 0xBB ∷ 0xBB ∷ 0xE5 ∷ 0x8A ∷ 0xA1 ∷ 0xE5 ∷ 0x88 ∷ 0xB6 ∷ 0xE4 ∷ 0xBD ∷ 0x9C ∷ 0xE5
        ∷ 0xAE ∷ 0x8C ∷ 0xE6 ∷ 0x88 ∷ 0x90 ∷ b':' ∷ b' ' ∷ [])
      (int_text t.x ++ b' ' ∷ b'+' ∷ b' ' ∷ (int_text t.y ++ b' ' ∷ b'=' ∷ b'?' ∷ b' ' ∷ []))
      (record { short = omega arith; on_line = omega arith; closed = omega arith })
      (append-Fits 10 20 (int_text t.x)
        (b' ' ∷ b'+' ∷ b' ' ∷ (int_text t.y ++ b' ' ∷ b'=' ∷ b'?' ∷ b' ' ∷ [])) (int_text-Fits t.x)
        (append-Fits 3 17 (b' ' ∷ b'+' ∷ b' ' ∷ []) (int_text t.y ++ b' ' ∷ b'=' ∷ b'?' ∷ b' ' ∷ [])
          (record { short = omega arith; on_line = omega arith; closed = omega arith })
          (append-Fits 10 7 (int_text t.y) (b' ' ∷ b'=' ∷ b'?' ∷ b' ' ∷ []) (int_text-Fits t.y)
            (record { short = omega arith; on_line = omega arith; closed = omega arith }))))

-- When a line was logged.
abbrev pub time_of : Line → ℕ
time_of (made_line m now) = now
time_of (result_line num m now) = now

abbrev pub AllTimed : List Line → Type 0
AllTimed [] = Unit {0}
AllTimed (l ∷ ls) = (time_of l < 10 ^ 19) × AllTimed ls

message-IsPlain : (l : Line) → time_of l < 10 ^ 19 → IsPlain (message l)
unfolding message
message-IsPlain (made_line m now) h =
    let f = made_text-Fits m.0 in (omega arith, h, omega (arith, f.short), f.on_line, f.closed)
message-IsPlain (result_line num m now) h =
    let f = result_text-Fits (thread_name num) m.0 (thread_name-Fits num) in
    (omega arith, h, omega (arith, f.short), f.on_line, f.closed)

pub messages-AllPlain : (ls : List Line) → AllTimed ls → AllPlain (messages ls)
unfolding messages
messages-AllPlain [] h = tt
messages-AllPlain (l ∷ ls) h = (message-IsPlain l h.0, messages-AllPlain ls h.1)
