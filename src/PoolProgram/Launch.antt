-- ===== src/PoolProgram/Launch.antt =====
-- What `run` of 0211/threadPool.hpp logs.
use os_net_work_code.Base.{
  ℕ, zero, suc, ◌≡◌, sym, ap, true, some, List, [], ◌∷◌, ◌++◌, append_assoc, append-nil,
  if◌then◌else◌, arith,
}
use os_net_work_code.Log.Defs.{Message, Outputs, log_to_file, log_all}
use os_net_work_code.Log.Bytes.{Lacks, Lacks-append}
use os_net_work_code.Log.Reading.{level-IsName, line_of, composed_lem, line-Lacks}
use os_net_work_code.PoolProgram.Defs.{normal, thread_name, start_text, run_messages}
use os_net_work_code.PoolProgram.Texts.{Fits, append-Fits, thread_name-Fits}

start_text-Fits : (num : ℕ) → Fits 30 (start_text (thread_name num))
unfolding start_text
start_text-Fits num =
    append-Fits 17 13 (thread_name num)
      (b' ' ∷ 0xE5 ∷ 0x90 ∷ 0xAF ∷ 0xE5 ∷ 0x8A ∷ 0xA8 ∷ 0xE4 ∷ 0xBF ∷ 0xA1 ∷ 0xE6 ∷ 0x81 ∷ 0xAF
        ∷ [])
      (thread_name-Fits num)
      (record { short = omega arith; on_line = omega arith; closed = omega arith })

-- It is all on one line.
pub run-logged :
    (n num : ℕ) (now : ℕ → ℕ) (o : Outputs)
    → (out : List ℕ) × (log_all (log_to_file true) (run_messages n num now) o
        ≡ some (record o { file = o.file ++ out }))
      × Lacks 10 out
unfolding run_messages log_all log_to_file
run-logged zero num now o =
    ([], ap (λ t. some (record o { file = t })) (sym (append-nil o.file)), tt)
run-logged (suc n) num now o =
    let (name, known) = level-IsName normal (omega arith) in
    let text = start_text (thread_name num) in
    let fits = start_text-Fits num in
    let m : Message = record { level = normal; time = now num; text = text } in
    let l = line_of name (now num) text in
    let (out, logs, on_line) = run-logged n (suc num) now (record o { file = o.file ++ l }) in
    (
      l ++ out,
      rw
          (
            run_messages,
            log_all,
            log_to_file,
            composed_lem m name known (omega (arith, fits.short)) fits.closed,
            if◌then◌else◌,
            logs,
          )
          (ap (λ t. some (record o { file = t })) (append_assoc o.file l out)),
      Lacks-append 10 l out (line-Lacks m name known fits.on_line) on_line,
    )
