-- ===== src/PoolProgram/Lines.antt =====
-- The lines that the turns of 0211/testMain.cc add to its log.
use os_net_work_code.Base.{
  ℕ, ◌^◌, ◌≤◌, ◌<◌, ◌≡◌, refl, ap, Bool, true, false, List, [], ◌∷◌, ◌++◌, arith, inl, inr, ◌⊎◌,
}
use os_net_work_code.ThreadPool.Defs.{TaskEvent, pushed, taken, ran}
use os_net_work_code.ThreadPool.Invariant.{runs}
use os_net_work_code.PoolProgram.Defs.{
  Made, Line, made_line, result_line, message, messages, g_thread_num, Turn, produce, act, wake_up,
  results_of, made_lines,
}
use os_net_work_code.PoolProgram.Texts.{AllTimed}

-- The tasks whose results are logged.
unfoldable pub results : List Line → List Made
results [] = []
results (made_line m now ∷ ls) = results ls
results (result_line num m now ∷ ls) = m ∷ results ls

-- Results are logged by the threads with the numbers 1 to 3.
abbrev pub AllByWorkers : List Line → Type 0
AllByWorkers [] = Unit {0}
AllByWorkers (made_line m now ∷ ls) = AllByWorkers ls
AllByWorkers (result_line num m now ∷ ls) = (1 ≤ num) × (num ≤ g_thread_num) × AllByWorkers ls

-- The times fit into 19 digits.
abbrev pub IsTimed : Turn → Type 0
IsTimed (produce r r' now) = now < 10 ^ 19
IsTimed (act i j now) = now < 10 ^ 19
IsTimed (wake_up i) = Unit {0}

abbrev pub AllTurnsTimed : List Turn → Type 0
AllTurnsTimed [] = Unit {0}
AllTurnsTimed (t ∷ ts) = IsTimed t × AllTurnsTimed ts

pub results-append : (ls ms : List Line) → results (ls ++ ms) ≡ results ls ++ results ms
unfolding results
results-append [] ms = refl
results-append (made_line m now ∷ ls) ms = results-append ls ms
results-append (result_line num m now ∷ ls) ms = ap (λ l. m ∷ l) (results-append ls ms)

pub messages-append : (ls ms : List Line) → messages (ls ++ ms) ≡ messages ls ++ messages ms
unfolding messages
messages-append [] ms = refl
messages-append (l ∷ ls) ms = ap (λ t. message l ∷ t) (messages-append ls ms)

pub AllByWorkers-append :
    (ls ms : List Line) → AllByWorkers ls → AllByWorkers ms → AllByWorkers (ls ++ ms)
AllByWorkers-append [] ms h k = k
AllByWorkers-append (made_line m now ∷ ls) ms h k = AllByWorkers-append ls ms h k
AllByWorkers-append (result_line num m now ∷ ls) ms h k =
    (h.0, h.1, AllByWorkers-append ls ms h.2 k)

pub AllTimed-append : (ls ms : List Line) → AllTimed ls → AllTimed ms → AllTimed (ls ++ ms)
AllTimed-append [] ms h k = k
AllTimed-append (l ∷ ls) ms h k = (h.0, AllTimed-append ls ms h.1 k)

pub results-results_of :
    (i now : ℕ) (es : List (TaskEvent Made)) → results (results_of i now es) ≡ runs es
unfolding results results_of runs
results-results_of i now [] = refl
results-results_of i now (pushed m ∷ es) = results-results_of i now es
results-results_of i now (taken m ∷ es) = results-results_of i now es
results-results_of i now (ran m ∷ es) = ap (λ l. m ∷ l) (results-results_of i now es)

pub results_of-AllTimed :
    (i now : ℕ) (es : List (TaskEvent Made)) → now < 10 ^ 19 → AllTimed (results_of i now es)
unfolding results_of
results_of-AllTimed i now [] h = tt
results_of-AllTimed i now (pushed m ∷ es) h = results_of-AllTimed i now es h
results_of-AllTimed i now (taken m ∷ es) h = results_of-AllTimed i now es h
results_of-AllTimed i now (ran m ∷ es) h = (h, results_of-AllTimed i now es h)

pub results_of-AllByWorkers :
    (i now : ℕ) (es : List (TaskEvent Made))
    → (i < g_thread_num) ⊎ (runs es ≡ [])
    → AllByWorkers (results_of i now es)
unfolding results_of runs
results_of-AllByWorkers i now [] h = tt
results_of-AllByWorkers i now (pushed m ∷ es) h = results_of-AllByWorkers i now es h
results_of-AllByWorkers i now (taken m ∷ es) h = results_of-AllByWorkers i now es h
results_of-AllByWorkers i now (ran m ∷ es) (inl h) =
    (omega arith, omega (arith, h), results_of-AllByWorkers i now es (inl h))
results_of-AllByWorkers i now (ran m ∷ es) (inr h) = absurd (cc)

pub made_lines-results : (b : Bool) (m : Made) (now : ℕ) → results (made_lines b m now) ≡ []
unfolding results made_lines
made_lines-results true m now = refl
made_lines-results false m now = refl

pub made_lines-AllByWorkers : (b : Bool) (m : Made) (now : ℕ) → AllByWorkers (made_lines b m now)
unfolding made_lines
made_lines-AllByWorkers true m now = tt
made_lines-AllByWorkers false m now = tt

pub made_lines-AllTimed :
    (b : Bool) (m : Made) (now : ℕ) → now < 10 ^ 19 → AllTimed (made_lines b m now)
unfolding made_lines
made_lines-AllTimed true m now h = (h, tt)
made_lines-AllTimed false m now h = tt
