-- ===== src/Log/All.antt =====
-- All that logMessage writes, read back (0211/Log.hpp, 0215/udp/Log.hpp,
-- 0215/tcp/threadPool/Log.hpp).
use os_net_work_code.Base.{
  ℕ, ◌≤◌, ◌≡◌, refl, sym, ap, ◌∙◌, true, none, some, List, [], ◌∷◌, ◌++◌, append_assoc, length,
  length-append, if◌then◌else◌, append-nil, Option-cases, arith, inl, inr, map,
}
use os_net_work_code.Log.Defs.{
  timestamp, Message, composed, Outputs, log_to_file, log_and_open, log_to_stdout, log_all,
}
use os_net_work_code.Log.Bytes.{lines, lines-Lacks, Lacks, Lacks-append}
use os_net_work_code.Log.Reading.{
  read_entry, AllPlain, IsName, level-IsName, line_of, composed_lem, read_entry-line, line-Lacks,
}

-- The lines of all messages.
unfoldable pub text_of : List Message → List ℕ
text_of [] = []
text_of (m ∷ ms) = elim (composed m) [ none ↦ text_of ms | some l ↦ l ++ 10 ∷ text_of ms ]

pub text_of-append : (ms ns : List Message) → text_of (ms ++ ns) ≡ text_of ms ++ text_of ns
unfolding text_of
text_of-append [] ns = refl
text_of-append (m ∷ ms) ns = elim (Option-cases (composed m)) [
  | inl e ↦ rw (text_of, e) (text_of-append ms ns)
  | inr (l, e) ↦
      rw (text_of, e)
        (ap (λ t. l ++ 10 ∷ t) (text_of-append ms ns)
          ∙ sym (append_assoc l (10 ∷ text_of ms) (text_of ns)))
]

pub lines-text_of :
    (ms : List Message) → AllPlain ms → map read_entry (lines (text_of ms)) ≡ map some ms
unfolding text_of
lines-text_of [] h = unfold lines in refl
lines-text_of (m ∷ ms) h =
    let (name, n) = level-IsName m.level h.0.0 in
    let l = line_of name m.time m.text in
    rw
      (
        text_of,
        composed_lem m name n (omega (arith, h.0.2)) h.0.4,
        lines-Lacks l (text_of ms) (line-Lacks m name n h.0.3),
        read_entry-line m name n h.0.1,
        lines-text_of ms h.1,
      )
      refl

log_all-text_of :
    (ms : List Message) (o : Outputs)
    → AllPlain ms
    → log_all log_to_stdout ms o ≡ some (record o { stdout = o.stdout ++ text_of ms })
unfolding log_all log_to_stdout text_of
log_all-text_of [] o h = ap (λ t. some (record o { stdout = t })) (sym (append-nil o.stdout))
log_all-text_of (m ∷ ms) o h =
    let (name, n) = level-IsName m.level h.0.0 in
    let l = line_of name m.time m.text in
    rw
      (
        log_all,
        log_to_stdout,
        text_of,
        composed_lem m name n (omega (arith, h.0.2)) h.0.4,
        log_all-text_of ms (record o { stdout = o.stdout ++ (l ++ 10 ∷ []) }) h.1,
      )
      (ap (λ t. some (record o { stdout = t }))
        (append_assoc o.stdout (l ++ 10 ∷ []) (text_of ms)
          ∙ ap (λ t. o.stdout ++ t) (append_assoc l (10 ∷ []) (text_of ms))))

log_all-open :
    (ms : List Message) (o : Outputs)
    → log_all (log_and_open true) ms o ≡ log_all log_to_stdout ms o
unfolding log_all log_and_open log_to_stdout
log_all-open [] o = refl
log_all-open (m ∷ ms) o = elim (Option-cases (composed m)) [
  | inl e ↦ rw (log_all, log_and_open, log_to_stdout, e) refl
  | inr (l, e) ↦
      rw (log_all, log_and_open, log_to_stdout, e, if◌then◌else◌)
        (log_all-open ms (record o { stdout = o.stdout ++ (l ++ 10 ∷ []) }))
]

-- The messages with a newline at the end of their texts.
abbrev pub ended : List Message → List Message
ended [] = []
ended (m ∷ ms) = record m { text = m.text ++ 10 ∷ [] } ∷ ended ms

composed-ended :
    (m : Message) (name : List ℕ)
    → IsName m.level name
    → length m.text ≤ 1022
    → Lacks 0 m.text
    → composed (record m { text = m.text ++ 10 ∷ [] })
      ≡ some (line_of name m.time m.text ++ 10 ∷ [])
composed-ended m name n short text =
    composed_lem (record m { text = m.text ++ 10 ∷ [] }) name
      (record {
        found = n.found;
        closed = n.closed;
        on_line = n.on_line;
        short = n.short;
        known = n.known;
      })
      (omega (arith, length-append m.text (10 ∷ []), short))
      (Lacks-append 0 m.text (10 ∷ []) text (omega arith, tt))
    ∙ ap some (
        ap (λ l. b'[' ∷ l)
          (ap (λ l. name ++ b']' ∷ b' ' ∷ b'[' ∷ l)
              (sym (append_assoc (timestamp m.time) (b']' ∷ b' ' ∷ m.text) (10 ∷ [])))
            ∙ sym (
                append_assoc name (b']' ∷ b' ' ∷ b'[' ∷ (timestamp m.time ++ b']' ∷ b' ' ∷ m.text))
                  (10 ∷ []))))

pub log_all-file :
    (ms : List Message) (o : Outputs)
    → AllPlain ms
    → log_all (log_to_file true) (ended ms) o ≡ some (record o { file = o.file ++ text_of ms })
unfolding log_all log_to_file text_of
log_all-file [] o h = ap (λ t. some (record o { file = t })) (sym (append-nil o.file))
log_all-file (m ∷ ms) o h =
    let (name, n) = level-IsName m.level h.0.0 in
    let l = line_of name m.time m.text in
    rw
      (
        log_all,
        log_to_file,
        text_of,
        composed-ended m name n h.0.2 h.0.4,
        if◌then◌else◌,
        composed_lem m name n (omega (arith, h.0.2)) h.0.4,
        log_all-file ms (record o { file = o.file ++ (l ++ 10 ∷ []) }) h.1,
      )
      (ap (λ t. some (record o { file = t }))
        (append_assoc o.file (l ++ 10 ∷ []) (text_of ms)
          ∙ ap (λ t. o.file ++ t) (append_assoc l (10 ∷ []) (text_of ms))))

-- Messages of one of the five levels, with a time of at most 19 digits and a text of at most 1022
-- bytes without a newline or a 0, can be read back from what logMessage adds to the standard output, line
-- by line: level, time and text, in order. The logger of the TCP server, if its file can be opened,
-- adds the same; and if the texts end with a newline, the logger of the thread pool, if its file
-- can be opened, adds just that to the file.
pub log_reads_back :
    (ms : List Message) (o : Outputs)
    → AllPlain ms
    → (out : List ℕ) × (log_all log_to_stdout ms o ≡ some (record o { stdout = o.stdout ++ out }))
      × (log_all (log_and_open true) ms o ≡ some (record o { stdout = o.stdout ++ out }))
      × (log_all (log_to_file true) (ended ms) o ≡ some (record o { file = o.file ++ out }))
      × (map read_entry (lines out) ≡ map some ms)
log_reads_back ms o h = (
  text_of ms,
  log_all-text_of ms o h,
  log_all-open ms o ∙ log_all-text_of ms o h,
  log_all-file ms o h,
  lines-text_of ms h,
)
