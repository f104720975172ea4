-- ===== src/MyFile/Stream.antt =====
-- The file of 1017/myfile.c as a stream without a buffer.
use os_net_work_code.Base.{
  concat, ℕ, suc, ◌+◌, ◌≤◌, ◌<◌, ◌≡◌, refl, sym, ap, ◌∙◌, false, Bool-cases, Option, none, some,
  List, [], ◌∷◌, ◌++◌, append_assoc, append-nil, length, length-append, lt→ltb, ltb→lt,
  ltb_false→le, length-drop, take, take-append, get_elem?, get_elem?-append_at, drop, replicate,
  length-replicate, if◌then◌else◌, ltb, ◌==◌, arith, inl, inr,
}
use os_net_work_code.MyFile.Defs.{
  num, newline, Opened, fresh, place, last_byte, line_flush, fputs_, fflush_, fclose_, put_all,
  closed, opened_file,
}

-- The front of a buffer is what waits to be written.
abbrev Holds : List ℕ → List ℕ → Type 0
Holds buf pending = (take (length pending) buf ≡ pending) × (length buf ≡ num)

abbrev state : ℕ → List ℕ → ℕ → List ℕ → Opened
state fd buf end written = record {
  fp = record { fd = fd; buffer = buf; end = end };
  written = written;
}

place-take :
    (buf pending message : List ℕ)
    → take (length pending) buf ≡ pending
    → take (length pending + length message) (place buf (length pending) message)
      ≡ pending ++ message
unfolding place
place-take buf pending message h = rw (h) (
    ap (λ n. take n ((pending ++ message) ++ 0 ∷ drop (suc (length pending + length message)) buf))
      both
    ∙ take-append (pending ++ message) (0 ∷ drop (suc (length pending + length message)) buf) 0
    ∙ append-nil (pending ++ message))
  where
    both : length pending + length message ≡ length (pending ++ message) + 0
    both = omega (arith, length-append pending message)

place-length :
    (buf pending message : List ℕ)
    → take (length pending) buf ≡ pending
    → length pending + length message < length buf
    → length (place buf (length pending) message) ≡ length buf
unfolding place
place-length buf pending message h room = rw (h) (
    omega (
      arith,
      room,
      length-append (pending ++ message) (0 ∷ drop (suc (length pending + length message)) buf),
      length-append pending message,
      length-drop (suc (length pending + length message)) buf,
    ))

place-Holds :
    (buf pending message : List ℕ)
    → Holds buf pending
    → length pending + length message < num
    → Holds (place buf (length pending) message) (pending ++ message)
place-Holds buf pending message h room = (
  ap (λ n. take n (place buf (length pending) message)) (length-append pending message)
      ∙ place-take buf pending message h.0,
  place-length buf pending message h.0 (omega (arith, h.1, room)) ∙ h.1,
)

fputs_-room :
    (fd : ℕ) (buf pending message written : List ℕ)
    → length pending + length message < num
    → fputs_ message (state fd buf (length pending) written)
      ≡ line_flush
          (state fd (place buf (length pending) message) (length (pending ++ message)) written)
unfolding fputs_
fputs_-room fd buf pending message written room =
    rw (lt→ltb (length pending + length message) num room, if◌then◌else◌)
      (ap (λ n. line_flush (state fd (place buf (length pending) message) n written))
        (sym (length-append pending message)))

close-Holds :
    (fd : ℕ) (buf pending written : List ℕ)
    → Holds buf pending
    → fclose_ (state fd buf (length pending) written) ≡ written ++ pending
unfolding fclose_ fflush_
close-Holds fd buf [] written h = sym (append-nil written)
close-Holds fd buf (c ∷ pending) written h =
    rw (fclose_, more, if◌then◌else◌) (ap (λ t. written ++ t) h.0)
  where
    more : (suc (length pending) == 0) ≡ false
    more = ground arith

-- What a buffer of 1024 characters can take with the 0 behind it.
unfoldable pub bounded : List ℕ → Option (List ℕ)
bounded s = if ltb (length s) num then some s else none

bounded-some : (s : List ℕ) → length s < num → bounded s ≡ some s
unfolding bounded
bounded-some s h = rw (lt→ltb (length s) num h, if◌then◌else◌) refl

bounded-none : (s : List ℕ) → num ≤ length s → bounded s ≡ none
unfolding bounded
bounded-none s h = ground (arith, h)

fputs_-full :
    (fd : ℕ) (buf pending message written : List ℕ)
    → ltb (length pending + length message) num ≡ false
    → fputs_ message (state fd buf (length pending) written) ≡ none
unfolding fputs_
fputs_-full fd buf pending message written full = rw (full, if◌then◌else◌) refl

-- Another file than standard output is not written by `fputs_`.
fputs_-waits :
    (fd : ℕ) (buf pending message : List ℕ)
    → (fd == 1) ≡ false
    → length pending + length message < num
    → fputs_ message (state fd buf (length pending) [])
      ≡ some (state fd (place buf (length pending) message) (length (pending ++ message)) [])
unfolding line_flush
fputs_-waits fd buf pending message other room =
    fputs_-room fd buf pending message [] room ∙ rw (other, if◌then◌else◌) refl

put_all-bounded :
    (ms : List (List ℕ)) (fd : ℕ) (buf pending : List ℕ)
    → (fd == 1) ≡ false
    → Holds buf pending
    → length pending < num
    → closed (put_all ms (state fd buf (length pending) [])) ≡ bounded (pending ++ concat ms)
unfolding put_all closed
put_all-bounded [] fd buf pending other h room =
    rw (append-nil pending, bounded-some pending room) (ap some (close-Holds fd buf pending [] h))
put_all-bounded (m ∷ ms) fd buf pending other h room =
    elim (Bool-cases (ltb (length pending + length m) num)) [
      | inl y ↦
          let fits = ltb→lt (length pending + length m) num y in
          rw (closed, put_all, fputs_-waits fd buf pending m other fits)
            (put_all-bounded ms fd (place buf (length pending) m) (pending ++ m) other
                (place-Holds buf pending m h fits) (omega (arith, fits, length-append pending m))
              ∙ ap bounded (append_assoc pending m (concat ms)))
      | inr n ↦
          rw
            (
              closed,
              put_all,
              fputs_-full fd buf pending m [] n,
              bounded-none (pending ++ (m ++ concat ms)) (
                  omega (
                    arith,
                    ltb_false→le (length pending + length m) num n,
                    length-append pending (m ++ concat ms),
                    length-append m (concat ms),
                  )),
            )
            refl
    ]

-- Of a file that is opened with "w" and is not standard output, after messages have been put into
-- it and it was closed, the kernel has exactly the messages, one behind the other, if together they
-- are shorter than the buffer of 1024 characters; otherwise a message is stored past its end.
pub put_all-concat :
    (fd : ℕ) (ms : List (List ℕ))
    → (fd == 1) ≡ false
    → closed (put_all ms (opened_file fd)) ≡ bounded (concat ms)
unfolding fresh
put_all-concat fd ms other =
    put_all-bounded ms fd (replicate num 0) [] other (refl, length-replicate {A = ℕ} num 0)
      (omega arith)

line_flush-newline :
    (buf pending : List ℕ)
    → Holds buf pending
    → last_byte buf (length pending) ≡ some newline
    → line_flush (state 1 buf (length pending) []) ≡ some (state 1 buf (length pending) pending)
unfolding line_flush
line_flush-newline buf pending h last =
    rw (last) (ap (λ w. some (state 1 buf (length pending) w)) h.0)

last_byte-place :
    (line buf : List ℕ)
    → last_byte (place buf 0 (line ++ newline ∷ [])) (length (line ++ newline ∷ [])) ≡ some newline
unfolding last_byte place
last_byte-place line buf =
    ap (λ n. last_byte (place buf 0 (line ++ newline ∷ [])) n) one_more
    ∙ ap (λ b. get_elem? b (length line)) (append_assoc line (newline ∷ []) rest)
    ∙ get_elem?-append_at line newline rest
  where
    rest : List ℕ
    rest = 0 ∷ drop (suc (0 + length (line ++ newline ∷ []))) buf

    one_more : length (line ++ newline ∷ []) ≡ suc (length line)
    one_more = omega (arith, length-append line (newline ∷ []))

-- Standard output: a line is written at once, and since `end` is not reset it is written again by
-- `fclose_`.
pub fputs_-twice :
    (line : List ℕ)
    → length line < 1023
    → closed (put_all ((line ++ newline ∷ []) ∷ []) (opened_file 1))
      ≡ some ((line ++ newline ∷ []) ++ (line ++ newline ∷ []))
unfolding put_all closed fresh
fputs_-twice line short =
    rw
      (
        closed,
        put_all,
        fputs_-room 1 (replicate num 0) [] (line ++ newline ∷ []) [] fits,
        line_flush-newline (place (replicate num 0) 0 (line ++ newline ∷ [])) (line ++ newline ∷ [])
            holds (last_byte-place line (replicate num 0)),
      )
      (ap some (
        close-Holds 1 (place (replicate num 0) 0 (line ++ newline ∷ [])) (line ++ newline ∷ [])
          (line ++ newline ∷ []) holds))
  where
    fits : 0 + length (line ++ newline ∷ []) < num
    fits = omega (arith, short, length-append line (newline ∷ []))

    holds : Holds (place (replicate num 0) 0 (line ++ newline ∷ [])) (line ++ newline ∷ [])
    holds =
        place-Holds (replicate num 0) [] (line ++ newline ∷ [])
          (refl, length-replicate {A = ℕ} num 0) fits
