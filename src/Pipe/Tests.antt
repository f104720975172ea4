-- ===== src/Pipe/Tests.antt =====
-- Runs of father and child on a pipe and of the children on a fifo, and the theorems there.
use os_net_work_code.Base.{
  concat, true, false, ℕ, ◌+◌, ◌<◌, ◌≡◌, refl, List, [], ◌∷◌, ◌++◌, map, replicate,
  length-replicate, some, arith,
}
use os_net_work_code.Tcp.Service.{eof}
use os_net_work_code.Tcp.Client.{arrives, Lines}
use os_net_work_code.Udp.Key.{digits}
use os_net_work_code.Pipe.Mypipe.{
  Shown, quit, compose, father, child, printed, ten_messages, joined, pipe_transmits,
}
use os_net_work_code.Base.Threads.{weigh}
use os_net_work_code.Pipe.Fifo.{
  Child, System, Turn, act, write, close, Event, exec, written, pieces, said, ends,
}
use os_net_work_code.Pipe.Pieces.{held}
use os_net_work_code.Pipe.Relay.{
  client_main, writing, server_main, serving, connected, lines_relayed,
}
use os_net_work_code.Buffer.{IsText}

-- The message "hi" of process 7: each of ten messages is "hi[7] : " and its number.
abbrev message_number : ℕ → List ℕ
message_number c = 104 ∷ 105 ∷ 91 ∷ 55 ∷ 93 ∷ 32 ∷ 58 ∷ 32 ∷ (48 + c) ∷ []

number-Lines : (c : ℕ) (rest : List (List ℕ)) → Lines rest → Lines (message_number c ∷ rest)
number-Lines c rest h = (
  omega arith,
  omega arith,
  (
    omega arith,
    (
      omega arith,
      (
        omega arith,
        (
          omega arith,
          (omega arith, (omega arith, (omega arith, (omega arith, (omega arith, tt))))),
        ),
      ),
    ),
  ),
  h,
)

abbrev numbered : List ℕ → List (List ℕ)
numbered cs = map message_number cs

numbered-Lines : (cs : List ℕ) → Lines (numbered cs)
numbered-Lines [] = tt
numbered-Lines (c ∷ cs) = number-Lines c (numbered cs) (numbered-Lines cs)

abbrev stream : List (List ℕ)
stream = numbered (0 ∷ 1 ∷ 2 ∷ 3 ∷ 4 ∷ 5 ∷ 6 ∷ 7 ∷ 8 ∷ 9 ∷ [])

pipe_transmits_example :
    (out : List Shown) × (child (replicate 1024 9) (arrives stream ++ (eof ∷ []))
      ≡ some (out ++ (quit ∷ [])))
    × (printed out ≡ joined (ten_messages (104 ∷ 105 ∷ []) 7))
unfolding father compose digits
pipe_transmits_example =
    pipe_transmits (104 ∷ 105 ∷ []) 7 10 (replicate 1024 9) stream (omega arith)
      (length-replicate {A = ℕ} 1024 9)
      (numbered-Lines (0 ∷ 1 ∷ 2 ∷ 3 ∷ 4 ∷ 5 ∷ 6 ∷ 7 ∷ 8 ∷ 9 ∷ [])) refl

-- Child 1 takes the first letter of a line, and child 0 the rest, which it shows first.
abbrev turns : List Turn
turns =
    write ∷ act 1 0 ∷ act 0 5 ∷ act 0 0 ∷ act 1 0 ∷ write ∷ act 2 9 ∷ close ∷ act 0 5 ∷ act 0 0 ∷ []

abbrev text : List ℕ
text = 97 ∷ 98 ∷ 99 ∷ []

lines_relayed_example :
    (children : List Child) × (s : System) × (es : List Event) × (server_main true (some 3)
      ≡ serving children)
    × (client_main (some 4) (text ∷ text ∷ []) ≡ writing (text ∷ text ∷ []))
    × (exec (connected children (text ∷ text ∷ [])) turns ≡ (s, es))
    × (written es ++ s.lines ≡ text ∷ text ∷ [])
    × (concat (pieces es) ++ s.stream ≡ concat (written es))
    × ((f : List ℕ → ℕ) → weigh f (pieces es) ≡ weigh f (said es) + weigh (held f) s.children)
    × (0 < ends es → (s.opened ≡ false) × (concat (pieces es) ≡ concat (written es)))
lines_relayed_example = lines_relayed 3 4 (text ∷ text ∷ []) turns (text-IsText, (text-IsText, tt))
  where
    text-IsText : IsText text
    text-IsText = (omega arith, (omega arith, (omega arith, tt)))
