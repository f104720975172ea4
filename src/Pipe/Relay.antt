-- ===== src/Pipe/Relay.antt =====
-- `main` of 1126/fifo/server.cc and of 1126/fifo/client.cc, and the two together.
use os_net_work_code.Base.{
  ℕ, ◌+◌, ◌<◌, ◌≡◌, refl, sym, ap, ◌∙◌, Bool, true, false, Option, none, some, List, [], ◌++◌,
  append-nil, concat, replicate, if◌then◌else◌, arith,
}
use os_net_work_code.Base.Threads.{weigh, weigh-replicate}
use os_net_work_code.Pipe.Fifo.{
  Child, reading, System, exec, Turn, Event, written, pieces, said, ends,
}
use os_net_work_code.Pipe.Pieces.{AllText, held, Kept, exec-Kept}

-- The children that read the fifo.
abbrev pub nums : ℕ
nums = 3

pub data Server : Type 0 where
  exited : ℕ → Server
  serving : List Child → Server

-- `main` of the server, on what `mkfifo` and `open` return: the children after the fork, which all
-- hold the same open fifo.
unfoldable pub server_main : Bool → Option ℕ → Server
server_main made fd =
    if made
    then (elim fd [ none ↦ exited 2 | some n ↦ serving (replicate nums reading) ])
    else exited 1

-- `main` of the client, on what `open` returns: the status of `exit`, or the lines that its loop is
-- going to write.
pub data Client : Type 0 where
  failed : ℕ → Client
  writing : List (List ℕ) → Client

unfoldable pub client_main : Option ℕ → List (List ℕ) → Client
client_main none lines = failed 1
client_main (some fd) lines = writing lines

-- Both have opened the fifo.
unfoldable pub connected : List Child → List (List ℕ) → System
connected children lines = record { children = children; stream = []; lines = lines; opened = true }

-- If the fifo can be made and opened on both sides, three children share what a client types, under
-- every schedule of their reads and prints and of the client's writes. The pieces that they take,
-- in order, and what is left in the fifo are together the client's lines so far, one behind the
-- other, without a boundary between them. Under every weight of texts, the pieces taken weigh as
-- much as what was shown and what children have read and not yet shown; the order in which they
-- show them is not said. If some child has seen the end of the file, the client has closed the fifo
-- and every byte that it wrote was taken.
pub lines_relayed :
    (read_fd write_fd : ℕ) (lines : List (List ℕ)) (ts : List Turn)
    → AllText lines
    → (children : List Child) × (s : System) × (es : List Event) × (server_main true (some read_fd)
        ≡ serving children)
      × (client_main (some write_fd) lines ≡ writing lines)
      × (exec (connected children lines) ts ≡ (s, es))
      × (written es ++ s.lines ≡ lines)
      × (concat (pieces es) ++ s.stream ≡ concat (written es))
      × ((f : List ℕ → ℕ) → weigh f (pieces es) ≡ weigh f (said es) + weigh (held f) s.children)
      × (0 < ends es → (s.opened ≡ false) × (concat (pieces es) ≡ concat (written es)))
unfolding client_main server_main connected
lines_relayed read_fd write_fd lines ts h = (
  replicate nums reading,
  s,
  es,
  refl,
  refl,
  refl,
  kept.typed,
  kept.order,
  λ f. omega (arith, kept.shown f, weigh-replicate (held f) nums reading refl),
  λ e.
      let over = kept.at_end e in
      (
        over.0,
        sym (append-nil (concat (pieces es)))
            ∙ ap (λ l. concat (pieces es) ++ l) (sym over.1)
            ∙ kept.order,
      ),
)
  where
    first : System
    first = connected (replicate nums reading) lines

    s : System
    s = (exec first ts).0

    es : List Event
    es = (exec first ts).1

    kept : Kept first s es
    kept = exec-Kept ts first (tt, h)
