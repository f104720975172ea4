-- ===== src/Pipe/Fifo.antt =====
-- The children of 1126/fifo/server.cc, which run `getMessage` on one fifo, and the client of
-- 1126/fifo/client.cc that writes to it.
use os_net_work_code.Base.{
  ℕ, ◌+◌, ◌-◌, Bool, true, false, List, [], ◌∷◌, ◌++◌, length, take, drop, replicate, min, Option,
  some, none, get_elem?, set,
}
use os_net_work_code.Buffer.{c_string}
use os_net_work_code.Tcp.Service.{Read, bytes, eof, failed}

abbrev pub size : ℕ
size = 128

-- Where a child is: before `read`, behind it with what it has returned, or out of its loop.
pub data Child : Type 0 where
  reading : Child
  has : Read → Child
  exited : Child

pub data Shown : Type 0 where
  client_say : List ℕ → Shown
  end_of_file : Shown
  read_error : Shown

-- What a child shows of what `read` has put into the zeroed buffer, and where it goes on.
unfoldable pub get_message : Read → Child × Shown
get_message (bytes b bs) =
    (reading, client_say (c_string ((b ∷ bs) ++ replicate (size - length (b ∷ bs)) 0)))
get_message eof = (exited, end_of_file)
get_message failed = (exited, read_error)

-- What `read` with room for `size - 1` bytes returns from a fifo that holds `stream`: at least one
-- byte, `more` further ones if there are that many. On an empty fifo it waits, `none`, while the
-- client has it open.
unfoldable pub read_fifo : ℕ → Bool → List ℕ → Option (Read × List ℕ)
read_fifo more true [] = none
read_fifo more false [] = some (eof, [])
read_fifo more opened (b ∷ bs) =
    some (bytes b (take (min more (size - 2)) bs), drop (min more (size - 2)) bs)

-- The children, what is in the fifo, the lines still to be typed at the client, and whether the
-- client has the fifo open.
pub record System : Type 0 where
  pub children : List Child
  pub stream : List ℕ
  pub lines : List (List ℕ)
  pub opened : Bool

-- What can be seen: the client writes a line, a child takes a piece from the fifo or sees its end,
-- a child shows something.
pub data Event : Type 0 where
  wrote : List ℕ → Event
  took : List ℕ → Event
  saw_end : Event
  shows : Shown → Event

unfoldable pub seen : Read → Event
seen (bytes b bs) = took (b ∷ bs)
seen eof = saw_end
seen failed = saw_end

-- A child acts, the client writes its next line, or it is ended, which closes the fifo.
pub data Turn : Type 0 where
  act : (child more : ℕ) → Turn
  write : Turn
  close : Turn

unfoldable pub put_read : System → ℕ → Option (Read × List ℕ) → System × List Event
put_read s i none = (s, [])
put_read s i (some (r, rest)) =
    (record s { children = set s.children i (has r); stream = rest }, seen r ∷ [])

unfoldable pub show_read : System → ℕ → Child × Shown → System × List Event
show_read s i (c, x) = (record s { children = set s.children i c }, shows x ∷ [])

unfoldable pub child_turn : System → ℕ → ℕ → Option Child → System × List Event
child_turn s i more none = (s, [])
child_turn s i more (some exited) = (s, [])
child_turn s i more (some reading) = put_read s i (read_fifo more s.opened s.stream)
child_turn s i more (some (has r)) = show_read s i (get_message r)

-- The loop of the client: a line of the keyboard is written without its newline.
unfoldable pub write_line : System → Bool → List (List ℕ) → System × List Event
write_line s false ls = (s, [])
write_line s true [] = (s, [])
write_line s true (buffer ∷ ls) =
    (record s { stream = s.stream ++ buffer; lines = ls }, wrote buffer ∷ [])

unfoldable pub turn : System → Turn → System × List Event
turn s (act i more) = child_turn s i more (get_elem? s.children i)
turn s write = write_line s s.opened s.lines
turn s close = (record s { opened = false }, [])

unfoldable pub exec : System → List Turn → System × List Event
exec s [] = (s, [])
exec s (t ∷ ts) = let (u, es) = turn s t in let (v, fs) = exec u ts in (v, es ++ fs)

-- The lines written, the pieces taken, the texts shown, and how often the end was seen.
unfoldable pub written : List Event → List (List ℕ)
written [] = []
written (wrote l ∷ es) = l ∷ written es
written (took p ∷ es) = written es
written (saw_end ∷ es) = written es
written (shows x ∷ es) = written es

unfoldable pub pieces : List Event → List (List ℕ)
pieces [] = []
pieces (wrote l ∷ es) = pieces es
pieces (took p ∷ es) = p ∷ pieces es
pieces (saw_end ∷ es) = pieces es
pieces (shows x ∷ es) = pieces es

unfoldable pub said : List Event → List (List ℕ)
said [] = []
said (wrote l ∷ es) = said es
said (took p ∷ es) = said es
said (saw_end ∷ es) = said es
said (shows (client_say l) ∷ es) = l ∷ said es
said (shows end_of_file ∷ es) = said es
said (shows read_error ∷ es) = said es

unfoldable pub ends : List Event → ℕ
ends [] = 0
ends (wrote l ∷ es) = ends es
ends (took p ∷ es) = ends es
ends (saw_end ∷ es) = 1 + ends es
ends (shows x ∷ es) = ends es
