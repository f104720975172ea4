-- ===== src/Shm/Handshake.antt =====
-- 1201/shm_pipe: server and client share a segment, and the client wakes the server through a fifo
-- (comm.hpp, shmServer.cc and shmClient.cc). `read` of the keyboard gives a script of chunks.
use os_net_work_code.Base.{
  ℕ, zero, suc, Bool, true, false, List, [], ◌∷◌, ◌++◌, length, set, replicate, if◌then◌else◌,
}
use os_net_work_code.Buffer.{c_string, fill}
use os_net_work_code.Udp.Server.{same_string}
use os_net_work_code.Shm.Segment.{quit}

abbrev pub shm_size : ℕ
shm_size = 4096

-- Where the server stands: before the named action.
pub data Server : Type 0 where
  waiting : Server  -- Wait(fd)
  printing : Server  -- printf("%s\n", shmaddr)
  testing : Server  -- if (strcmp(shmaddr, "quit") == 0)
  leaving : Server  -- CloseFIFO(fd), behind the end of the segment
  exited : Server
  aborted : Server  -- by the `assert` of Wait

-- Where the client stands; `cutting k` before `shmaddr[k] = 0`.
pub data Client : Type 0 where
  reading : Client  -- read(0, shmaddr, SHM_SIZE - 1)
  cutting : ℕ → Client
  signalling : Client  -- Signal(fd)
  comparing : Client  -- if (strcmp(shmaddr, "quit") == 0)
  closing : Client  -- CloseFIFO(fd)
  done : Client
  killed : Client  -- by SIGPIPE, when nobody can read the fifo any more

-- The segment, the numbers in the fifo, whether each end of it is open, and the chunks that are
-- still to be typed.
pub record System : Type 0 where
  pub shm : List ℕ
  pub fifo : ℕ
  pub read_end : Bool
  pub write_end : Bool
  pub server : Server
  pub client : Client
  pub keyboard : List (List ℕ)

-- `main` of both, when they have attached the segment and opened the fifo.
unfoldable pub start : List (List ℕ) → System
start keyboard = record {
  shm = replicate shm_size 0;
  fifo = 0;
  read_end = true;
  write_end = true;
  server = waiting;
  client = reading;
  keyboard = keyboard;
}

-- `Wait`: a number is read; without one it blocks while the fifo can be written, and else `read`
-- returns 0 and the assertion fails.
unfoldable pub wait : ℕ → System → System
wait zero s = if s.write_end then s else record s { server = aborted }
wait (suc n) s = record s { fifo = n; server = printing }

-- `Signal`: a number is written. The capacity of the fifo is not reached.
unfoldable pub signal : System → System
signal s =
    if s.read_end
    then record s { fifo = suc s.fifo; client = comparing }
    else record s { client = killed; write_end = false }

unfoldable pub is_quit : List ℕ → Bool
is_quit shm = same_string (c_string shm) quit

-- The next action of the server, and what it prints.
unfoldable pub serve : Server → System → System × List (List ℕ)
serve waiting s = (wait s.fifo s, [])
serve printing s = (record s { server = testing }, c_string s.shm ∷ [])
serve testing s = (record s { server = if is_quit s.shm then leaving else waiting }, [])
serve leaving s = (record s { server = exited; read_end = false }, [])
serve exited s = (s, [])
serve aborted s = (s, [])

-- `read` of the keyboard into the segment. At the end of the input the loop goes round.
unfoldable pub typed : List (List ℕ) → System → System
typed [] s = s
typed ([] ∷ chunks) s = record s { keyboard = chunks }
typed ((b ∷ bs) ∷ chunks) s = record s {
  shm = fill s.shm (b ∷ bs);
  client = cutting (length bs);
  keyboard = chunks;
}

-- The next action of the client.
unfoldable pub work : Client → System → System
work reading s = typed s.keyboard s
work (cutting k) s = record s { shm = set s.shm k 0; client = signalling }
work signalling s = signal s
work comparing s = record s { client = if is_quit s.shm then closing else reading }
work closing s = record s { client = done; write_end = false }
work done s = s
work killed s = s

pub data Who : Type 0 where
  the_server the_client : Who

unfoldable pub step : System → Who → System × List (List ℕ)
step s the_server = serve s.server s
step s the_client = (work s.client s, [])

-- A schedule, with all that is printed.
unfoldable pub exec : System → List Who → System × List (List ℕ)
exec s [] = (s, [])
exec s (w ∷ ws) = let (t, out) = step s w in let (u, rest) = exec t ws in (u, out ++ rest)
