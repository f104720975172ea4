-- ===== src/Shm/Segment.antt =====
-- The loops of 1201/shm/shmServer.cc and 1201/shm/shmClient.cc on one segment.
use os_net_work_code.Base.{
  ℕ, ◌+◌, ◌<◌, List, [], ◌∷◌, ◌++◌, length, replicate, if◌then◌else◌, Option, some, none,
}
use os_net_work_code.Buffer.{c_string, store, fill}
use os_net_work_code.Udp.Server.{same_string}

abbrev pub quit : List ℕ
quit = 113 ∷ 117 ∷ 105 ∷ 116 ∷ []

-- Where the client is: before `read`, before the store of the 0 behind `s - 1` bytes, out of its
-- loop.
pub data Client : Type 0 where
  reading : Client
  cutting : ℕ → Client
  left : Client

-- Where the server is: before `printf`, before `strcmp`, out of its loop.
pub data Server : Type 0 where
  printing : Server
  comparing : Server
  stopped : Server

pub record System : Type 0 where
  pub shm : List ℕ
  pub client : Client
  pub server : Server

-- A new segment of `size` bytes is zeroed.
unfoldable pub start : ℕ → System
start size = record { shm = replicate size 0; client = reading; server = printing }

-- `type line last`: `read` gives the client the bytes of `line` and one more, `last`, which is the
-- newline of a line that was typed whole. `cut`: the client goes on. `look`: the server prints or
-- compares.
pub data Action : Type 0 where
  type : List ℕ → ℕ → Action
  cut : Action
  look : Action

-- What is done that can be seen: a line is typed, the server prints.
pub data Event : Type 0 where
  typed : List ℕ → Event
  printed : List ℕ → Event

-- `shmaddr[s - 1] = 0` and the test for "quit"; `none` is a write past the segment.
unfoldable pub cut_at : System → ℕ → Option (System × List Event)
cut_at s n = elim (store s.shm n 0) [
  | none ↦ none
  | some shm ↦ some (
    record s { shm = shm; client = if same_string (c_string shm) quit then left else reading },
    [],
  )
]

unfoldable pub client_type : System → List ℕ → ℕ → Client → System × List Event
client_type s line last reading = (
  record s { shm = fill s.shm (line ++ (last ∷ [])); client = cutting (length line) },
  typed line ∷ [],
)
client_type s line last (cutting n) = (s, [])
client_type s line last left = (s, [])

unfoldable pub client_cut : System → Client → Option (System × List Event)
client_cut s reading = some (s, [])
client_cut s (cutting n) = cut_at s n
client_cut s left = some (s, [])

unfoldable pub server_look : System → Server → System × List Event
server_look s printing = (record s { server = comparing }, printed (c_string s.shm) ∷ [])
server_look s comparing =
    (record s { server = if same_string (c_string s.shm) quit then stopped else printing }, [])
server_look s stopped = (s, [])

unfoldable pub step : System → Action → Option (System × List Event)
step s (type line last) = some (client_type s line last s.client)
step s cut = client_cut s s.client
step s look = some (server_look s s.server)

unfoldable pub exec : System → List Action → Option (System × List Event)
exec s [] = some (s, [])
exec s (a ∷ as') = elim (step s a) [
  | none ↦ none
  | some (t, es) ↦ elim (exec t as') [ none ↦ none | some (u, fs) ↦ some (u, es ++ fs) ]
]

-- `read` is called with room for one byte less than the segment has.
abbrev pub Fits : ℕ → List Action → Type 0
Fits size [] = Unit {0}
Fits size (type line last ∷ as') = (length line + 1 < size) × Fits size as'
Fits size (cut ∷ as') = Fits size as'
Fits size (look ∷ as') = Fits size as'

-- The line typed last, after `before`.
unfoldable pub latest : List ℕ → List Event → List ℕ
latest before [] = before
latest before (typed line ∷ es) = latest line es
latest before (printed text ∷ es) = latest before es
