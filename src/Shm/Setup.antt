-- ===== src/Shm/Setup.antt =====
-- How the programs of 1201/shm come by the segment and leave it, and those of 1201/shm_pipe by the
-- fifo as well, before and behind their loops.
use os_net_work_code.Base.{ℕ, zero, suc, ◌≡◌, Bool, Option, none, some, List, if◌then◌else◌}
use os_net_work_code.Shm.Handshake.{System, start}

-- What the calls of one program return: whether `mkfifo` succeeds (the server's global Init), the
-- key, the segment, the address (none for the -1 of `shmat`) and the descriptor of the fifo, each
-- none where the call fails.
pub record Calls : Type 0 where
  pub mkfifo : Bool
  pub ftok : Option ℕ
  pub shmget : Option ℕ
  pub shmat : Option ℕ
  pub open_fd : Option ℕ

-- A failed assertion, an exit with a status, an address that is not checked and wrong, or the loop.
pub data Setup : Type 0 where
  aborted : Setup
  exited : ℕ → Setup
  unattached : Setup
  running : Setup

-- `assert(fd > 0)`.
unfoldable pub positive_fd : Option ℕ → Setup
positive_fd none = aborted
positive_fd (some zero) = aborted
positive_fd (some (suc fd)) = running

-- The server of 1201/shm up to its loop: the segment must be new, the address is not tested.
unfoldable pub at_address : Option ℕ → Setup
at_address none = unattached
at_address (some a) = running

unfoldable pub attach_server : Calls → Setup
attach_server c = elim c.ftok [
  | none ↦ aborted
  | some k ↦ elim c.shmget [ none ↦ exited 1 | some shmid ↦ at_address c.shmat ]
]

-- The client of 1201/shm, which compares the address with the null pointer only.
unfoldable pub not_null : Option ℕ → Setup
not_null none = unattached
not_null (some zero) = exited 3
not_null (some (suc a)) = running

unfoldable pub attach_client : Calls → Setup
attach_client c = elim c.ftok [
  | none ↦ exited 1
  | some k ↦ elim c.shmget [ none ↦ exited 2 | some shmid ↦ not_null c.shmat ]
]

-- Behind the loops, on whether `shmdt` and `shmctl` succeed: the client detaches the segment, the
-- server removes it as well.
unfoldable pub detach : Bool → Setup
detach shmdt = if shmdt then exited 0 else aborted

unfoldable pub remove : Bool → Bool → Setup
remove shmdt shmctl = if shmdt then (if shmctl then exited 0 else aborted) else aborted

-- `OpenFIFO`, which both programs of 1201/shm_pipe call when they have attached the segment. An
-- address that is wrong is used only behind it.
unfoldable pub open_fifo : Option ℕ → Setup → Setup
open_fifo fd aborted = aborted
open_fifo fd (exited status) = exited status
open_fifo fd running = positive_fd fd
open_fifo none unattached = aborted
open_fifo (some zero) unattached = aborted
open_fifo (some (suc fd)) unattached = unattached

-- The server of 1201/shm_pipe: the fifo is made before `main`.
unfoldable pub server_setup : Calls → Setup
server_setup c = if c.mkfifo then open_fifo c.open_fd (attach_server c) else aborted

unfoldable pub client_setup : Calls → Setup
client_setup c = open_fifo c.open_fd (attach_client c)

unfoldable pub both_running : Setup → Setup → List (List ℕ) → Option System
both_running running running keyboard = some (start keyboard)
both_running running aborted keyboard = none
both_running running (exited status) keyboard = none
both_running running unattached keyboard = none
both_running aborted c keyboard = none
both_running (exited status) c keyboard = none
both_running unattached c keyboard = none

-- Both programs in their loops, if they get there.
unfoldable pub session : Calls → Calls → List (List ℕ) → Option System
session server client keyboard = both_running (server_setup server) (client_setup client) keyboard

both_running-start :
    (a b : Setup) (keyboard : List (List ℕ)) (s : System)
    → both_running a b keyboard ≡ some s
    → s ≡ start keyboard
unfolding both_running
both_running-start running running keyboard s h = cc
both_running-start running aborted keyboard s h = absurd (cc)
both_running-start running (exited status) keyboard s h = absurd (cc)
both_running-start running unattached keyboard s h = absurd (cc)
both_running-start aborted b keyboard s h = absurd (cc)
both_running-start (exited status) b keyboard s h = absurd (cc)
both_running-start unattached b keyboard s h = absurd (cc)

pub session-start :
    (server client : Calls) (keyboard : List (List ℕ)) (s : System)
    → session server client keyboard ≡ some s
    → s ≡ start keyboard
unfolding session
session-start server client keyboard s h =
    both_running-start (server_setup server) (client_setup client) keyboard s h
