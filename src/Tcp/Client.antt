-- ===== src/Tcp/Client.antt =====
-- `main` of 0215/tcp/tcp_client.cc, and its conversation with the service of
-- 0215/tcp/tcp_server.hpp.
use os_net_work_code.Base.{
  ap, Bool, true, false, if◌then◌else◌, ◌==◌, ◌^◌, ℕ, ◌≤◌, ◌<◌, ◌≡◌, refl, ap₂, Option, none, some,
  List, [], ◌∷◌, ◌++◌, length, arith,
}
use os_net_work_code.Buffer.{
  c_string, store, fill, IsText, c_string-IsText, store-fill, c_string-store,
}
use os_net_work_code.Tcp.Server.{SockAddr, htons, ntohs, ntohs-htons, uint16}
use os_net_work_code.Tcp.Service.{
  Read, bytes, eof, failed, Effect, print, write, log_shutdown, log_error, close, service, Fits,
  service_size, chunks, ending, echoes, service-echoes,
}

abbrev pub recv_size : ℕ
recv_size = 1024

-- What the client does: it sends a line, shows an answer, and closes its socket.
pub data Act : Type 0 where
  send : List ℕ → Act
  show : List ℕ → Act
  hang_up : Act

-- The loop: each line from the keyboard is sent, and one `recv` is made into a fresh buffer on the
-- stack, given by `stack`. It ends when `recv` returns 0 or -1. Scripts that end leave the client
-- waiting; `none` is a write past the buffer.
unfoldable pub converse : List ℕ → List (List ℕ) → List Read → Option (List Act)
converse stack [] rs = some []
converse stack (line ∷ lines) [] = some (send line ∷ [])
converse stack (line ∷ lines) (eof ∷ rs) = some (send line ∷ hang_up ∷ [])
converse stack (line ∷ lines) (failed ∷ rs) = some (send line ∷ hang_up ∷ [])
converse stack (line ∷ lines) (bytes b bs ∷ rs) =
    elim (store (fill stack (b ∷ bs)) (length (b ∷ bs)) 0) [
      | none ↦ none
      | some buffer ↦ elim (converse stack lines rs) [
        | none ↦ none
        | some acts ↦ some (send line ∷ show (c_string buffer) ∷ acts)
      ]
    ]

-- What one side writes, as the other side reads it: TCP may cut and join, here each write arrives
-- whole. An empty write is never read.
abbrev pub arrives : List (List ℕ) → List Read
arrives [] = []
arrives ([] ∷ ws) = arrives ws
arrives ((b ∷ bs) ∷ ws) = bytes b bs ∷ arrives ws

-- The lines that the service writes.
unfoldable pub answers : List Effect → List (List ℕ)
answers [] = []
answers (write l ∷ es) = l ∷ answers es
answers (print l ∷ es) = answers es
answers (log_shutdown ∷ es) = answers es
answers (log_error ∷ es) = answers es
answers (close ∷ es) = answers es

-- Lines that are sent as one chunk and read back as one: not empty, without a 0, and within the
-- size that both sides read.
abbrev pub Lines : List (List ℕ) → Type 0
Lines [] = Unit {0}
Lines (l ∷ ls) = (0 < length l) × (length l ≤ 1023) × IsText l × Lines ls

-- The conversation in which every line is sent and shown again.
abbrev pub echoed : List (List ℕ) → List Act
echoed [] = []
echoed (l ∷ ls) = send l ∷ show l ∷ echoed ls

arrives-Fits : (ls : List (List ℕ)) → Lines ls → Fits (arrives ls ++ eof ∷ [])
arrives-Fits [] h = tt
arrives-Fits ([] ∷ ls) h = absurd (omega (arith, h.0))
arrives-Fits ((b ∷ bs) ∷ ls) h = (h.1, arrives-Fits ls h.3)

answers-service :
    (ls : List (List ℕ))
    → Lines ls
    → answers
        (echoes (chunks (arrives ls ++ eof ∷ [])) ++ ending (close ∷ []) (arrives ls ++ eof ∷ []))
      ≡ ls
unfolding answers echoes chunks ending
answers-service [] h = refl
answers-service ([] ∷ ls) h = absurd (omega (arith, h.0))
answers-service ((b ∷ bs) ∷ ls) h = ap₂ ◌∷◌ (c_string-IsText (b ∷ bs) h.2) (answers-service ls h.3)

converse-echoed :
    (stack : List ℕ) (ls : List (List ℕ))
    → length stack ≡ recv_size
    → Lines ls
    → converse stack ls (arrives ls) ≡ some (echoed ls)
unfolding converse
converse-echoed stack [] room h = refl
converse-echoed stack ([] ∷ ls) room h = absurd (omega (arith, h.0))
converse-echoed stack ((b ∷ bs) ∷ ls) room h = rw (
  store-fill stack (b ∷ bs) short,
  converse,
  converse-echoed stack ls room h.3,
  c_string-store stack (b ∷ bs) short,
  c_string-IsText (b ∷ bs) h.2,
)
  where
    short : length (b ∷ bs) < length stack
    short = omega (arith, room, h.1)

-- Client and server together: for lines of 1 to 1023 bytes without a 0, where every write arrives
-- whole, the service answers each line by the same line, and the client, given those answers,
-- shows each of its lines again, in order.
pub echo_conversation :
    (server_stack client_stack : List ℕ) (ls : List (List ℕ))
    → length server_stack ≡ service_size
    → length client_stack ≡ recv_size
    → Lines ls
    → (effects : List Effect) × (service server_stack (arrives ls ++ eof ∷ []) ≡ some effects)
      × (answers effects ≡ ls)
      × (converse client_stack ls (arrives (answers effects)) ≡ some (echoed ls))
echo_conversation server_stack client_stack ls sroom croom h = (
  echoes (chunks (arrives ls ++ eof ∷ [])) ++ ending (close ∷ []) (arrives ls ++ eof ∷ []),
  service-echoes server_stack (arrives ls ++ eof ∷ []) sroom (arrives-Fits ls h),
  answers-service ls h,
  rw (answers-service ls h) (converse-echoed client_stack ls croom h),
)

-- What the system calls of the client's set-up return: a descriptor or -1, and whether `connect`
-- succeeds.
pub record Network : Type 0 where
  pub socket : Option ℕ
  pub connect : SockAddr → Bool

pub data Outcome : Type 0 where
  exited : ℕ → Outcome
  conversed : Option (List Act) → Outcome

-- `main`, given the number of arguments, the address that `inet_addr` makes of the first and the
-- value of `atoi` of the second.
unfoldable pub main : ℕ → ℕ → ℕ → Network → List ℕ → List (List ℕ) → List Read → Outcome
main argc addr arg sys stack lines rs =
    if argc == 3
    then elim sys.socket [
      | none ↦ exited 2
      | some sock ↦
          if sys.connect (record { sin_port = htons (uint16 arg); s_addr = addr })
          then conversed (converse stack lines rs)
          else exited 3
    ]
    else exited 1

-- A client that is started with two arguments and can make a socket connects to the given address,
-- with the port in network order, which the server reads back as the port that was typed, below
-- 65536. If that succeeds it shows each of its lines again, as the echo service answers them;
-- otherwise it exits with status 3.
pub client_connects :
    (addr port sock : ℕ) (sys : Network) (stack : List ℕ) (ls : List (List ℕ))
    → port < 2 ^ 16
    → sys.socket ≡ some sock
    → length stack ≡ recv_size
    → Lines ls
    → (peer : SockAddr) × (ntohs peer.sin_port ≡ port)
      × (peer.s_addr ≡ addr)
      × (sys.connect peer ≡ true
          → main 3 addr port sys stack ls (arrives ls) ≡ conversed (some (echoed ls)))
      × (sys.connect peer ≡ false → main 3 addr port sys stack ls (arrives ls) ≡ exited 3)
unfolding main
client_connects addr port sock sys stack ls small made room h = (
  record { sin_port = htons (uint16 port); s_addr = addr },
  rw (whole) (ntohs-htons port small),
  refl,
  λ c. rw (made, c, if◌then◌else◌) (ap conversed (converse-echoed stack ls room h)),
  λ c. rw (made, c, if◌then◌else◌) refl,
)
  where
    whole : uint16 port ≡ port
    whole = omega (arith, small)
