-- ===== src/Udp/Session.antt =====
-- `main` of 0215/udp/udp_client.cc with its two threads.
use os_net_work_code.Base.{
  ℕ, ◌^◌, ◌<◌, ◌≡◌, refl, ap, false, Option, none, some, List, [], ◌∷◌, ◌++◌, length, map,
  if◌then◌else◌, ◌==◌, arith,
}
use os_net_work_code.Buffer.{c_string}
use os_net_work_code.Tcp.Server.{SockAddr, htons, ntohs, ntohs-htons, uint16}
use os_net_work_code.Udp.Server.{same_string}
use os_net_work_code.Udp.Client.{recv_size, quit, udp_send, udp_recv, udp_recv_lem}

-- The address that `udpSend` makes.
unfoldable pub server_address : ℕ → ℕ → SockAddr
server_address addr port = record { sin_port = htons port; s_addr = addr }

unfoldable pub shown : Option (List ℕ) → List (List ℕ) → List (List ℕ)
shown none rest = rest
shown (some line) rest = line ∷ rest

-- The loop of `udpRecv`, with what it shows; none is a write past the buffer.
unfoldable pub recv_all : List (List ℕ) → Option (List (List ℕ))
recv_all [] = some []
recv_all (payload ∷ payloads) = elim (udp_recv payload) [
  | none ↦ none
  | some line ↦ elim (recv_all payloads) [ none ↦ none | some rest ↦ some (shown line rest) ]
]

-- Where the sender sends, what it sends, and what the receiver shows.
pub record Talk : Type 0 where
  pub peer : SockAddr
  pub sent : List (List ℕ)
  pub lines : Option (List (List ℕ))

pub data Outcome : Type 0 where
  exited : ℕ → Outcome
  talked : Talk → Outcome

-- `main`, given the number of arguments, the address that `inet_addr` makes of the first, the value
-- of `atoi` of the second, what `socket` returns, the lines typed and the datagrams that arrive.
unfoldable pub main : ℕ → ℕ → ℕ → Option ℕ → List (List ℕ) → List (List ℕ) → Outcome
main argc addr arg socket typed payloads =
    if argc == 3
    then (elim socket [
      | none ↦ exited 2
      | some sock ↦ talked (record {
        peer = server_address addr (uint16 arg);
        sent = udp_send typed;
        lines = recv_all payloads;
      })
    ])
    else exited 1

abbrev pub NoQuit : List (List ℕ) → Type 0
NoQuit [] = Unit {0}
NoQuit (l ∷ ls) = (same_string l quit ≡ false) × NoQuit ls

abbrev pub Short : List (List ℕ) → Type 0
Short [] = Unit {0}
Short (p ∷ ps) = (0 < length p) × (length p < recv_size) × Short ps

udp_send-quit : (ls rest : List (List ℕ)) → NoQuit ls → udp_send (ls ++ quit ∷ rest) ≡ ls
unfolding udp_send same_string
udp_send-quit [] rest h = refl
udp_send-quit (l ∷ ls) rest h =
    rw (h.0, if◌then◌else◌) (ap (λ t. l ∷ t) (udp_send-quit ls rest h.1))

pub recv_all-shown : (ps : List (List ℕ)) → Short ps → recv_all ps ≡ some (map c_string ps)
unfolding recv_all shown
recv_all-shown [] h = refl
recv_all-shown (p ∷ ps) h =
    rw (recv_all, (udp_recv_lem p h.0).0 h.1, recv_all-shown ps h.2, shown) refl

-- A client that is started with two arguments and gets a socket sends every line up to "quit", and
-- nothing else, to the address given, with the port in network order, which the server reads back
-- as the port that was typed, below 65536. Of the datagrams that arrive, if they are not empty and
-- shorter than its buffer, it shows each up to its first 0, in order.
pub client_talks :
    (addr port sock : ℕ) (ls rest ps : List (List ℕ))
    → port < 2 ^ 16
    → NoQuit ls
    → Short ps
    → (peer : SockAddr) × (ntohs peer.sin_port ≡ port)
      × (peer.s_addr ≡ addr)
      × (main 3 addr port (some sock) (ls ++ quit ∷ rest) ps
          ≡ talked (record { peer = peer; sent = ls; lines = some (map c_string ps) }))
unfolding main server_address
client_talks addr port sock ls rest ps small none_quits short = (
  record { sin_port = htons (uint16 port); s_addr = addr },
  rw (whole) (ntohs-htons port small),
  refl,
  rw (udp_send-quit ls rest none_quits, recv_all-shown ps short) refl,
)
  where
    whole : uint16 port ≡ port
    whole = omega (arith, small)
