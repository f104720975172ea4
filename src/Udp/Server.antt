-- ===== src/Udp/Server.antt =====
-- `start` of the class UdpServer (0215/udp/udp_server.hpp): each datagram is relayed to every user.
use os_net_work_code.Base.{
  ℕ, ◌-◌, Bool, true, false, Option, none, some, List, [], ◌∷◌, ◌++◌, length, take, replicate, map,
  if◌then◌else◌, ◌==◌,
}
use os_net_work_code.Buffer.{c_string}
use os_net_work_code.Tcp.Server.{SockAddr, Init, ready, exit, local_address, uint16}
use os_net_work_code.Udp.Key.{key}

-- What `recvfrom` returns: a datagram, which may be empty, with its sender, or -1.
pub data Received : Type 0 where
  datagram : List ℕ → SockAddr → Received
  failed : Received

-- An entry of the map of users.
pub record User : Type 0 where
  pub name : List ℕ
  pub peer : SockAddr

-- What `sendto` is given.
pub record Sent : Type 0 where
  pub message : List ℕ
  pub to : SockAddr

pub record Round : Type 0 where
  pub users : List User
  pub sent : List Sent

-- `==` on strings.
unfoldable pub same_string : List ℕ → List ℕ → Bool
same_string [] [] = true
same_string [] (y ∷ ys) = false
same_string (x ∷ xs) [] = false
same_string (x ∷ xs) (y ∷ ys) = let rest = same_string xs ys in if x == y then rest else false

-- `find` on the map of users.
unfoldable pub find : List ℕ → List User → Option User
find k [] = none
find k (u ∷ us) = let rest = find k us in if same_string k u.name then some u else rest

-- `insert`, of a key that the map does not have.
unfoldable pub insert : User → List User → List User
insert u us = us ++ (u ∷ [])

abbrev pub buffer_size : ℕ
buffer_size = 1024

-- `recvfrom` keeps at most one byte less than the zeroed buffer has.
unfoldable pub receive : List ℕ → List ℕ
receive payload =
    let kept = take (buffer_size - 1) payload in kept ++ replicate (buffer_size - length kept) 0

-- One message, from the C strings in `key` and `buffer`.
unfoldable pub send_message : List ℕ → List ℕ → List ℕ
send_message k buffer = k ++ 32 ∷ 35 ∷ 32 ∷ c_string buffer

abbrev pub push : List ℕ → User → Sent
push message u = record { message = message; to = u.peer }

-- The loop over the users, in the order of the map. `key` may be uninitialised: then reading it is
-- undefined, which is `none` here.
unfoldable pub broadcast : Option (List ℕ) → List ℕ → List User → Option (List Sent)
broadcast k buffer [] = some []
broadcast none buffer (u ∷ us) = none
broadcast (some name) buffer (u ∷ us) = some (map (push (send_message name buffer)) (u ∷ us))

-- The user of a datagram is added unless its key is known.
unfoldable pub enter : List ℕ → SockAddr → List User → List User
enter k peer users = elim (find k users) [
  | none ↦ insert (record { name = k; peer = peer }) users
  | some u ↦ users
]

-- One turn of the loop: `s > 0` holds for a datagram that is not empty.
unfoldable pub turn : (ℕ → List ℕ) → (List User → List User) → List User → Received → Option Round
turn inet_ntoa iteration users failed = elim (broadcast none (receive []) (iteration users)) [
  | none ↦ none
  | some sent ↦ some (record { users = users; sent = sent })
]
turn inet_ntoa iteration users (datagram [] peer) =
    elim (broadcast none (receive []) (iteration users)) [
      | none ↦ none
      | some sent ↦ some (record { users = users; sent = sent })
    ]
turn inet_ntoa iteration users (datagram (b ∷ bs) peer) =
    let k = key inet_ntoa peer in
    let users' = enter k peer users in
    elim (broadcast (some k) (receive (b ∷ bs)) (iteration users')) [
      | none ↦ none
      | some sent ↦ some (record { users = users'; sent = sent })
    ]

-- The loop on what arrives.
unfoldable pub start :
    (ℕ → List ℕ) → (List User → List User) → List User → List Received → Option Round
start inet_ntoa iteration users [] = some (record { users = users; sent = [] })
start inet_ntoa iteration users (r ∷ rs) = elim (turn inet_ntoa iteration users r) [
  | none ↦ none
  | some now ↦ elim (start inet_ntoa iteration now.users rs) [
    | none ↦ none
    | some later ↦ some (record later { sent = now.sent ++ later.sent })
  ]
]

-- `initServer`: the socket, or the status of `exit`.
unfoldable pub init_server : Option ℕ → (SockAddr → Bool) → ℕ → Option ℕ → Init
init_server socket bind port ip = elim socket [
  | none ↦ exit 2
  | some sock ↦ if bind (local_address port ip) then ready sock else exit 2
]

pub data Result : Type 0 where
  exited : ℕ → Result
  served : Option Round → Result

-- `main`, given the number of arguments and the value of `atoi(argv[1])`. A new server has no
-- users.
unfoldable pub main :
    (ℕ → List ℕ)
    → (List User → List User)
    → ℕ
    → ℕ
    → Option ℕ
    → (SockAddr → Bool)
    → List Received
    → Result
main inet_ntoa iteration argc arg socket bind rs =
    if argc == 2
    then elim (init_server socket bind (uint16 arg) none) [
      | exit status ↦ exited status
      | ready sock ↦ served (start inet_ntoa iteration [] rs)
    ]
    else exited 1
