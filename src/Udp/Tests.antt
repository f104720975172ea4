-- ===== src/Udp/Tests.antt =====
-- Small runs of the chat room, and the theorems there.
use os_net_work_code.Base.{
  true, ℕ, zero, suc, ◌+◌, ◌≡◌, refl, none, some, List, [], ◌∷◌, ◌++◌, replicate, length-replicate,
  map, arith,
}
use os_net_work_code.Buffer.{c_string, IsText}
use os_net_work_code.Tcp.Server.{SockAddr, ntohs}
use os_net_work_code.Udp.Key.{IsDotted}
use os_net_work_code.Udp.Server.{same_string, main, served, datagram, Sent, start}
use os_net_work_code.Udp.Room.{Post, arrival, entry, room, Relays, message_of}
use os_net_work_code.Udp.Relay.{chat_room, empty_datagram_undefined}
use os_net_work_code.Udp.Client.{quit, udp_recv, relayed_overflow}
use os_net_work_code.Udp.Copies.{addressed}
use os_net_work_code.Udp.Chat.{heard, chat_heard}
use os_net_work_code.Udp.Session.{talked, recv_all, client_talks, main as client_main}

-- A stand-in for `inet_ntoa` that keeps to its manual.
abbrev name_of : ℕ → List ℕ
name_of a = (46 + a) ∷ []

name_of-IsDotted : IsDotted name_of
name_of-IsDotted = record {
  text = λ a. (omega arith, tt);
  short = λ a. omega arith;
  dashless = λ a. (omega arith, tt);
  injective = λ a b ha hb e. let heads : 46 + a ≡ 46 + b = cc in omega (arith, heads);
}

abbrev alice : SockAddr
alice = record { sin_port = 16415; s_addr = 16777343 }

abbrev bob : SockAddr
bob = record { sin_port = 16671; s_addr = 16777343 }

abbrev hello : Post
hello = record { author = alice; first = 104; others = 105 ∷ [] }

abbrev reply : Post
reply = record { author = bob; first = 111; others = 107 ∷ [] }

abbrev talk : List Post
talk = hello ∷ reply ∷ hello ∷ []

chat_room_example :
    (sent : List Sent) × (start name_of (λ us. us) [] (map arrival talk)
      ≡ some (record { users = map (entry name_of) (room [] talk); sent = sent }))
    × Relays name_of [] talk sent
chat_room_example =
    chat_room name_of name_of-IsDotted (λ us. us) (λ us f. refl) talk
      ((omega arith, omega arith), ((omega arith, omega arith), ((omega arith, omega arith), tt)))

empty_datagram_undefined_example :
    start name_of (λ us. us) [] (map arrival (hello ∷ []) ++ (datagram [] bob ∷ [])) ≡ none
empty_datagram_undefined_example =
    empty_datagram_undefined name_of name_of-IsDotted (λ us. us) (λ us f. refl) hello [] bob []
      ((omega arith, omega arith), tt)

abbrev hi : List ℕ
hi = 104 ∷ 105 ∷ []

client_talks_example :
    (peer : SockAddr) × (ntohs peer.sin_port ≡ 8080)
    × (peer.s_addr ≡ 16777343)
    × (client_main 3 16777343 8080 (some 3) (hi ∷ quit ∷ hi ∷ []) (hi ∷ hi ∷ [])
        ≡ talked (record { peer = peer; sent = hi ∷ []; lines = some (hi ∷ hi ∷ []) }))
unfolding c_string same_string
client_talks_example =
    client_talks 16777343 8080 3 (hi ∷ []) (hi ∷ []) (hi ∷ hi ∷ []) (omega arith) (refl, tt)
      (omega arith, omega arith, (omega arith, omega arith, tt))

replicate-IsText : (n : ℕ) → IsText (replicate n 97)
replicate-IsText zero = tt
replicate-IsText (suc n) = (omega arith, replicate-IsText n)

-- 1023 bytes of text.
long_post : Post
long_post = record { author = alice; first = 97; others = replicate 1022 97 }

relayed_overflow_example : udp_recv (message_of name_of long_post) ≡ none
unfolding long_post
relayed_overflow_example =
    relayed_overflow name_of long_post (omega arith, replicate-IsText 1022)
      (omega (arith, length-replicate {A = ℕ} 1022 97))
      (omega (arith, length-replicate {A = ℕ} 1022 97))

-- Bob hears what was posted since his own first post.
chat_heard_example :
    (sent : List Sent) × (main name_of (λ us. us) 2 8080 (some 3) (λ a. true) (map arrival talk)
      ≡ served (some (record { users = map (entry name_of) (room [] talk); sent = sent })))
    × (recv_all (addressed bob sent) ≡ some (heard name_of bob [] talk))
chat_heard_example =
    chat_heard name_of name_of-IsDotted (λ us. us) (λ us f. refl) bob 8080 3 (λ a. true) talk
      ((omega arith, omega arith), ((omega arith, omega arith), ((omega arith, omega arith), tt)))
      (
        (omega arith, (omega arith, tt)),
        omega arith,
        (
          (omega arith, (omega arith, tt)),
          omega arith,
          ((omega arith, (omega arith, tt)), omega arith, tt),
        ),
      )
      refl
