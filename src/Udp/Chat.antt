-- ===== src/Udp/Chat.antt =====
-- Server and client of 0215/udp together: what the receiver of udp_client.cc shows of the messages
-- that udp_server.hpp sends to it.
use os_net_work_code.Base.{
  ℕ, zero, suc, ltb, ◌+◌, ◌/◌, ◌%◌, ◌≤◌, ◌<◌, ◌≡◌, refl, ap, ap₂, ◌∙◌, Bool, true, Bool-cases, some,
  List, [], ◌∷◌, ◌++◌, length, length-append, replicate, map, if◌then◌else◌, arith, inl, inr,
}
use os_net_work_code.Base.Threads.{weigh}
use os_net_work_code.Buffer.{c_string, c_string-IsText, IsText, append-IsText}
use os_net_work_code.Tcp.Server.{SockAddr, htons, uint16, local_address, ntohs}
use os_net_work_code.Udp.Key.{key, key-whole, decimal, digits, length-digits, IsDotted}
use os_net_work_code.Udp.Server.{User, Sent, push, send_message, start, main, served, init_server}
use os_net_work_code.Udp.Room.{
  Post, arrival, same_peer, known, join, room, AllFit, PostsFit, AllFit-join, entry, weigh-map,
  message_of, Visits,
}
use os_net_work_code.Udp.Relay.{turn-post}
use os_net_work_code.Udp.Client.{receive_text}
use os_net_work_code.Udp.Session.{recv_all, Short, recv_all-shown}
use os_net_work_code.Udp.Copies.{
  one_if, Once, addressed, addressed-append, addressed-push, Once-join, shown_once,
}

-- A post as a text: its author's key and what was typed.
abbrev pub line_of : (ℕ → List ℕ) → Post → List ℕ
line_of inet_ntoa post = key inet_ntoa post.author ++ 32 ∷ 35 ∷ 32 ∷ post.first ∷ post.others

-- The lines that a peer should see: every post from its own first one on.
abbrev pub heard : (ℕ → List ℕ) → SockAddr → List SockAddr → List Post → List (List ℕ)
heard inet_ntoa p ps [] = []
heard inet_ntoa p ps (post ∷ posts) =
    let now = join post.author ps in
    let rest = heard inet_ntoa p now posts in
    if known p now then line_of inet_ntoa post ∷ rest else rest

-- Texts that fit into the buffers of server and clients.
abbrev pub PostsText : List Post → Type 0
PostsText [] = Unit {0}
PostsText (post ∷ posts) =
    IsText (post.first ∷ post.others) × (length post.others < 999) × PostsText posts

digits-IsText : (fuel n : ℕ) → IsText (digits fuel n)
unfolding digits
digits-IsText zero n = tt
digits-IsText (suc fuel) n = elim (Bool-cases (ltb n 10)) [
  | inl e ↦ rw (e, if◌then◌else◌) (omega arith, tt)
  | inr e ↦
      rw (e, if◌then◌else◌)
        (append-IsText (digits fuel (n / 10)) ((48 + n % 10) ∷ []) (digits-IsText fuel (n / 10))
          (omega arith, tt))
]

module _ (inet_ntoa : ℕ → List ℕ) (dotted : IsDotted inet_ntoa) where
  message_line :
      (post : Post)
      → IsText (post.first ∷ post.others)
      → length post.others < 999
      → message_of inet_ntoa post ≡ line_of inet_ntoa post
  unfolding send_message
  message_line post text room =
      ap (λ t. key inet_ntoa post.author ++ 32 ∷ 35 ∷ 32 ∷ t)
        (receive_text (post.first ∷ post.others) text (omega (arith, room)))

  key-IsText : (p : SockAddr) → IsText (key inet_ntoa p)
  unfolding decimal
  key-IsText p = rw (key-whole inet_ntoa dotted p) (
      append-IsText (inet_ntoa p.s_addr) (45 ∷ decimal (ntohs p.sin_port)) (dotted.text p.s_addr)
        (omega arith, digits-IsText 5 (ntohs p.sin_port)))

  length-key : (p : SockAddr) → length (key inet_ntoa p) ≤ 21
  unfolding decimal
  length-key p = rw (key-whole inet_ntoa dotted p) (
      omega (
        arith,
        length-append (inet_ntoa p.s_addr) (45 ∷ decimal (ntohs p.sin_port)),
        length-digits 5 (ntohs p.sin_port),
        dotted.short p.s_addr,
      ))

  -- What a peer should see fits into its buffer and has no 0.
  heard-Short :
      (p : SockAddr) (ps : List SockAddr) (posts : List Post)
      → PostsText posts
      → Short (heard inet_ntoa p ps posts)
        × (map c_string (heard inet_ntoa p ps posts) ≡ heard inet_ntoa p ps posts)
  heard-Short p ps [] h = (tt, refl)
  heard-Short p ps (post ∷ posts) h =
      let now = join post.author ps in
      let rest = heard-Short p now posts h.2 in
      let k = key inet_ntoa post.author in
      let size = length-append k (32 ∷ 35 ∷ 32 ∷ post.first ∷ post.others) in
      let text =
        append-IsText k (32 ∷ 35 ∷ 32 ∷ post.first ∷ post.others) (key-IsText post.author)
          (omega arith, (omega arith, (omega arith, h.0))) in
      elim (Bool-cases (known p now)) [
        | inl e ↦
            rw (e, if◌then◌else◌)
              (
                (omega (arith, size), omega (arith, size, length-key post.author, h.1), rest.0),
                ap₂ ◌∷◌ (c_string-IsText (line_of inet_ntoa post) text) rest.1,
              )
        | inr e ↦ rw (e, if◌then◌else◌) rest
      ]

  module _ (iteration : List User → List User) (visits : Visits iteration) (p : SockAddr) where
    -- One turn: a copy for `p` if it is in the room.
    turn_copies :
        (m : List ℕ) (ps : List SockAddr)
        → Once p ps
        → addressed p (map (push m) (iteration (map (entry inet_ntoa) ps)))
          ≡ replicate (one_if (known p ps)) m
    turn_copies m ps once =
        addressed-push p m (iteration (map (entry inet_ntoa) ps))
        ∙ ap (λ n. replicate n m)
            (visits (map (entry inet_ntoa) ps) (λ u. one_if (same_peer p u.peer))
              ∙ weigh-map (λ u. one_if (same_peer p u.peer)) (entry inet_ntoa) ps
              ∙ once)

    start-heard :
        (ps : List SockAddr) (posts : List Post)
        → AllFit ps
        → PostsFit posts
        → PostsText posts
        → Once p ps
        → (sent : List Sent) × (start inet_ntoa iteration
              (map (entry inet_ntoa) ps)
              (map arrival posts)
            ≡ some (record { users = map (entry inet_ntoa) (room ps posts); sent = sent }))
          × (addressed p sent ≡ heard inet_ntoa p ps posts)
    unfolding start room
    start-heard ps [] h k text once = ([], refl, refl)
    start-heard ps (post ∷ posts) h k text once =
        let now = join post.author ps in
        let joined = Once-join p post.author ps once in
        let (later, runs, same) =
          start-heard now posts (AllFit-join post.author ps k.0 h) k.1 text.2 joined in
        let m = message_of inet_ntoa post in
        let mine = map (push m) (iteration (map (entry inet_ntoa) now)) in
        (
          mine ++ later,
          rw (turn-post inet_ntoa dotted iteration visits ps post k.0 h, start, runs) refl,
          addressed-append p mine later
              ∙ ap₂ (λ a b. a ++ b) (turn_copies m now joined) same
              ∙ ap (λ l. replicate (one_if (known p now)) l ++ heard inet_ntoa p now posts)
                  (message_line post text.0 text.1)
              ∙ shown_once (known p now) (line_of inet_ntoa post) (heard inet_ntoa p now posts),
        )

    -- The program started with a port, its socket made and bound: on posts without a 0 of at most 999
    -- bytes, from peers with ports of 16 bits and addresses of 32, it runs to the end. A client at
    -- the address `p` that receives what was sent to it, in that order, never writes past its
    -- buffer, and shows each post from `p`'s own first one on once, in order, as its author's key
    -- and what was typed.
    pub chat_heard :
        (arg fd : ℕ) (bind : SockAddr → Bool) (posts : List Post)
        → PostsFit posts
        → PostsText posts
        → bind (record { sin_port = htons (uint16 arg); s_addr = 0 }) ≡ true
        → (sent : List Sent) × (main inet_ntoa iteration 2 arg (some fd) bind (map arrival posts)
            ≡ served (some (record { users = map (entry inet_ntoa) (room [] posts); sent = sent })))
          × (recv_all (addressed p sent) ≡ some (heard inet_ntoa p [] posts))
    unfolding main init_server local_address
    chat_heard arg fd bind posts fit text b =
        let (sent, runs, same) = start-heard [] posts tt fit text once_empty in
        let (short, plain) = heard-Short p [] posts text in
        (
          sent,
          rw (b, if◌then◌else◌) (ap served runs),
          ap recv_all same
              ∙ recv_all-shown (heard inet_ntoa p [] posts) short
              ∙ ap (λ l. some l) plain,
        )
      where
        once_empty : Once p []
        once_empty = unfold weigh in refl
