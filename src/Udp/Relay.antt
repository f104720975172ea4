-- ===== src/Udp/Relay.antt =====
-- What `start` of the class UdpServer (0215/udp/udp_server.hpp) does for the room.
use os_net_work_code.Base.{
  ap, ◌∙◌, Bool, true, false, if◌then◌else◌, ℕ, ◌≡◌, ◌<◌, length, refl, none, some, List, [], ◌∷◌,
  ◌++◌, map, arith,
}
use os_net_work_code.Base.Threads.{weigh}
use os_net_work_code.Tcp.Server.{SockAddr, htons, uint16, local_address}
use os_net_work_code.Udp.Key.{key, Fits, IsDotted}
use os_net_work_code.Udp.Server.{
  main, served, exited, init_server, Received, datagram, User, Sent, receive, push, turn, start,
}
use os_net_work_code.Udp.Room.{
  Post, arrival, join, room, AllFit, PostsFit, weigh-map, entry, enter-join, join_pos,
  broadcast-none, AllFit-join, broadcast-some, message_of, message_of-posted, Relays, Visits,
}

module _ (inet_ntoa : ℕ → List ℕ) (dotted : IsDotted inet_ntoa) (iteration : List User → List User)
    (visits : Visits iteration) where
  pub turn-post :
      (ps : List SockAddr) (post : Post)
      → Fits post.author
      → AllFit ps
      → turn inet_ntoa iteration (map (entry inet_ntoa) ps) (arrival post)
        ≡ some (record {
          users = map (entry inet_ntoa) (join post.author ps);
          sent =
              map
                (push (message_of inet_ntoa post))
                (iteration (map (entry inet_ntoa) (join post.author ps)));
        })
  unfolding turn
  turn-post ps post hp h =
      rw
        (
          turn,
          enter-join inet_ntoa dotted post.author ps hp h,
          broadcast-some (key inet_ntoa post.author) (receive (post.first ∷ post.others))
              (iteration (map (entry inet_ntoa) (join post.author ps))),
          enter-join inet_ntoa dotted post.author ps hp h,
        )
        refl

  same_copies :
      (m : List ℕ) (ps : List SockAddr) (f : Sent → ℕ)
      → weigh f (map (push m) (iteration (map (entry inet_ntoa) ps)))
        ≡ weigh f (map (λ p. record { message = m; to = p }) ps)
  same_copies m ps f =
      rw
        (
          weigh-map f (push m) (iteration (map (entry inet_ntoa) ps)),
          visits (map (entry inet_ntoa) ps) (λ u. f (push m u)),
          weigh-map (λ u. f (push m u)) (entry inet_ntoa) ps,
          weigh-map f (λ p. record { message = m; to = p }) ps,
        )
        refl

  start-room :
      (ps : List SockAddr) (posts : List Post)
      → AllFit ps
      → PostsFit posts
      → (sent : List Sent) × (start inet_ntoa iteration
            (map (entry inet_ntoa) ps)
            (map arrival posts)
          ≡ some (record { users = map (entry inet_ntoa) (room ps posts); sent = sent }))
        × Relays inet_ntoa ps posts sent
  unfolding start room
  start-room ps [] h k = ([], refl, refl)
  start-room ps (post ∷ posts) h k =
      let now = join post.author ps in
      let (later, runs, copies) = start-room now posts (AllFit-join post.author ps k.0 h) k.1 in
      let mine = map (push (message_of inet_ntoa post)) (iteration (map (entry inet_ntoa) now)) in
      (
        mine ++ later,
        rw (turn-post ps post k.0 h, start, runs) refl,
        (
          mine,
          later,
          refl,
          λ f.
              same_copies (message_of inet_ntoa post) now f
              ∙ ap (λ m. weigh f (map (λ p. record { message = m; to = p }) now))
                  (message_of-posted inet_ntoa post dotted),
          copies,
        ),
      )

  -- The server is a chat room. For posts that are not empty, from peers with ports of 16 bits and
  -- addresses of 32, and an `inet_ntoa` as documented,
  -- the loop ends with exactly one entry for each peer that has posted, in the order of their first
  -- posts, and what it has sent is, post by post, one copy for everybody who had posted by then, of the
  -- author's address and port and the first 1023 bytes of the text, up to a 0; only the order of the
  -- copies of one post is that of the map.
  pub chat_room :
      (posts : List Post)
      → PostsFit posts
      → (sent : List Sent) × (start inet_ntoa iteration [] (map arrival posts)
          ≡ some (record { users = map (entry inet_ntoa) (room [] posts); sent = sent }))
        × Relays inet_ntoa [] posts sent
  chat_room posts h = start-room [] posts tt h

  weigh-entries : (ps : List SockAddr) → weigh (λ u. 1) (map (entry inet_ntoa) ps) ≡ length ps
  unfolding weigh
  weigh-entries [] = refl
  weigh-entries (p ∷ ps) = omega (arith, weigh-entries ps)

  empty_after :
      (ps : List SockAddr) (posts : List Post) (author : SockAddr) (rest : List Received)
      → AllFit ps
      → PostsFit posts
      → 0 < length ps
      → start inet_ntoa iteration
          (map (entry inet_ntoa) ps)
          (map arrival posts ++ (datagram [] author ∷ rest))
        ≡ none
  unfolding start turn
  empty_after ps [] author rest h k pos =
      rw
        (
          start,
          turn,
          broadcast-none (receive []) (iteration (map (entry inet_ntoa) ps)) (
              let seen = visits (map (entry inet_ntoa) ps) (λ u. 1) in
              let all = weigh-entries ps in omega (arith, seen, all, pos)),
        )
        refl
  empty_after ps (post ∷ posts) author rest h k pos =
      rw
        (
          turn-post ps post k.0 h,
          start,
          empty_after (join post.author ps) posts author rest (AllFit-join post.author ps k.0 h) k.1
              (join_pos post.author ps),
        )
        refl

  -- Once somebody has posted, the next empty datagram, from anybody, makes the server read its
  -- uninitialised `key`: the run has no defined result, whatever was posted before and comes after.
  pub empty_datagram_undefined :
      (post : Post) (posts : List Post) (author : SockAddr) (rest : List Received)
      → PostsFit (post ∷ posts)
      → start inet_ntoa iteration [] (map arrival (post ∷ posts) ++ (datagram [] author ∷ rest))
        ≡ none
  unfolding start
  empty_datagram_undefined post posts author rest h =
      rw
        (
          turn-post [] post h.0 tt,
          start,
          empty_after (join post.author []) posts author rest (AllFit-join post.author [] h.0 tt)
              h.1 (join_pos post.author []),
        )
        refl

  -- The program started with a port, once its socket is made: if the socket can be bound to that
  -- port in network order and to any address, it runs the chat room as above on whatever is
  -- posted; if it cannot, the program exits with status 2.
  pub chat_server :
      (arg fd : ℕ) (bind : SockAddr → Bool) (posts : List Post)
      → PostsFit posts
      → (bind (record { sin_port = htons (uint16 arg); s_addr = 0 }) ≡ true
          → (sent : List Sent) × (main inet_ntoa iteration 2 arg (some fd) bind (map arrival posts)
              ≡ served
                  (some (record { users = map (entry inet_ntoa) (room [] posts); sent = sent })))
            × Relays inet_ntoa [] posts sent)
        × (bind (record { sin_port = htons (uint16 arg); s_addr = 0 }) ≡ false
            → main inet_ntoa iteration 2 arg (some fd) bind (map arrival posts) ≡ exited 2)
  unfolding main init_server local_address
  chat_server arg fd bind posts h = (
    λ b.
        let (sent, runs, copies) = chat_room posts h in
        (sent, rw (b, if◌then◌else◌) (ap served runs), copies),
    λ b. rw (b, if◌then◌else◌) refl,
  )
