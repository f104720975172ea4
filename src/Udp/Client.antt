-- ===== src/Udp/Client.antt =====
-- The two threads of 0215/udp/udp_client.cc: `udpSend` and `udpRecv`.
use os_net_work_code.Base.{
  ℕ, zero, suc, ◌+◌, ◌-◌, ◌≤◌, ◌<◌, ◌≡◌, refl, Option, none, some, List, [], ◌∷◌, length, take,
  replicate, length-replicate, length-append, if◌then◌else◌, arith,
}
use os_net_work_code.Buffer.{
  c_string-zeros, c_string, store, fill, IsText, c_string-store, store-fill, store-fill_full,
}
use os_net_work_code.Udp.Key.{key, take-all}
use os_net_work_code.Udp.Server.{same_string, receive, send_message}
use os_net_work_code.Udp.Room.{Post, message_of}

abbrev pub recv_size : ℕ
recv_size = 1024

abbrev pub quit : List ℕ
quit = 113 ∷ 117 ∷ 105 ∷ 116 ∷ []

-- `udpSend`: each line of the keyboard is a datagram, up to the line "quit".
unfoldable pub udp_send : List (List ℕ) → List (List ℕ)
udp_send [] = []
udp_send (line ∷ lines) =
    let rest = udp_send lines in if same_string line quit then [] else line ∷ rest

-- After `memset`.
unfoldable pub zeroed : List ℕ
zeroed = replicate recv_size 0

-- What `udpRecv` does with the bytes received: nothing for an empty datagram, else it closes the
-- string and shows it. The outer `none` is a write past the buffer.
unfoldable pub show_line : List ℕ → List ℕ → Option (Option (List ℕ))
show_line buffer [] = some none
show_line buffer (b ∷ bs) = elim (store (fill buffer (b ∷ bs)) (length (b ∷ bs)) 0) [
  | none ↦ none
  | some buffer' ↦ some (some (c_string buffer'))
]

-- `udpRecv`, on one datagram: `recvfrom` may fill the whole buffer.
unfoldable pub udp_recv : List ℕ → Option (Option (List ℕ))
udp_recv payload = show_line zeroed (take recv_size payload)

length-zeroed : length zeroed ≡ 1024
unfolding zeroed
length-zeroed = length-replicate {A = ℕ} recv_size 0

length-take : {A : Type 0} (n : ℕ) (xs : List A) → n ≤ length xs → length (take n xs) ≡ n
length-take zero [] h = refl
length-take zero (x ∷ xs) h = refl
length-take (suc n) [] h = absurd (omega (arith, h))
length-take (suc n) (x ∷ xs) h = omega (arith, length-take n xs (omega (arith, h)))

show_full :
    (buffer bs : List ℕ) → 0 < length bs → length bs ≡ length buffer → show_line buffer bs ≡ none
unfolding show_line
show_full buffer [] pos h = absurd (omega (arith, pos))
show_full buffer (b ∷ bs) pos h = rw (show_line, store-fill_full buffer (b ∷ bs) h) refl

show_short :
    (buffer bs : List ℕ)
    → 0 < length bs
    → length bs < length buffer
    → show_line buffer bs ≡ some (some (c_string bs))
unfolding show_line
show_short buffer [] pos h = absurd (omega (arith, pos))
show_short buffer (b ∷ bs) pos h =
    rw (show_line, store-fill buffer (b ∷ bs) h, c_string-store buffer (b ∷ bs) h) refl

-- A datagram that is not empty and shorter than the client's buffer is shown, up to its first 0;
-- any datagram of 1024 bytes or more makes the client write one byte past its buffer.
pub udp_recv_lem :
    (payload : List ℕ)
    → 0 < length payload
    → (length payload < recv_size → udp_recv payload ≡ some (some (c_string payload)))
      × (recv_size ≤ length payload → udp_recv payload ≡ none)
unfolding udp_recv
udp_recv_lem payload pos = (
  λ h.
      rw (take-all recv_size payload (omega (arith, h)))
        (show_short zeroed payload pos (omega (arith, h, length-zeroed))),
  λ h.
      let full = length-take recv_size payload h in
      show_full zeroed (take recv_size payload) (omega (arith, full))
        (omega (arith, full, length-zeroed)),
)

pub receive_text : (bs : List ℕ) → IsText bs → length bs ≤ 1023 → c_string (receive bs) ≡ bs
unfolding receive
receive_text bs text h =
    rw (receive, take-all 1023 bs h) (c_string-zeros bs (1024 - length bs) text (omega (arith, h)))

-- A user's text that just fits the server's buffer, and with the author's key in front no longer
-- fits the clients': whoever is sent the message writes past its buffer.
pub relayed_overflow :
    (inet_ntoa : ℕ → List ℕ) (post : Post)
    → IsText (post.first ∷ post.others)
    → length (post.first ∷ post.others) ≤ 1023
    → 1021 ≤ length (key inet_ntoa post.author) + length (post.first ∷ post.others)
    → udp_recv (message_of inet_ntoa post) ≡ none
unfolding send_message
relayed_overflow inet_ntoa post text room long =
    (udp_recv_lem (message_of inet_ntoa post) (omega (arith, size))).1 (omega (arith, size, long))
  where
    size :
        length (message_of inet_ntoa post)
        ≡ length (key inet_ntoa post.author) + (3 + length (post.first ∷ post.others))
    size = rw (receive_text (post.first ∷ post.others) text room) (
        omega (
          arith,
          length-append (key inet_ntoa post.author) (32 ∷ 35 ∷ 32 ∷ post.first ∷ post.others),
        ))
