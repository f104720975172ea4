-- ===== src/Udp/Room.antt =====
-- The chat room that the server of 0215/udp/udp_server.hpp keeps: who is in it, and who gets what.
use os_net_work_code.Base.{
  zero, suc, ◌∙◌, ◌-◌, take, replicate, append_assoc, ℕ, ◌+◌, ◌<◌, ◌≡◌, refl, ap, ap₂, Bool, true,
  false, Bool-cases, ◌⊎◌, inl, inr, none, some, List, [], ◌∷◌, ◌++◌, length, map, if◌then◌else◌,
  ◌==◌, ==_iff, ◌↔◌, arith,
}
use os_net_work_code.Base.Threads.{weigh}
use os_net_work_code.Tcp.Server.{SockAddr, ntohs}
use os_net_work_code.Buffer.{c_string}
use os_net_work_code.Udp.Key.{key, key-whole, decimal, Fits, IsDotted, key-injective}
use os_net_work_code.Udp.Server.{
  Received, datagram, User, Sent, same_string, find, insert, receive, send_message, push, broadcast,
  enter,
}

-- What a peer posts is not empty.
pub record Post : Type 0 where
  pub author : SockAddr
  pub first : ℕ
  pub others : List ℕ

abbrev pub arrival : Post → Received
arrival p = datagram (p.first ∷ p.others) p.author

abbrev pub same_peer : SockAddr → SockAddr → Bool
same_peer p q = if p.sin_port == q.sin_port then (p.s_addr == q.s_addr) else false

abbrev pub known : SockAddr → List SockAddr → Bool
known p [] = false
known p (q ∷ qs) = let rest = known p qs in if same_peer p q then true else rest

-- A peer joins once.
unfoldable pub join : SockAddr → List SockAddr → List SockAddr
join p ps = if known p ps then ps else ps ++ (p ∷ [])

-- Everybody who has posted.
unfoldable pub room : List SockAddr → List Post → List SockAddr
room ps [] = ps
room ps (post ∷ posts) = room (join post.author ps) posts

abbrev pub AllFit : List SockAddr → Type 0
AllFit [] = Unit {0}
AllFit (p ∷ ps) = Fits p × AllFit ps

abbrev pub PostsFit : List Post → Type 0
PostsFit [] = Unit {0}
PostsFit (p ∷ ps) = Fits p.author × PostsFit ps

both : (b c : Bool) → (if b then c else false) ≡ true → (b ≡ true) × (c ≡ true)
both true c h = (refl, h)
both false c h = absurd (cc)

if_both : {b c : Bool} → b ≡ true → c ≡ true → (if b then c else false) ≡ true
if_both hb hc = rw (hb, if◌then◌else◌) hc

pub same_string_iff : (xs ys : List ℕ) → (same_string xs ys ≡ true) ↔ (xs ≡ ys)
unfolding same_string
same_string_iff [] [] = (λ h. refl, λ h. refl)
same_string_iff [] (y ∷ ys) = (λ h. absurd (cc), λ h. absurd (cc))
same_string_iff (x ∷ xs) [] = (λ h. absurd (cc), λ h. absurd (cc))
same_string_iff (x ∷ xs) (y ∷ ys) = (
  λ h.
      let parts = both (x == y) (same_string xs ys) h in
      ap₂ ◌∷◌ ((==_iff x y).0 parts.0) ((same_string_iff xs ys).0 parts.1),
  λ h. if_both ((==_iff x y).1 (cc)) ((same_string_iff xs ys).1 (cc)),
)

pub same_peer_iff : (p q : SockAddr) → (same_peer p q ≡ true) ↔ (p ≡ q)
same_peer_iff p q = (
  λ h.
      let parts = both (p.sin_port == q.sin_port) (p.s_addr == q.s_addr) h in
      let ports = (==_iff p.sin_port q.sin_port).0 parts.0 in
      let addrs = (==_iff p.s_addr q.s_addr).0 parts.1 in
      λ i. record { sin_port = ports i; s_addr = addrs i },
  λ h.
      if_both ((==_iff p.sin_port q.sin_port).1 (ap (λ r. r.sin_port) h))
        ((==_iff p.s_addr q.s_addr).1 (ap (λ r. r.s_addr) h)),
)

same_truth : {b c : Bool} → (b ≡ true → c ≡ true) → (c ≡ true → b ≡ true) → b ≡ c
same_truth {b = true} {c = c} f g = cc (f refl)
same_truth {b = false} {c = true} f g = absurd (cc (g refl))
same_truth {b = false} {c = false} f g = refl

pub weigh-map :
    {A B : Type 0} (f : B → ℕ) (g : A → B) (xs : List A)
    → weigh f (map g xs) ≡ weigh (λ x. f (g x)) xs
unfolding weigh
weigh-map f g [] = refl
weigh-map f g (x ∷ xs) = ap (λ n. f (g x) + n) (weigh-map f g xs)

map-end :
    {A B : Type 0} (g : A → B) (xs : List A) (x : A)
    → map g (xs ++ (x ∷ [])) ≡ map g xs ++ (g x ∷ [])
map-end g [] x = refl
map-end g (y ∷ xs) x = ap (λ t. g y ∷ t) (map-end g xs x)

-- The entry of a peer in the map.
abbrev pub entry : (ℕ → List ℕ) → SockAddr → User
entry inet_ntoa p = record { name = key inet_ntoa p; peer = p }

module _ (inet_ntoa : ℕ → List ℕ) (dotted : IsDotted inet_ntoa) where
  same_key :
      (p q : SockAddr)
      → Fits p
      → Fits q
      → same_string (key inet_ntoa p) (key inet_ntoa q) ≡ same_peer p q
  same_key p q hp hq =
      same_truth
        (λ h. (same_peer_iff p q).1 (
          key-injective inet_ntoa dotted p q hp hq
            ((same_string_iff (key inet_ntoa p) (key inet_ntoa q)).0 h)))
        (λ h.
          (same_string_iff (key inet_ntoa p) (key inet_ntoa q)).1
            (ap (key inet_ntoa) ((same_peer_iff p q).0 h)))

  find-entries :
      (p : SockAddr) (ps : List SockAddr)
      → Fits p
      → AllFit ps
      → ((known p ps ≡ false) × (find (key inet_ntoa p) (map (entry inet_ntoa) ps) ≡ none))
        ⊎ ((known p ps ≡ true)
            × (u : User) × (find (key inet_ntoa p) (map (entry inet_ntoa) ps) ≡ some u))
  unfolding find
  find-entries p [] hp h = inl (refl, refl)
  find-entries p (q ∷ qs) hp h = elim (Bool-cases (same_peer p q)) [
    | inl e ↦ inr (rw (e) refl, entry inet_ntoa q, rw (same_key p q hp h.0, e) refl)
    | inr e ↦ rw (same_key p q hp h.0, e, if◌then◌else◌) (find-entries p qs hp h.1)
  ]

  pub enter-join :
      (p : SockAddr) (ps : List SockAddr)
      → Fits p
      → AllFit ps
      → enter (key inet_ntoa p) p (map (entry inet_ntoa) ps) ≡ map (entry inet_ntoa) (join p ps)
  unfolding enter join insert
  enter-join p ps hp h = elim (find-entries p ps hp h) [
    | inl (k, f) ↦ rw (enter, f, join, k, if◌then◌else◌, map-end (entry inet_ntoa) ps p) refl
    | inr (k, u, f) ↦ rw (enter, f, join, k, if◌then◌else◌) refl
  ]

AllFit-end : (ps : List SockAddr) (p : SockAddr) → AllFit ps → Fits p → AllFit (ps ++ (p ∷ []))
AllFit-end [] p h hp = (hp, tt)
AllFit-end (q ∷ qs) p h hp = (h.0, AllFit-end qs p h.1 hp)

pub AllFit-join : (p : SockAddr) (ps : List SockAddr) → Fits p → AllFit ps → AllFit (join p ps)
unfolding join
AllFit-join p ps hp h = elim (Bool-cases (known p ps)) [
  | inl e ↦ rw (e, if◌then◌else◌) h
  | inr e ↦ rw (e, if◌then◌else◌) (AllFit-end ps p h hp)
]

pub broadcast-some :
    (k buffer : List ℕ) (us : List User)
    → broadcast (some k) buffer us ≡ some (map (push (send_message k buffer)) us)
unfolding broadcast
broadcast-some k buffer [] = refl
broadcast-some k buffer (u ∷ us) = refl

-- The text that a post is sent on as.
abbrev pub message_of : (ℕ → List ℕ) → Post → List ℕ
message_of inet_ntoa post =
    send_message (key inet_ntoa post.author) (receive (post.first ∷ post.others))

-- What a post should be sent on as: "ip-port # " and the first 1023 bytes of its text, up to a 0.
unfoldable pub posted : (ℕ → List ℕ) → Post → List ℕ
posted inet_ntoa post =
    inet_ntoa post.author.s_addr
    ++ 45
      ∷ (decimal (ntohs post.author.sin_port)
          ++ 32 ∷ 35 ∷ 32 ∷ c_string (take 1023 (post.first ∷ post.others)))

c_string-replicate : (bs : List ℕ) (n : ℕ) → c_string (bs ++ replicate n 0) ≡ c_string bs
unfolding c_string
c_string-replicate [] zero = refl
c_string-replicate [] (suc n) = refl
c_string-replicate (zero ∷ bs) n = refl
c_string-replicate (suc b ∷ bs) n = ground (arith, c_string-replicate bs n)

pub message_of-posted :
    (inet_ntoa : ℕ → List ℕ) (post : Post)
    → IsDotted inet_ntoa
    → message_of inet_ntoa post ≡ posted inet_ntoa post
unfolding send_message receive posted
message_of-posted inet_ntoa post dotted =
    let bs = take 1023 (post.first ∷ post.others) in
    ap (λ t. key inet_ntoa post.author ++ 32 ∷ 35 ∷ 32 ∷ t)
      (c_string-replicate bs (1024 - length bs))
    ∙ ap (λ k. k ++ 32 ∷ 35 ∷ 32 ∷ c_string bs) (key-whole inet_ntoa dotted post.author)
    ∙ append_assoc (inet_ntoa post.author.s_addr) (45 ∷ decimal (ntohs post.author.sin_port))
        (32 ∷ 35 ∷ 32 ∷ c_string bs)

-- Post by post, one copy for everybody who has posted by then, the author included, in the order of
-- the map.
abbrev pub Relays : (ℕ → List ℕ) → List SockAddr → List Post → List Sent → Type 0
Relays inet_ntoa ps [] sent = sent ≡ []
Relays inet_ntoa ps (post ∷ posts) sent =
    (mine : List Sent) × (later : List Sent) × (sent ≡ mine ++ later)
    × ((f : Sent → ℕ)
        → weigh f mine
          ≡ weigh f
              (map (λ p. record { message = posted inet_ntoa post; to = p }) (join post.author ps)))
    × Relays inet_ntoa (join post.author ps) posts later

-- The order in which the map is gone through reaches each entry as often as it is there.
abbrev pub Visits : (List User → List User) → Type 0
Visits iteration = (us : List User) (f : User → ℕ) → weigh f (iteration us) ≡ weigh f us

-- After a peer has joined, the room is not empty.
pub join_pos : (p : SockAddr) (ps : List SockAddr) → 0 < length (join p ps)
unfolding join
join_pos p [] = omega arith
join_pos p (q ∷ qs) = elim (Bool-cases (known p (q ∷ qs))) [
  | inl e ↦ rw (e, if◌then◌else◌) (omega arith)
  | inr e ↦ rw (e, if◌then◌else◌) (omega arith)
]

-- With users, an uninitialised key is read.
pub broadcast-none :
    (buffer : List ℕ) (us : List User) → 0 < weigh (λ u. 1) us → broadcast none buffer us ≡ none
unfolding broadcast weigh
broadcast-none buffer [] h = absurd (omega (arith, h))
broadcast-none buffer (u ∷ us) h = refl
