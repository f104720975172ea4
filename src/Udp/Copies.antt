-- ===== src/Udp/Copies.antt =====
-- How many copies of a message the server of 0215/udp/udp_server.hpp sends to one peer.
use os_net_work_code.Base.{
  ℕ, suc, ◌+◌, ◌≡◌, refl, sym, subst, ap, ◌∙◌, Bool, true, false, Bool-cases, List, [], ◌∷◌, ◌++◌,
  replicate, map, if◌then◌else◌, arith, inl, inr,
}
use os_net_work_code.Base.Threads.{weigh, weigh-append}
use os_net_work_code.Tcp.Server.{SockAddr}
use os_net_work_code.Udp.Server.{User, Sent, push}
use os_net_work_code.Udp.Room.{same_peer, same_peer_iff, known, join}

-- The datagrams for a peer, in the order in which they were sent.
abbrev pub addressed : SockAddr → List Sent → List (List ℕ)
addressed p [] = []
addressed p (s ∷ ss) =
    let rest = addressed p ss in if same_peer p s.to then s.message ∷ rest else rest

abbrev pub one_if : Bool → ℕ
one_if true = 1
one_if false = 0

abbrev pub copies : SockAddr → List SockAddr → ℕ
copies p ps = weigh (λ q. one_if (same_peer p q)) ps

-- A peer is in the room once or not at all.
abbrev pub Once : SockAddr → List SockAddr → Type 0
Once p ps = copies p ps ≡ one_if (known p ps)

pub addressed-append :
    (p : SockAddr) (ss ts : List Sent) → addressed p (ss ++ ts) ≡ addressed p ss ++ addressed p ts
addressed-append p [] ts = refl
addressed-append p (s ∷ ss) ts = elim (Bool-cases (same_peer p s.to)) [
  | inl e ↦ rw (e, if◌then◌else◌) (ap (λ l. s.message ∷ l) (addressed-append p ss ts))
  | inr e ↦ rw (e, if◌then◌else◌) (addressed-append p ss ts)
]

pub addressed-push :
    (p : SockAddr) (m : List ℕ) (us : List User)
    → addressed p (map (push m) us) ≡ replicate (weigh (λ u. one_if (same_peer p u.peer)) us) m
unfolding weigh
addressed-push p m [] = refl
addressed-push p m (u ∷ us) = elim (Bool-cases (same_peer p u.peer)) [
  | inl e ↦
      let n = weigh (λ v. one_if (same_peer p v.peer)) us in
      let one_more : 1 + n ≡ suc n = omega arith in
      rw (e, if◌then◌else◌)
        (ap (λ l. m ∷ l) (addressed-push p m us) ∙ ap (λ k. replicate k m) (sym one_more))
  | inr e ↦ rw (e, if◌then◌else◌) (addressed-push p m us ∙ ap (λ k. replicate k m) (omega arith))
]

known-end :
    (p a : SockAddr) (ps : List SockAddr)
    → known p (ps ++ (a ∷ [])) ≡ (if known p ps then true else same_peer p a)
known-end p a [] = elim (Bool-cases (same_peer p a)) [
  | inl e ↦ rw (e, if◌then◌else◌) refl
  | inr e ↦ rw (e, if◌then◌else◌) refl
]
known-end p a (q ∷ qs) = elim (Bool-cases (same_peer p q)) [
  | inl e ↦ rw (e, if◌then◌else◌) refl
  | inr e ↦ rw (e, if◌then◌else◌) (known-end p a qs)
]

if_id : (b : Bool) → (if b then true else false) ≡ b
if_id true = refl
if_id false = refl

-- `a` is new in the room.
Once-end :
    (p a : SockAddr) (ps : List SockAddr)
    → Once p ps
    → known a ps ≡ false
    → copies p ps + one_if (same_peer p a) ≡ one_if (if known p ps then true else same_peer p a)
Once-end p a ps h e = elim (Bool-cases (same_peer p a)) [
  | inl s ↦
      let new : known p ps ≡ false =
        subst (λ q. known q ps ≡ false) (sym ((same_peer_iff p a).0 s)) e in
      rw (s, new, if◌then◌else◌) (ap (λ n. n + 1) (h ∙ ap one_if new))
  | inr s ↦ rw s (omega (arith, h, ap one_if (if_id (known p ps))))
]

pub Once-join : (p a : SockAddr) (ps : List SockAddr) → Once p ps → Once p (join a ps)
unfolding join weigh
Once-join p a ps h = elim (Bool-cases (known a ps)) [
  | inl e ↦ rw (e, if◌then◌else◌) h
  | inr e ↦
      rw (e, if◌then◌else◌, known-end p a ps)
        (omega (arith, weigh-append (λ q. one_if (same_peer p q)) ps (a ∷ []), Once-end p a ps h e))
]

pub shown_once :
    (b : Bool) (m : List ℕ) (rest : List (List ℕ))
    → replicate (one_if b) m ++ rest ≡ (if b then m ∷ rest else rest)
shown_once true m rest = refl
shown_once false m rest = refl
