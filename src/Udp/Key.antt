-- ===== src/Udp/Key.antt =====
-- The key of a user in `start` of the class UdpServer (0215/udp/udp_server.hpp): the text
-- "ip-port", which snprintf cuts to the size of the array.
use os_net_work_code.Base.{
  ℕ, zero, suc, ◌+◌, ◌*◌, ◌-◌, ◌/◌, ◌%◌, ◌^◌, ◌≤◌, ◌<◌, ◌≡◌, ◌≢◌, refl, ap, Bool-cases, inl, inr,
  List, [], ◌∷◌, ◌++◌, length, take, if◌then◌else◌, ltb, length-append, arith,
}
use os_net_work_code.Buffer.{IsText}
use os_net_work_code.Tcp.Server.{SockAddr, ntohs}

-- The decimal digits of a number below 10 ^ fuel, as `%u` prints them.
unfoldable pub digits : ℕ → ℕ → List ℕ
digits zero n = []
digits (suc fuel) n =
    let rest = digits fuel (n / 10) in
    if ltb n 10 then (48 + n) ∷ [] else rest ++ ((48 + n % 10) ∷ [])

-- A uint16_t has five digits at most.
unfoldable pub decimal : ℕ → List ℕ
decimal n = digits 5 n

abbrev pub key_size : ℕ
key_size = 64

-- `inet_ntoa` is the library's; the text of the key has room for one byte less than the array.
unfoldable pub key : (ℕ → List ℕ) → SockAddr → List ℕ
key inet_ntoa peer =
    take (key_size - 1) (inet_ntoa peer.s_addr ++ 45 ∷ decimal (ntohs peer.sin_port))

-- The number that digits spell.
abbrev pub value : ℕ → List ℕ → ℕ
value acc [] = acc
value acc (c ∷ cs) = value (acc * 10 + (c - 48)) cs

value-end :
    (acc : ℕ) (cs : List ℕ) (c : ℕ) → value acc (cs ++ (c ∷ [])) ≡ value acc cs * 10 + (c - 48)
value-end acc [] c = refl
value-end acc (d ∷ cs) c = value-end (acc * 10 + (d - 48)) cs c

pub value-digits : (fuel n : ℕ) → n < 10 ^ fuel → value 0 (digits fuel n) ≡ n
unfolding digits
value-digits zero n h = omega (arith, h)
value-digits (suc fuel) n h = elim (Bool-cases (ltb n 10)) [
  | inl y ↦ rw (y, if◌then◌else◌) (omega arith)
  | inr e ↦
      rw (e, if◌then◌else◌, value-end 0 (digits fuel (n / 10)) (48 + n % 10))
        (let ih = value-digits fuel (n / 10) (omega (arith, h)) in omega (arith, ih))
]

pub length-digits : (fuel n : ℕ) → length (digits fuel n) ≤ fuel
unfolding digits
length-digits zero n = omega arith
length-digits (suc fuel) n =
    ground (
      arith,
      length-digits fuel (n / 10),
      length-append (digits fuel (n / 10)) ((48 + n % 10) ∷ []),
    )

-- A port that fits in 16 bits is read back from its text.
pub value-decimal : (n : ℕ) → n < 2 ^ 16 → value 0 (decimal n) ≡ n
unfolding decimal
value-decimal n h = value-digits 5 n (omega (arith, h))

ntohs-injective : (p q : ℕ) → p < 2 ^ 16 → q < 2 ^ 16 → ntohs p ≡ ntohs q → p ≡ q
unfolding ntohs
ntohs-injective p q hp hq e = omega arith

ntohs_bound : (p : ℕ) → p < 2 ^ 16 → ntohs p < 2 ^ 16
unfolding ntohs
ntohs_bound p h = omega arith

-- No byte is a '-'.
abbrev pub Dashless : List ℕ → Type 0
Dashless [] = Unit {0}
Dashless (c ∷ cs) = (c ≢ 45) × Dashless cs

split_dash :
    (xs ys : List ℕ) {us vs : List ℕ}
    → Dashless xs
    → Dashless ys
    → xs ++ (45 ∷ us) ≡ ys ++ (45 ∷ vs)
    → (xs ≡ ys) × (us ≡ vs)
split_dash [] [] hx hy e = (refl, cc)
split_dash [] (y ∷ ys) hx hy e = absurd (hy.0 (cc))
split_dash (x ∷ xs) [] hx hy e = absurd (hx.0 (cc))
split_dash (x ∷ xs) (y ∷ ys) {us} {vs} hx hy e =
    let tails : xs ++ (45 ∷ us) ≡ ys ++ (45 ∷ vs) = cc in
    let heads : x ≡ y = cc in let ih = split_dash xs ys hx.1 hy.1 tails in (cc, ih.1)

pub take-all : (n : ℕ) (xs : List ℕ) → length xs ≤ n → take n xs ≡ xs
take-all zero [] h = refl
take-all (suc n) [] h = refl
take-all zero (x ∷ xs) h = absurd (omega (arith, h))
take-all (suc n) (x ∷ xs) h = ap (λ t. x ∷ t) (take-all n xs (omega (arith, h)))

-- What the manual of `inet_ntoa` says: dotted decimal is text of at most 15 bytes, has no '-', and
-- different addresses read differently.
pub record IsDotted (inet_ntoa : ℕ → List ℕ) : Type 0 where
  pub text : (a : ℕ) → IsText (inet_ntoa a)
  pub short : (a : ℕ) → length (inet_ntoa a) ≤ 15
  pub dashless : (a : ℕ) → Dashless (inet_ntoa a)
  pub injective : (a b : ℕ) → a < 2 ^ 32 → b < 2 ^ 32 → inet_ntoa a ≡ inet_ntoa b → a ≡ b

-- A `sockaddr_in` has a port of 16 bits and an address of 32.
abbrev pub Fits : SockAddr → Type 0
Fits p = (p.sin_port < 2 ^ 16) × (p.s_addr < 2 ^ 32)

module _ (inet_ntoa : ℕ → List ℕ) (dotted : IsDotted inet_ntoa) where
  -- The key is never cut.
  pub key-whole :
      (p : SockAddr) → key inet_ntoa p ≡ inet_ntoa p.s_addr ++ 45 ∷ decimal (ntohs p.sin_port)
  unfolding key decimal
  key-whole p = take-all 63 (inet_ntoa p.s_addr ++ 45 ∷ decimal (ntohs p.sin_port)) (
      omega (
        arith,
        length-append (inet_ntoa p.s_addr) (45 ∷ decimal (ntohs p.sin_port)),
        length-digits 5 (ntohs p.sin_port),
        dotted.short p.s_addr,
      ))

  -- Peers with the same key have the same address and port.
  pub key-injective : (p q : SockAddr) → Fits p → Fits q → key inet_ntoa p ≡ key inet_ntoa q → p ≡ q
  key-injective p q hp hq e =
      let whole : inet_ntoa p.s_addr ++ 45 ∷ decimal (ntohs p.sin_port)
          ≡ inet_ntoa q.s_addr ++ 45 ∷ decimal (ntohs q.sin_port) =
        rw (← key-whole p, ← key-whole q) e in
      let parts =
        split_dash (inet_ntoa p.s_addr) (inet_ntoa q.s_addr) (dotted.dashless p.s_addr)
          (dotted.dashless q.s_addr) whole in
      let vp = value-decimal (ntohs p.sin_port) (ntohs_bound p.sin_port hp.0) in
      let vq = value-decimal (ntohs q.sin_port) (ntohs_bound q.sin_port hq.0) in
      let same : ntohs p.sin_port ≡ ntohs q.sin_port = cc in
      let ports = ntohs-injective p.sin_port q.sin_port hp.0 hq.0 same in
      let addrs = dotted.injective p.s_addr q.s_addr hp.1 hq.1 parts.0 in cc
