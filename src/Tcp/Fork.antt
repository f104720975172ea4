-- ===== src/Tcp/Fork.antt =====
-- The server of 0215/tcp/tcp_backup_1, which gives every connection a child process: TcpServer of
-- tcp_server.hpp and `main` of tcp_server.cc.
use os_net_work_code.Base.{
  ◌⊎◌, ℕ, ◌≡◌, refl, ap, Bool, true, false, Option, none, some, List, [], ◌∷◌, ◌++◌, if◌then◌else◌,
  ◌==◌, ==_iff, length, arith, inl, inr,
}
use os_net_work_code.Tcp.Server.{
  SockAddr, htons, ntohs, uint16, local_address, Sockets, Init, ready, exit,
}
use os_net_work_code.Tcp.Service.{
  Read, Effect, rounds, rounds-echoes, service_size, Fits, chunks, ending, echoes,
}

-- `service`, which leaves its socket open. `none` is a write past the buffer.
unfoldable pub serve : List ℕ → List Read → Option (List Effect)
serve stack script = rounds [] stack script

-- `initServer`: the listening socket, or the status of `exit`.
unfoldable pub init_server : Sockets → ℕ → Option ℕ → Init
init_server sys port ip = elim sys.socket [
  | none ↦ exit 2
  | some listen_sock ↦
      if sys.bind (local_address port ip)
      then (if sys.listen then ready listen_sock else exit 4)
      else exit 3
]

-- `close` in one process, given the descriptors that are open in it.
unfoldable pub close_fd : ℕ → List ℕ → List ℕ
close_fd fd [] = []
close_fd fd (f ∷ fs) = let rest = close_fd fd fs in if fd == f then rest else f ∷ rest

-- What happens at an `accept`: it fails, or a client connects, `fork` succeeds or not, and the
-- child reads what the client sends.
pub data Arrival : Type 0 where
  refused : Arrival
  arrived : SockAddr → Bool → List Read → Arrival

-- A child: the open descriptors while it serves, its socket, the client, and what the service does.
pub record Child : Type 0 where
  pub fds : List ℕ
  pub sock : ℕ
  pub client_ip : List ℕ
  pub client_port : ℕ
  pub effects : Option (List Effect)

pub record Family : Type 0 where
  pub parent : List ℕ
  pub children : List Child

-- The loop of `start`. `inet_ntoa` gives the text of an address. `accept` takes the descriptor `new_fd` of the open ones. `stack` is what a
-- child's buffer holds at first.
module _ (inet_ntoa : ℕ → List ℕ) (new_fd : List ℕ → ℕ) (stack : List ℕ) where
  -- The child closes the listening socket, serves and exits.
  unfoldable pub child : ℕ → List ℕ → SockAddr → List Read → Child
  child listen_sock fds src script = record {
    fds = close_fd listen_sock (new_fd fds ∷ fds);
    sock = new_fd fds;
    client_ip = inet_ntoa src.s_addr;
    client_port = ntohs src.sin_port;
    effects = serve stack script;
  }

  -- The parent closes the socket of the connection, also if `fork` has failed.
  unfoldable pub start : ℕ → List ℕ → List Arrival → Family
  start listen_sock fds [] = record { parent = fds; children = [] }
  start listen_sock fds (refused ∷ as') = start listen_sock fds as'
  start listen_sock fds (arrived src forked script ∷ as') =
      let rest = start listen_sock (close_fd (new_fd fds) (new_fd fds ∷ fds)) as' in
      if forked
      then record rest { children = child listen_sock fds src script ∷ rest.children }
      else rest

  -- `main`: the status of `exit`, or the family when the arrivals are over.
  unfoldable pub main : ℕ → ℕ → Sockets → List ℕ → List Arrival → ℕ ⊎ Family
  main argc arg sys fds as' =
      if argc == 2
      then elim (init_server sys (uint16 arg) none) [
        | exit status ↦ inl status
        | ready listen_sock ↦ inr (start listen_sock (listen_sock ∷ fds) as')
      ]
      else inl 1

-- The descriptor is not among the open ones.
abbrev pub Absent : ℕ → List ℕ → Type 0
Absent fd [] = Unit {0}
Absent fd (f ∷ fs) = ((fd == f) ≡ false) × Absent fd fs

close_fd-Absent : (fd : ℕ) (fds : List ℕ) → Absent fd fds → close_fd fd fds ≡ fds
unfolding close_fd
close_fd-Absent fd [] h = refl
close_fd-Absent fd (f ∷ fs) h =
    rw (h.0, if◌then◌else◌) (ap (λ t. f ∷ t) (close_fd-Absent fd fs h.1))

close_fd-head : (fd : ℕ) (fds : List ℕ) → Absent fd fds → close_fd fd (fd ∷ fds) ≡ fds
unfolding close_fd
close_fd-head fd fds h = rw ((==_iff fd fd).1 refl, if◌then◌else◌) (close_fd-Absent fd fds h)

other_fd : (a b : ℕ) → (b == a) ≡ false → (a == b) ≡ false
other_fd a b h = ground arith

-- What is read keeps to the size that `service` gives.
abbrev pub AllFit : List Arrival → Type 0
AllFit [] = Unit {0}
AllFit (refused ∷ as') = AllFit as'
AllFit (arrived src forked script ∷ as') = Fits script × AllFit as'

module _ (inet_ntoa : ℕ → List ℕ) (new_fd : List ℕ → ℕ) where
  -- The children there should be, one for each connection with a `fork`: each has one socket, no
  -- listening socket and no other child's socket, and echoes what its client sends.
  unfoldable pub family : ℕ → List ℕ → List Arrival → List Child
  family listen_sock fds [] = []
  family listen_sock fds (refused ∷ as') = family listen_sock fds as'
  family listen_sock fds (arrived src forked script ∷ as') =
      let rest = family listen_sock fds as' in
      let sock = new_fd (listen_sock ∷ fds) in
      if forked
      then record {
        fds = sock ∷ fds;
        sock = sock;
        client_ip = inet_ntoa src.s_addr;
        client_port = ntohs src.sin_port;
        effects = some (echoes (chunks script) ++ ending [] script);
      }
        ∷ rest
      else rest

module _ (inet_ntoa : ℕ → List ℕ) (new_fd : List ℕ → ℕ)
    (new : (fds : List ℕ) → Absent (new_fd fds) fds) (stack : List ℕ)
    (room : length stack ≡ service_size) where
  child-serves :
      (listen_sock : ℕ) (fds : List ℕ) (src : SockAddr) (script : List Read)
      → Absent listen_sock fds
      → Fits script
      → child inet_ntoa new_fd stack listen_sock (listen_sock ∷ fds) src script ≡ record {
        fds = new_fd (listen_sock ∷ fds) ∷ fds;
        sock = new_fd (listen_sock ∷ fds);
        client_ip = inet_ntoa src.s_addr;
        client_port = ntohs src.sin_port;
        effects = some (echoes (chunks script) ++ ending [] script);
      }
  unfolding child serve close_fd
  child-serves listen_sock fds src script absent fit =
      rw
        (
          rounds-echoes [] stack script room fit,
          other_fd listen_sock (new_fd (listen_sock ∷ fds)) (new (listen_sock ∷ fds)).0,
          if◌then◌else◌,
          close_fd-head listen_sock fds absent,
        )
        refl

  start-family :
      (listen_sock : ℕ) (fds : List ℕ) (as' : List Arrival)
      → Absent listen_sock fds
      → AllFit as'
      → start inet_ntoa new_fd stack listen_sock (listen_sock ∷ fds) as' ≡ record {
        parent = listen_sock ∷ fds;
        children = family inet_ntoa new_fd listen_sock fds as';
      }
  unfolding start family
  start-family listen_sock fds [] absent fit = refl
  start-family listen_sock fds (refused ∷ as') absent fit =
      start-family listen_sock fds as' absent fit
  start-family listen_sock fds (arrived src true script ∷ as') absent fit =
      let sock = new_fd (listen_sock ∷ fds) in
      rw
        (
          start,
          close_fd-head sock (listen_sock ∷ fds) (new (listen_sock ∷ fds)),
          start-family listen_sock fds as' absent fit.1,
          child-serves listen_sock fds src script absent fit.0,
        )
        refl
  start-family listen_sock fds (arrived src false script ∷ as') absent fit =
      let sock = new_fd (listen_sock ∷ fds) in
      rw
        (
          start,
          close_fd-head sock (listen_sock ∷ fds) (new (listen_sock ∷ fds)),
          start-family listen_sock fds as' absent fit.1,
        )
        refl

  -- A server that is started with one argument, and whose sockets can be made, bound and listened
  -- on, serves every connection that `fork` succeeds for by a child of its own. Whatever fails in
  -- between, the parent is left with the descriptors that it began with and the listening socket;
  -- each child has, besides those it inherits from before the start, only its own socket; it is
  -- told its client's port and the text that `inet_ntoa` gives for its address; it answers each chunk by the bytes before its first 0.
  pub forks_serve :
      (arg listen_sock : ℕ) (sys : Sockets) (fds : List ℕ) (as' : List Arrival)
      → sys.socket ≡ some listen_sock
      → Absent listen_sock fds
      → sys.bind (record { sin_port = htons (uint16 arg); s_addr = 0 }) ≡ true
      → sys.listen ≡ true
      → AllFit as'
      → main inet_ntoa new_fd stack 2 arg sys fds as'
        ≡ inr (record {
          parent = listen_sock ∷ fds;
          children = family inet_ntoa new_fd listen_sock fds as';
        })
  unfolding main init_server local_address
  forks_serve arg listen_sock sys fds as' made absent bound listens fit =
      rw (made, bound, listens) (ap inr (start-family listen_sock fds as' absent fit))
