-- ===== src/Tcp/Service.antt =====
-- `service` of 0215/tcp/tcp_server.hpp: the echo of one connection.
use os_net_work_code.Base.{
  ℕ, ◌-◌, ◌≤◌, ◌<◌, ◌≡◌, refl, Option, none, some, List, [], ◌∷◌, ◌++◌, length, set, length-set,
  length-append, length-drop, drop, arith,
}
use os_net_work_code.Buffer.{c_string, store, fill, store-fill, c_string-store}

abbrev pub service_size : ℕ
service_size = 1024

-- What `read` has returned: some bytes, 0 at the end of the stream, or -1.
pub data Read : Type 0 where
  bytes : ℕ → List ℕ → Read  -- the first byte and the others
  eof : Read
  failed : Read

-- What the service does that can be seen.
pub data Effect : Type 0 where
  print : List ℕ → Effect  -- the line on std::cout
  write : List ℕ → Effect  -- write(sock, buffer, strlen(buffer))
  log_shutdown : Effect
  log_error : Effect
  close : Effect

-- The buffer is an array on the stack that keeps its bytes from one round to the next. `none` is a
-- write past its end. A script that ends with the connection open leaves the service in `read`.
unfoldable pub rounds : List Effect → List ℕ → List Read → Option (List Effect)
rounds closing buffer [] = some []
rounds closing buffer (eof ∷ rs) = some (log_shutdown ∷ closing)
rounds closing buffer (failed ∷ rs) = some (log_error ∷ closing)
rounds closing buffer (bytes b bs ∷ rs) = elim (store (fill buffer (b ∷ bs)) (length (b ∷ bs)) 0) [
  | none ↦ none
  | some buffer' ↦ elim (rounds closing buffer' rs) [
    | none ↦ none
    | some effects ↦ some (print (c_string buffer') ∷ write (c_string buffer') ∷ effects)
  ]
]

-- `buffer` starts with whatever is on the stack.
unfoldable pub service : List ℕ → List Read → Option (List Effect)
service stack script = rounds (close ∷ []) stack script

-- `read` is called with room for one byte less than the buffer has.
abbrev pub Fits : List Read → Type 0
Fits [] = Unit {0}
Fits (bytes b bs ∷ rs) = (length (b ∷ bs) ≤ service_size - 1) × Fits rs
Fits (r ∷ rs) = Fits rs

-- The chunks that arrive before the connection ends, and how it ends.
unfoldable pub chunks : List Read → List (List ℕ)
chunks [] = []
chunks (bytes b bs ∷ rs) = (b ∷ bs) ∷ chunks rs
chunks (eof ∷ rs) = []
chunks (failed ∷ rs) = []

unfoldable pub ending : List Effect → List Read → List Effect
ending closing [] = []
ending closing (bytes b bs ∷ rs) = ending closing rs
ending closing (eof ∷ rs) = log_shutdown ∷ closing
ending closing (failed ∷ rs) = log_error ∷ closing

-- Every chunk is printed and written back up to its first 0.
unfoldable pub echoes : List (List ℕ) → List Effect
echoes [] = []
echoes (c ∷ cs) = print (c_string c) ∷ write (c_string c) ∷ echoes cs

pub rounds-echoes :
    (closing : List Effect) (buffer : List ℕ) (rs : List Read)
    → length buffer ≡ service_size
    → Fits rs
    → rounds closing buffer rs ≡ some (echoes (chunks rs) ++ ending closing rs)
unfolding rounds echoes chunks ending
rounds-echoes closing buffer [] h k = refl
rounds-echoes closing buffer (eof ∷ rs) h k = refl
rounds-echoes closing buffer (failed ∷ rs) h k = refl
rounds-echoes closing buffer (bytes b bs ∷ rs) h k = rw (
  store-fill buffer (b ∷ bs) short,
  rounds,
  rounds-echoes closing (set (fill buffer (b ∷ bs)) (length (b ∷ bs)) 0) rs same k.1,
  c_string-store buffer (b ∷ bs) short,
)
  where
    short : length (b ∷ bs) < length buffer
    short = omega (arith, h, k.0)

    same : length (set (fill buffer (b ∷ bs)) (length (b ∷ bs)) 0) ≡ service_size
    same = omega (
      arith,
      short,
      h,
      length-set (fill buffer (b ∷ bs)) (length (b ∷ bs)) 0,
      length-append (b ∷ bs) (drop (length (b ∷ bs)) buffer),
      length-drop (length (b ∷ bs)) buffer,
    )

-- If `read` keeps to the size that it is given, the service never writes past its buffer. It
-- answers every chunk, in order, with the bytes before the chunk's first 0, whatever the buffer
-- held before, and logs and closes the connection once when it ends or fails.
pub service-echoes :
    (stack : List ℕ) (script : List Read)
    → length stack ≡ service_size
    → Fits script
    → service stack script ≡ some (echoes (chunks script) ++ ending (close ∷ []) script)
unfolding service
service-echoes stack script room fits = rounds-echoes (close ∷ []) stack script room fits
