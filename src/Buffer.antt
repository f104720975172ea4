-- ===== src/Buffer.antt =====
-- Fixed-size `char` buffers as the socket, pipe and shared-memory programs use them: a system call
-- fills the front of a buffer, the program stores a terminating 0 and reads a C string back.
-- (0215/tcp, 0215/udp, 1119/pipe, 1126/fifo and 1201.)
use os_net_work_code.Base.{
  ℕ, zero, suc, replicate, ◌<◌, ◌≡◌, ◌≢◌, refl, Option, none, some, List, [], ◌∷◌, ◌++◌, length,
  length-append, set, drop, length-drop, if◌then◌else◌, ltb, lt→ltb, ◌==◌, arith,
}

-- The bytes before the first 0, or all: what `%s`, `<<` and `strlen` see.
unfoldable pub c_string : List ℕ → List ℕ
c_string [] = []
c_string (c ∷ cs) = if c == 0 then [] else c ∷ c_string cs

-- A byte of a buffer is stored; `none` is a write past its end.
unfoldable pub store : List ℕ → ℕ → ℕ → Option (List ℕ)
store buf i v = if ltb i (length buf) then some (set buf i v) else none

-- `read`, `recv` or `recvfrom` has put `bytes` at the front of a buffer.
abbrev pub fill : List ℕ → List ℕ → List ℕ
fill buf bytes = bytes ++ drop (length bytes) buf

-- No byte is 0.
abbrev pub IsText : List ℕ → Type 0
IsText [] = Unit {0}
IsText (c ∷ cs) = (c ≢ 0) × IsText cs

pub c_string-IsText : (bs : List ℕ) → IsText bs → c_string bs ≡ bs
unfolding c_string
c_string-IsText [] h = refl
c_string-IsText (zero ∷ bs) h = absurd (h.0 refl)
c_string-IsText (suc c ∷ bs) h = ground (arith, c_string-IsText bs h.1)

-- A buffer that was filled and closed with a 0 behind the bytes reads back as their C string.
pub c_string-fill :
    (bs rest : List ℕ) → 0 < length rest → c_string (set (bs ++ rest) (length bs) 0) ≡ c_string bs
unfolding c_string
c_string-fill [] [] h = elim h [ ]
c_string-fill [] (r ∷ rest) h = refl
c_string-fill (zero ∷ bs) rest h = refl
c_string-fill (suc c ∷ bs) rest h = ground (arith, c_string-fill bs rest h)

-- `buffer[s] = 0` after a system call that has filled `s` bytes stays inside the buffer exactly if
-- the call has left room for it.
pub store-fill :
    (buf bs : List ℕ)
    → length bs < length buf
    → store (fill buf bs) (length bs) 0 ≡ some (set (fill buf bs) (length bs) 0)
unfolding store
store-fill buf bs h = rw (
  lt→ltb (length bs) (length (fill buf bs))
      (omega (arith, length-append bs (drop (length bs) buf), length-drop (length bs) buf)),
  if◌then◌else◌,
)

pub store-fill_full :
    (buf bs : List ℕ) → length bs ≡ length buf → store (fill buf bs) (length bs) 0 ≡ none
unfolding store
store-fill_full buf bs h =
    ground (arith, length-append bs (drop (length bs) buf), length-drop (length bs) buf)

pub c_string-store :
    (buf bs : List ℕ)
    → length bs < length buf
    → c_string (set (fill buf bs) (length bs) 0) ≡ c_string bs
c_string-store buf bs h =
    c_string-fill bs (drop (length bs) buf) (omega (arith, length-drop (length bs) buf))

-- A text in a buffer of zeros.
pub c_string-zeros : (bs : List ℕ) (n : ℕ) → IsText bs → 0 < n → c_string (bs ++ replicate n 0) ≡ bs
unfolding c_string
c_string-zeros [] zero text pos = absurd (omega (arith, pos))
c_string-zeros [] (suc n) text pos = refl
c_string-zeros (zero ∷ bs) n text pos = absurd (text.0 refl)
c_string-zeros (suc b ∷ bs) n text pos = ground (arith, c_string-zeros bs n text.1 pos)

-- A text that is closed by a 0.
pub c_string-closed : (bs rest : List ℕ) → IsText bs → c_string (bs ++ 0 ∷ rest) ≡ bs
unfolding c_string
c_string-closed [] rest text = refl
c_string-closed (zero ∷ bs) rest text = absurd (text.0 refl)
c_string-closed (suc b ∷ bs) rest text = ground (arith, c_string-closed bs rest text.1)

pub IsText-append : (as' bs : List ℕ) → IsText (as' ++ bs) → IsText as' × IsText bs
IsText-append [] bs text = (tt, text)
IsText-append (a ∷ as') bs text =
    let (front, back) = IsText-append as' bs text.1 in ((text.0, front), back)

pub append-IsText : (as' bs : List ℕ) → IsText as' → IsText bs → IsText (as' ++ bs)
append-IsText [] bs ha hb = hb
append-IsText (a ∷ as') bs ha hb = (ha.0, append-IsText as' bs ha.1 hb)
