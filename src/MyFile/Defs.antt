-- ===== src/MyFile/Defs.antt =====
-- The functions of 1017/myfile.c. `write` is taken to write all it is given; the `printf` that is
-- there for debugging is left out.
use os_net_work_code.Base.{
  ℕ, zero, suc, ◌+◌, Option, none, some, List, [], ◌∷◌, ◌++◌, length, get_elem?, take, drop,
  replicate, if◌then◌else◌, ltb, ◌==◌,
}
use os_net_work_code.Udp.Server.{same_string}

abbrev pub num : ℕ
num = 1024

abbrev pub newline : ℕ
newline = 10

-- `MyFILE`.
pub record MyFile : Type 0 where
  pub fd : ℕ
  pub buffer : List ℕ
  pub end : ℕ

-- A file with what the kernel was given for its descriptor.
pub record Opened : Type 0 where
  pub fp : MyFile
  pub written : List ℕ

-- `malloc` and `memset` of a file that `open` has returned `fd` for.
unfoldable pub fresh : ℕ → MyFile
fresh fd = record { fd = fd; buffer = replicate num 0; end = 0 }

abbrev pub opened_file : ℕ → Opened
opened_file fd = record { fp = fresh fd; written = [] }

-- `fopen_`, with the outcome of `open`: only "w" opens a file, any other mode returns NULL.
unfoldable pub fopen_ : Option ℕ → List ℕ → Option Opened
fopen_ none mode = none
fopen_ (some fd) mode = if same_string mode (b'w' ∷ []) then some (opened_file fd) else none

-- `strcpy(fp->buffer + fp->end, message)` inside the buffer.
unfoldable pub place : List ℕ → ℕ → List ℕ → List ℕ
place buf start message = (take start buf ++ message) ++ 0 ∷ drop (suc (start + length message)) buf

-- The byte before `end`; none is a read before the buffer.
unfoldable pub last_byte : List ℕ → ℕ → Option ℕ
last_byte buf zero = none
last_byte buf (suc i) = get_elem? buf i

-- Standard output is written when the buffer ends in a newline, all else waits.
unfoldable pub line_flush : Opened → Option Opened
line_flush f =
    if f.fp.fd == 1
    then (elim (last_byte f.fp.buffer f.fp.end) [
      | none ↦ none
      | some c ↦
          if c == newline
          then some (record f { written = f.written ++ take f.fp.end f.fp.buffer })
          else some f
    ])
    else some f

-- `fputs_`; none is a store past the end of the buffer.
unfoldable pub fputs_ : List ℕ → Opened → Option Opened
fputs_ message f =
    if ltb (f.fp.end + length message) num
    then line_flush (record {
      fp = record {
        fd = f.fp.fd;
        buffer = place f.fp.buffer f.fp.end message;
        end = f.fp.end + length message;
      };
      written = f.written;
    })
    else none

unfoldable pub fflush_ : Opened → Opened
fflush_ f = if f.fp.end == 0 then f else record {
  fp = record { fd = f.fp.fd; buffer = f.fp.buffer; end = 0 };
  written = f.written ++ take f.fp.end f.fp.buffer;
}

-- `fclose_` leaves what was written; the file itself is freed.
unfoldable pub fclose_ : Opened → List ℕ
fclose_ f = (fflush_ f).written

-- Messages are put one after the other.
unfoldable pub put_all : List (List ℕ) → Opened → Option Opened
put_all [] f = some f
put_all (m ∷ ms) f = elim (fputs_ m f) [ none ↦ none | some g ↦ put_all ms g ]

unfoldable pub closed : Option Opened → Option (List ℕ)
closed none = none
closed (some f) = some (fclose_ f)

-- The messages of `main`.
abbrev pub messages : List (List ℕ)
messages =
    (b'o' ∷ b'n' ∷ b'e' ∷ b':' ∷ b' ' ∷ b'h' ∷ b'e' ∷ b'l' ∷ b'l' ∷ b'o' ∷ b' ' ∷ b'w' ∷ b'o' ∷ b'r'
      ∷ b'l' ∷ b'd' ∷ [])
    ∷ (b' ' ∷ b' ' ∷ b' ' ∷ b' ' ∷ b't' ∷ b'w' ∷ b'o' ∷ b':' ∷ b' ' ∷ b'h' ∷ b'e' ∷ b'l' ∷ b'l'
        ∷ b'o' ∷ b' ' ∷ b'w' ∷ b'o' ∷ b'r' ∷ b'l' ∷ b'd' ∷ [])
    ∷ (b' ' ∷ b' ' ∷ b' ' ∷ b' ' ∷ b't' ∷ b'h' ∷ b'r' ∷ b'e' ∷ b'e' ∷ b':' ∷ b' ' ∷ b'h' ∷ b'e'
        ∷ b'l' ∷ b'l' ∷ b'o' ∷ b' ' ∷ b'w' ∷ b'o' ∷ b'r' ∷ b'l' ∷ b'd' ∷ [])
    ∷ (b' ' ∷ b' ' ∷ b' ' ∷ b' ' ∷ b'f' ∷ b'o' ∷ b'u' ∷ b'r' ∷ b':' ∷ b' ' ∷ b'h' ∷ b'e' ∷ b'l'
        ∷ b'l' ∷ b'o' ∷ b' ' ∷ b'w' ∷ b'o' ∷ b'r' ∷ b'l' ∷ b'd' ∷ [])
    ∷ []

-- `main`: its exit code and what is in the file; none is undefined behaviour.
unfoldable pub main : Option ℕ → Option (ℕ × List ℕ)
main opened = elim (fopen_ opened (b'w' ∷ [])) [
  | none ↦ some (1, [])
  | some f ↦ elim (closed (put_all messages f)) [ none ↦ none | some content ↦ some (0, content) ]
]
