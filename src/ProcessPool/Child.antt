-- ===== src/ProcessPool/Child.antt =====
-- What a child of the pool of 1119/processPool/ProcessPool.hpp does: `__waitCommand` and its loop.
use os_net_work_code.Base.{
  Bool, true, false, ℕ, ◌+◌, ◌*◌, ◌-◌, ◌/◌, ◌%◌, ◌^◌, ◌<◌, ◌≡◌, refl, List, [], ◌∷◌, ◌++◌, Option,
  some, none, get_elem?, if◌then◌else◌, ltb, lt→ltb, arith,
}
use os_net_work_code.Base.Int.{ℤ, pos, negsuc}
use os_net_work_code.ProcessPool.Task.{Func, Handlers, handler_size}

-- The four bytes of a uint32_t, the low byte first.
unfoldable pub encode : ℕ → List ℕ
encode v = v % 256 ∷ v / 256 % 256 ∷ v / 65536 % 256 ∷ v / 16777216 % 256 ∷ []

unfoldable pub decode : ℕ → ℕ → ℕ → ℕ → ℕ
decode a b c d = a + 256 * b + 65536 * c + 16777216 * d

-- The conversion of a uint32_t to int.
unfoldable pub to_int : ℕ → ℤ
to_int v = if ltb v (2 ^ 31) then pos v else negsuc (2 ^ 32 - 1 - v)

-- What a child does: it runs a function, complains of a command, fails the assertion on the size
-- of what was read, leaves its loop and exits, or waits in `read`.
pub data Did : Type 0 where
  ran : Func → Did
  illegal : ℤ → Did
  aborted : Did
  exited : Did
  waiting : Did

-- `command < handlerSize()` and `callbacks[command]`, for a command that is not negative.
unfoldable pub call : Handlers → ℕ → Option Did
call h n =
    if ltb n (handler_size h)
    then elim (get_elem? h.callbacks n) [ none ↦ none | some f ↦ some (ran f) ]
    else some (illegal (pos n))

unfoldable pub execute : Handlers → ℤ → Option Did
execute h (pos n) = call h n
execute h (negsuc n) = some (illegal (negsuc n))

unfoldable pub before : Option Did → Option (List Did) → Option (List Did)
before none rest = none
before (some d) none = none
before (some d) (some ds) = some (d ∷ ds)

-- What `read` on an empty pipe comes to: the end of the file if all write ends have been closed.
unfoldable pub at_end : Bool → Did
at_end true = exited
at_end false = waiting

-- The loop of a child on all the bytes that are written to its pipe; `closed` says whether all write
-- ends have been closed. `none` is a call out of the table.
unfoldable pub child : Bool → Handlers → List ℕ → Option (List Did)
child closed h [] = some (at_end closed ∷ [])
child closed h (a ∷ []) = some (aborted ∷ [])
child closed h (a ∷ b ∷ []) = some (aborted ∷ [])
child closed h (a ∷ b ∷ c ∷ []) = some (aborted ∷ [])
child closed h (a ∷ b ∷ c ∷ d ∷ rest) =
    before (execute h (to_int (decode a b c d))) (child closed h rest)

pub decode-encode :
    (v : ℕ)
    → v < 2 ^ 32
    → decode (v % 256) (v / 256 % 256) (v / 65536 % 256) (v / 16777216 % 256) ≡ v
unfolding decode
decode-encode v h = omega arith

pub to_int-small : (v : ℕ) → v < 2 ^ 31 → to_int v ≡ pos v
unfolding to_int
to_int-small v h = rw (lt→ltb v (2 ^ 31) h) refl

-- A command below the size of the table runs the function with that number.
pub execute-legal :
    (h : Handlers) (v : ℕ) (f : Func)
    → v < handler_size h
    → get_elem? h.callbacks v ≡ some f
    → call h v ≡ some (ran f)
unfolding call
execute-legal h v f small e = rw (lt→ltb v (handler_size h) small, if◌then◌else◌, e) refl

pub child-encode :
    (closed : Bool) (h : Handlers) (v : ℕ) (f : Func) (rest : List ℕ)
    → handler_size h < 2 ^ 31
    → v < handler_size h
    → get_elem? h.callbacks v ≡ some f
    → child closed h (encode v ++ rest) ≡ before (some (ran f)) (child closed h rest)
unfolding child encode execute
child-encode closed h v f rest size small e =
    rw
      (
        decode-encode v (omega (arith, size, small)),
        to_int-small v (omega (arith, size, small)),
        execute,
        execute-legal h v f small e,
      )
      refl
