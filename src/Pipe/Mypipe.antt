-- ===== src/Pipe/Mypipe.antt =====
-- Father and child of 1119/pipe/mypipe.cc.
use os_net_work_code.Base.{
  ℕ, zero, suc, ◌+◌, ◌-◌, subst, ◌∙◌, ◌≤◌, ◌<◌, ◌≡◌, refl, ap, List, [], ◌∷◌, ◌++◌, length, take,
  Option, some, none, if◌then◌else◌, ◌==◌, set, length-set, length-append, length-drop, drop, map,
  arith,
}
use os_net_work_code.Buffer.{c_string, store, fill, c_string-IsText, store-fill, c_string-store}
use os_net_work_code.Tcp.Service.{Read, bytes, eof, failed}
use os_net_work_code.Tcp.Client.{arrives, Lines}
use os_net_work_code.Udp.Key.{digits}

abbrev pub size : ℕ
size = 1024

-- The text of message `count`: "%s[%d] : %d", cut to the array.
unfoldable pub compose : List ℕ → ℕ → ℕ → List ℕ
compose message pid count =
    take (size - 1) (message ++ 91 ∷ digits 10 pid ++ 93 ∷ 32 ∷ 58 ∷ 32 ∷ digits 10 count)

-- The loop of the father from `count` on, for at most `fuel` rounds.
unfoldable pub father : List ℕ → ℕ → ℕ → ℕ → List (List ℕ)
father message pid zero count = []
father message pid (suc fuel) count =
    let rest = father message pid fuel (count + 1) in
    compose message pid count ∷ (if count + 1 == 10 then [] else rest)

-- What the child prints: a message, or that the writer has quit.
pub data Shown : Type 0 where
  got : List ℕ → Shown
  quit : Shown

-- The loop of the child on what `read` returns: an error is passed over, and the loop goes on.
-- `none` is a write past the buffer.
unfoldable pub child : List ℕ → List Read → Option (List Shown)
child buffer [] = some []
child buffer (eof ∷ rs) = some (quit ∷ [])
child buffer (failed ∷ rs) = child buffer rs
child buffer (bytes b bs ∷ rs) = elim (store (fill buffer (b ∷ bs)) (length (b ∷ bs)) 0) [
  | none ↦ none
  | some buffer' ↦ elim (child buffer' rs) [
    | none ↦ none
    | some out ↦ some (got (c_string buffer') ∷ out)
  ]
]

-- The bytes in a row.
abbrev pub joined : List (List ℕ) → List ℕ
joined [] = []
joined (l ∷ ls) = l ++ joined ls

-- All that was printed of messages.
unfoldable pub printed : List Shown → List ℕ
printed [] = []
printed (got l ∷ out) = l ++ printed out
printed (quit ∷ out) = printed out

-- What the father sends.
abbrev pub ten_messages : List ℕ → ℕ → List (List ℕ)
ten_messages message pid = map (compose message pid) (0 ∷ 1 ∷ 2 ∷ 3 ∷ 4 ∷ 5 ∷ 6 ∷ 7 ∷ 8 ∷ 9 ∷ [])

father_ten :
    (message : List ℕ) (pid extra : ℕ)
    → father message pid (suc (suc (suc (suc (suc (suc (suc (suc (suc (suc extra)))))))))) 0
      ≡ ten_messages message pid
unfolding father
father_ten message pid extra = refl

-- Ten rounds of fuel are enough: with more the father sends the same.
father_stops :
    (message : List ℕ) (pid fuel : ℕ)
    → 10 ≤ fuel
    → father message pid fuel 0 ≡ ten_messages message pid
father_stops message pid fuel h =
    subst (λ f. father message pid f 0 ≡ ten_messages message pid) split
      (father_ten message pid (fuel - 10))
  where
    split : suc (suc (suc (suc (suc (suc (suc (suc (suc (suc (fuel - 10)))))))))) ≡ fuel
    split = omega (arith, h)

child-chunks :
    (buffer : List ℕ) (cs : List (List ℕ))
    → length buffer ≡ size
    → Lines cs
    → child buffer (arrives cs ++ (eof ∷ [])) ≡ some (map got cs ++ (quit ∷ []))
unfolding child
child-chunks buffer [] room h = refl
child-chunks buffer ([] ∷ cs) room h = absurd (omega (arith, h.0))
child-chunks buffer ((b ∷ bs) ∷ cs) room h =
    rw
      (
        store-fill buffer (b ∷ bs) short,
        child,
        child-chunks (set (fill buffer (b ∷ bs)) (length (b ∷ bs)) 0) cs same h.3,
        c_string-store buffer (b ∷ bs) short,
        c_string-IsText (b ∷ bs) h.2,
      )
      refl
  where
    short : length (b ∷ bs) < length buffer
    short = omega (arith, room, h.1)

    same : length (set (fill buffer (b ∷ bs)) (length (b ∷ bs)) 0) ≡ size
    same = omega (
      arith,
      short,
      room,
      length-set (fill buffer (b ∷ bs)) (length (b ∷ bs)) 0,
      length-append (b ∷ bs) (drop (length (b ∷ bs)) buffer),
      length-drop (length (b ∷ bs)) buffer,
    )

printed-got : (cs : List (List ℕ)) → printed (map got cs) ≡ joined cs
unfolding printed
printed-got [] = refl
printed-got (c ∷ cs) = ap (λ t. c ++ t) (printed-got cs)

-- However the pipe cuts the stream of the father's ten messages into chunks of 1 to 1023 bytes
-- without a 0, and whatever the child's buffer held before, the child never writes past its buffer,
-- stops when the father has closed the pipe, and what it has printed of messages is the stream,
-- byte for byte. The father stops after the tenth message, with any fuel of ten rounds or more.
pub pipe_transmits :
    (message : List ℕ) (pid fuel : ℕ) (stack : List ℕ) (cs : List (List ℕ))
    → 10 ≤ fuel
    → length stack ≡ size
    → Lines cs
    → joined cs ≡ joined (father message pid fuel 0)
    → (out : List Shown) × (child stack (arrives cs ++ (eof ∷ [])) ≡ some (out ++ (quit ∷ [])))
      × (printed out ≡ joined (ten_messages message pid))
pipe_transmits message pid fuel stack cs enough room h stream = (
  map got cs,
  child-chunks stack cs room h,
  printed-got cs ∙ stream ∙ ap joined (father_stops message pid fuel enough),
)
