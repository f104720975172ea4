-- ===== src/Pipe/Events.antt =====
-- What can be seen of the fifo of 1126/fifo, of two runs in a row, and the front of its bytes that
-- `read` takes.
use os_net_work_code.Base.{
  ℕ, zero, suc, ◌+◌, ◌-◌, ◌≤◌, ◌≡◌, refl, ap, ◌∙◌, sym, List, [], ◌∷◌, ◌++◌, append_assoc, concat,
  length, take, drop, replicate, arith,
}
use os_net_work_code.Buffer.{c_string, IsText, c_string-zeros}
use os_net_work_code.Pipe.Fifo.{
  client_say, end_of_file, read_error, Event, wrote, took, saw_end, shows, written, pieces, said,
  ends,
}

pub take-drop : (n : ℕ) (xs : List ℕ) → take n xs ++ drop n xs ≡ xs
take-drop zero [] = refl
take-drop zero (x ∷ xs) = refl
take-drop (suc n) [] = refl
take-drop (suc n) (x ∷ xs) = ap (λ t. x ∷ t) (take-drop n xs)

length-take_le : (n : ℕ) (xs : List ℕ) → length (take n xs) ≤ n
length-take_le zero [] = omega arith
length-take_le zero (x ∷ xs) = omega arith
length-take_le (suc n) [] = omega arith
length-take_le (suc n) (x ∷ xs) = omega (arith, length-take_le n xs)

take-IsText : (n : ℕ) (xs : List ℕ) → IsText xs → IsText (take n xs)
take-IsText zero [] h = tt
take-IsText zero (x ∷ xs) h = tt
take-IsText (suc n) [] h = tt
take-IsText (suc n) (x ∷ xs) h = (h.0, take-IsText n xs h.1)

pub drop-IsText : (n : ℕ) (xs : List ℕ) → IsText xs → IsText (drop n xs)
drop-IsText zero [] h = tt
drop-IsText zero (x ∷ xs) h = h
drop-IsText (suc n) [] h = tt
drop-IsText (suc n) (x ∷ xs) h = drop-IsText n xs h.1

-- What is read fits the buffer with its 0.
pub whole_front :
    (b m : ℕ) (bs : List ℕ)
    → IsText (b ∷ bs)
    → m ≤ 126
    → c_string ((b ∷ take m bs) ++ replicate (128 - length (b ∷ take m bs)) 0) ≡ b ∷ take m bs
whole_front b m bs text h =
    c_string-zeros (b ∷ take m bs) (128 - length (b ∷ take m bs)) (text.0, take-IsText m bs text.1)
      (omega (arith, h, length-take_le m bs))

pub concat-append : (xs ys : List (List ℕ)) → concat (xs ++ ys) ≡ concat xs ++ concat ys
concat-append [] ys = refl
concat-append (x ∷ xs) ys =
    ap (λ t. x ++ t) (concat-append xs ys) ∙ sym (append_assoc x (concat xs) (concat ys))

pub written-append : (es fs : List Event) → written (es ++ fs) ≡ written es ++ written fs
unfolding written
written-append [] fs = refl
written-append (wrote l ∷ es) fs = ap (λ t. l ∷ t) (written-append es fs)
written-append (took p ∷ es) fs = written-append es fs
written-append (saw_end ∷ es) fs = written-append es fs
written-append (shows x ∷ es) fs = written-append es fs

pub pieces-append : (es fs : List Event) → pieces (es ++ fs) ≡ pieces es ++ pieces fs
unfolding pieces
pieces-append [] fs = refl
pieces-append (wrote l ∷ es) fs = pieces-append es fs
pieces-append (took p ∷ es) fs = ap (λ t. p ∷ t) (pieces-append es fs)
pieces-append (saw_end ∷ es) fs = pieces-append es fs
pieces-append (shows x ∷ es) fs = pieces-append es fs

pub said-append : (es fs : List Event) → said (es ++ fs) ≡ said es ++ said fs
unfolding said
said-append [] fs = refl
said-append (wrote l ∷ es) fs = said-append es fs
said-append (took p ∷ es) fs = said-append es fs
said-append (saw_end ∷ es) fs = said-append es fs
said-append (shows (client_say l) ∷ es) fs = ap (λ t. l ∷ t) (said-append es fs)
said-append (shows end_of_file ∷ es) fs = said-append es fs
said-append (shows read_error ∷ es) fs = said-append es fs

pub ends-append : (es fs : List Event) → ends (es ++ fs) ≡ ends es + ends fs
unfolding ends
ends-append [] fs = omega arith
ends-append (wrote l ∷ es) fs = ends-append es fs
ends-append (took p ∷ es) fs = ends-append es fs
ends-append (saw_end ∷ es) fs = omega (arith, ends-append es fs)
ends-append (shows x ∷ es) fs = ends-append es fs
